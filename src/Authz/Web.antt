-- ===== src/Authz/Web.antt =====
-- The web client's copy of the role policy (apps/web/lib/rbac.ts).
use replay_bug.Common.{Bool, true, false, not, ◌&&◌, ◌||◌, if◌then◌else◌}
use replay_bug.Authz.Roles.{
  WorkspaceRole, viewer, member, admin, owner, WorkspaceMemberRole, to_role, is_role,
  is_member_or_viewer,
}

unfoldable pub can_manage_workspace : WorkspaceRole → Bool
can_manage_workspace role = is_role role owner

unfoldable pub can_create_project : WorkspaceRole → Bool
can_create_project role = is_role role owner || is_role role admin

unfoldable pub can_manage_project : WorkspaceRole → Bool
can_manage_project role = is_role role owner || is_role role admin

unfoldable pub can_manage_environments : WorkspaceRole → Bool
can_manage_environments role = is_role role owner || is_role role admin

unfoldable pub can_manage_origins : WorkspaceRole → Bool
can_manage_origins role = is_role role owner || is_role role admin

unfoldable pub can_rotate_keys : WorkspaceRole → Bool
can_rotate_keys role = is_role role owner || is_role role admin

unfoldable pub can_manage_members : WorkspaceRole → Bool
can_manage_members role = is_role role owner || is_role role admin

unfoldable pub can_manage_invitations : WorkspaceRole → Bool
can_manage_invitations role = is_role role owner || is_role role admin

unfoldable pub can_manage_audit : WorkspaceRole → Bool
can_manage_audit role = is_role role owner || is_role role admin

unfoldable pub can_transfer_ownership : WorkspaceRole → Bool
can_transfer_ownership role = is_role role owner

unfoldable pub can_delete_workspace : WorkspaceRole → Bool
can_delete_workspace role = is_role role owner

unfoldable pub can_leave_workspace : WorkspaceRole → Bool
can_leave_workspace role =
    is_role role owner || is_role role admin || is_role role member || is_role role viewer

unfoldable pub can_manage_secret_tokens : WorkspaceRole → Bool
can_manage_secret_tokens role = is_role role owner || is_role role admin

unfoldable pub can_update_issue_status : WorkspaceRole → Bool
can_update_issue_status role = not (is_role role viewer)

unfoldable pub can_assign_issue : WorkspaceRole → Bool
can_assign_issue role = not (is_role role viewer)

unfoldable pub can_manage_issue_tags : WorkspaceRole → Bool
can_manage_issue_tags role = not (is_role role viewer)

unfoldable pub can_comment_on_issue : WorkspaceRole → Bool
can_comment_on_issue role = not (is_role role viewer)

unfoldable pub can_generate_reproduction : WorkspaceRole → Bool
can_generate_reproduction role = not (is_role role viewer)

unfoldable pub can_request_ai_analysis : WorkspaceRole → Bool
can_request_ai_analysis role = not (is_role role viewer)

unfoldable pub is_read_only : WorkspaceRole → Bool
is_read_only role = is_role role member || is_role role viewer

unfoldable pub can_change_member_role : WorkspaceRole → WorkspaceRole → WorkspaceMemberRole → Bool
can_change_member_role actor target next =
    if is_role target owner
    then false
    else if is_role actor owner
    then true
    else is_role actor admin && (is_member_or_viewer target && is_member_or_viewer (to_role next))

unfoldable pub can_remove_member : WorkspaceRole → WorkspaceRole → Bool
can_remove_member actor target =
    if is_role target owner
    then false
    else if is_role actor owner
    then true
    else is_role actor admin && is_member_or_viewer target

unfoldable pub can_invite_role : WorkspaceRole → WorkspaceRole → Bool
can_invite_role actor invited =
    if is_role invited owner
    then false
    else if is_role actor owner
    then true
    else is_role actor admin && is_member_or_viewer invited
