-- ===== src/Authz/WebLaws.antt =====
-- The web client's copy of the policy against the API's (apps/web/lib/rbac.ts,
-- apps/api/src/authz/policy.ts).
use replay_bug.Common.{Bool, ◌≡◌, arith}
use replay_bug.Authz.Roles
use replay_bug.Authz.Roles.{
  WorkspaceRole, viewer, member, admin, owner, WorkspaceMemberRole, as_viewer, as_member, as_admin,
}
use replay_bug.Authz.Web
use replay_bug.Authz.Policy.{
  workspace_update, project_create, project_update, environment_write, origin_write, key_rotate,
  workspace_manage_members, workspace_manage_invitations, workspace_read_audit,
  workspace_transfer_ownership, workspace_delete, project_manage_secret_tokens, issue_update_status,
  issue_assign, issue_manage_tags, issue_comment, reproduction_generate, ai_analysis_request,
  has_capability,
}

-- The capability that each control of the web client stands for.
abbrev pub Controls : WorkspaceRole → (Bool → Bool → Type 0) → Type 0
Controls role same =
    same (Web.can_manage_workspace role) (has_capability role workspace_update)
    × same (Web.can_create_project role) (has_capability role project_create)
    × same (Web.can_manage_project role) (has_capability role project_update)
    × same (Web.can_manage_environments role) (has_capability role environment_write)
    × same (Web.can_manage_origins role) (has_capability role origin_write)
    × same (Web.can_rotate_keys role) (has_capability role key_rotate)
    × same (Web.can_manage_members role) (has_capability role workspace_manage_members)
    × same (Web.can_manage_invitations role) (has_capability role workspace_manage_invitations)
    × same (Web.can_manage_audit role) (has_capability role workspace_read_audit)
    × same (Web.can_transfer_ownership role) (has_capability role workspace_transfer_ownership)
    × same (Web.can_delete_workspace role) (has_capability role workspace_delete)
    × same (Web.can_manage_secret_tokens role) (has_capability role project_manage_secret_tokens)
    × same (Web.can_update_issue_status role) (has_capability role issue_update_status)
    × same (Web.can_assign_issue role) (has_capability role issue_assign)
    × same (Web.can_manage_issue_tags role) (has_capability role issue_manage_tags)
    × same (Web.can_comment_on_issue role) (has_capability role issue_comment)
    × same (Web.can_generate_reproduction role) (has_capability role reproduction_generate)
    × same (Web.can_request_ai_analysis role) (has_capability role ai_analysis_request)

-- For every role the web client shows each control exactly if the API grants the capability
-- behind it, and leaving a workspace is offered exactly if the API allows it.
pub web_controls-eq-has_capability :
    (role : WorkspaceRole)
    → Controls role (λ a b. a ≡ b) × (Web.can_leave_workspace role ≡ Roles.can_leave_workspace role)
unfolding has_capability Roles.can_leave_workspace Web.can_leave_workspace Web.can_manage_workspace
    Web.can_create_project Web.can_manage_project Web.can_manage_environments Web.can_manage_origins
    Web.can_rotate_keys Web.can_manage_members Web.can_manage_invitations Web.can_manage_audit
    Web.can_transfer_ownership Web.can_delete_workspace Web.can_manage_secret_tokens
    Web.can_update_issue_status Web.can_assign_issue Web.can_manage_issue_tags
    Web.can_comment_on_issue Web.can_generate_reproduction Web.can_request_ai_analysis
web_controls-eq-has_capability role = ground arith

-- The web client's rules for changing and removing members are the API's, for all roles.
pub web_member_rules-eq :
    (actor target : WorkspaceRole) (next : WorkspaceMemberRole)
    → (Web.can_change_member_role actor target next
        ≡ Roles.can_change_member_role actor target next)
      × (Web.can_remove_member actor target ≡ Roles.can_remove_member actor target)
unfolding Web.can_change_member_role Roles.can_change_member_role Web.can_remove_member
    Roles.can_remove_member
web_member_rules-eq actor target next = ground arith
