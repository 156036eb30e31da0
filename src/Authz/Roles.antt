-- ===== src/Authz/Roles.antt =====
-- Workspace roles, their ranks and the rules for changing members
-- (apps/api/src/authz/policy.ts, packages/contracts).
use replay_bug.Common.{ℕ, Bool, true, false, ◌&&◌, ◌||◌, if◌then◌else◌}
use replay_bug.Common.Int.{ℤ, sub_ℕ, is_nonneg}

pub data WorkspaceRole : Type 0 where
  viewer member admin owner : WorkspaceRole

-- `Exclude<WorkspaceRole, "owner">`
pub data WorkspaceMemberRole : Type 0 where
  as_viewer as_member as_admin : WorkspaceMemberRole

abbrev pub to_role : WorkspaceMemberRole → WorkspaceRole
to_role as_viewer = viewer
to_role as_member = member
to_role as_admin = admin

-- `a === b` on the role strings.
abbrev pub is_role : WorkspaceRole → WorkspaceRole → Bool
is_role viewer viewer = true
is_role member member = true
is_role admin admin = true
is_role owner owner = true
is_role _ _ = false

-- `ROLE_RANK`
unfoldable pub role_rank : WorkspaceRole → ℕ
role_rank viewer = 0
role_rank member = 1
role_rank admin = 2
role_rank owner = 3

unfoldable pub workspace_role_rank : WorkspaceRole → ℕ
unfolding role_rank
workspace_role_rank role = role_rank role

unfoldable pub compare_workspace_roles : WorkspaceRole → WorkspaceRole → ℤ
unfolding workspace_role_rank
compare_workspace_roles left right = sub_ℕ (workspace_role_rank left) (workspace_role_rank right)

unfoldable pub is_workspace_role_at_least : WorkspaceRole → WorkspaceRole → Bool
unfolding compare_workspace_roles
is_workspace_role_at_least role minimum = is_nonneg (compare_workspace_roles role minimum)

-- `role === "member" || role === "viewer"`
abbrev pub is_member_or_viewer : WorkspaceRole → Bool
is_member_or_viewer role = is_role role member || is_role role viewer

unfoldable pub can_change_member_role : WorkspaceRole → WorkspaceRole → WorkspaceMemberRole → Bool
can_change_member_role actor target next =
    if is_role target owner
    then false
    else if is_role actor owner
    then true
    else is_role actor admin && (is_member_or_viewer target && is_member_or_viewer (to_role next))

unfoldable pub can_remove_member : WorkspaceRole → WorkspaceRole → Bool
can_remove_member actor target =
    if is_role target owner
    then false
    else if is_role actor owner
    then true
    else is_role actor admin && is_member_or_viewer target

unfoldable pub can_leave_workspace : WorkspaceRole → Bool
unfolding is_workspace_role_at_least
can_leave_workspace role = is_workspace_role_at_least role viewer
