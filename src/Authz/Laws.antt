-- ===== src/Authz/Laws.antt =====
-- The policy against its matrix, and the rules for members against the order of the roles
-- (apps/api/src/authz/policy.ts).
use replay_bug.Common.{true, ◌≡◌, refl, ◌≤◌, ◌<◌, ◌↔◌, arith}
use replay_bug.Authz.Roles.{
  WorkspaceRole, viewer, member, admin, owner, WorkspaceMemberRole, to_role, role_rank,
  is_workspace_role_at_least, can_change_member_role, can_remove_member,
}
use replay_bug.Authz.Policy.{Capability, workspace_read, workspace_manage_members, has_capability}
use replay_bug.Authz.Matrix.{rbac_matrix}

-- The matrix that is written out for the documentation and the tests agrees with the policy that
-- the guards ask, for every role and every capability.
pub rbac_matrix-eq-has_capability :
    (role : WorkspaceRole) (capability : Capability)
    → rbac_matrix role capability ≡ has_capability role capability
unfolding rbac_matrix has_capability
rbac_matrix-eq-has_capability owner workspace_read = refl
rbac_matrix-eq-has_capability owner _ = refl
rbac_matrix-eq-has_capability admin workspace_read = refl
rbac_matrix-eq-has_capability admin _ = refl
rbac_matrix-eq-has_capability member workspace_read = refl
rbac_matrix-eq-has_capability member _ = refl
rbac_matrix-eq-has_capability viewer workspace_read = refl
rbac_matrix-eq-has_capability viewer _ = refl

-- A role of the same or a higher rank has every capability that a role has.
pub has_capability_mono :
    (role higher : WorkspaceRole) (capability : Capability)
    → role_rank role ≤ role_rank higher
    → has_capability role capability ≡ true
    → has_capability higher capability ≡ true
unfolding has_capability
has_capability_mono role higher capability h k = ground arith

-- `isWorkspaceRoleAtLeast` compares ranks.
pub is_workspace_role_at_least_iff :
    (role minimum : WorkspaceRole)
    → (is_workspace_role_at_least role minimum ≡ true) ↔ (role_rank minimum ≤ role_rank role)
unfolding is_workspace_role_at_least
is_workspace_role_at_least_iff role minimum = ground arith

-- A member's role can be changed exactly by an actor who may manage members and who outranks both
-- the role that the target has and the one that it is given: no escalation, and nobody can change
-- an owner.
pub can_change_member_role_iff :
    (actor target : WorkspaceRole) (next : WorkspaceMemberRole)
    → (can_change_member_role actor target next ≡ true) ↔ (
        (has_capability actor workspace_manage_members ≡ true)
        × (role_rank target < role_rank actor)
        × (role_rank (to_role next) < role_rank actor))
unfolding can_change_member_role has_capability
can_change_member_role_iff actor target next = ground arith

-- A member can be removed exactly by an actor who may manage members and who outranks it.
pub can_remove_member_iff :
    (actor target : WorkspaceRole)
    → (can_remove_member actor target ≡ true) ↔ (
        (has_capability actor workspace_manage_members ≡ true)
        × (role_rank target < role_rank actor))
unfolding can_remove_member has_capability
can_remove_member_iff actor target = ground arith
