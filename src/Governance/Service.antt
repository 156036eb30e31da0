-- ===== src/Governance/Service.antt =====
-- The operations of apps/api/src/services/workspace-governance.ts.
use replay_bug.Common.{
  ℕ, Bool, not, ◌==◌, ◌&&◌, if◌then◌else◌, Option, none, some, List, [], ◌∷◌, filter, any,
}
use replay_bug.Errors.{
  Result, ok, err, ◌>>=◌, ◌>>◌, ensure, not_found, forbidden, conflict, validation_error,
}
use replay_bug.Authz.Roles.{
  WorkspaceRole, admin, owner, WorkspaceMemberRole, to_role, is_role, can_change_member_role,
  can_remove_member, can_leave_workspace,
}
use replay_bug.Authz.Policy.{workspace_manage_members, workspace_transfer_ownership}
use replay_bug.Authz.Guards.{
  MembershipView, require_workspace_membership, require_workspace_capability,
}
use replay_bug.Authz.Access.{find}
use replay_bug.Governance.Store.{
  MembershipRow, AuditAction, role_changed, removed, left, ownership_transferred, Db,
  lock_memberships_by_workspace, list_memberships_by_workspace, update_membership_role,
  delete_membership, insert_audit_log, transaction,
}

-- The role column holds a role by its check constraint, so `persistedWorkspaceRole` passes it on.
unfoldable pub membership_view : MembershipRow → MembershipView
membership_view row = record {
  workspace_id = row.workspace_id;
  user_id = row.user_id;
  role = row.role;
}

unfoldable pub membership_for_user : List MembershipRow → ℕ → Option MembershipRow
membership_for_user memberships user_id = find (λ m. m.user_id == user_id) memberships

abbrev view_of : Option MembershipRow → Option MembershipView
view_of none = none
view_of (some row) = some (membership_view row)

unfoldable pub actor_membership_or_throw : List MembershipRow → ℕ → Result MembershipView
unfolding membership_view require_workspace_membership
actor_membership_or_throw memberships user_id =
    require_workspace_membership (view_of (membership_for_user memberships user_id))

unfoldable pub target_membership_or_throw : List MembershipRow → ℕ → Result MembershipRow
target_membership_or_throw memberships user_id = elim (membership_for_user memberships user_id) [
  | none ↦ err (not_found "Workspace member")
  | some row ↦ ok row
]

abbrev pub owner_row : MembershipRow → Bool
owner_row m = is_role m.role owner

-- `owners.length !== 1`
abbrev pub exactly_one : List MembershipRow → Result MembershipRow
exactly_one [] = err (conflict "Workspace must have exactly one owner")
exactly_one (m ∷ []) = ok m
exactly_one (m ∷ _ ∷ _) = err (conflict "Workspace must have exactly one owner")

unfoldable pub require_exactly_one_owner : List MembershipRow → Result MembershipRow
require_exactly_one_owner memberships = exactly_one (filter owner_row memberships)

-- The locks serialize these transactions, so each runs alone on the state that it locks.
unfoldable pub lock_governance_state : Db → ℕ → Result (List MembershipRow)
lock_governance_state db workspace_id =
    if any (λ w. w == workspace_id) db.workspaces
    then ok (lock_memberships_by_workspace db workspace_id)
    else err (not_found "Workspace")

abbrev pub row_or_conflict : Option MembershipRow → Result MembershipRow
row_or_conflict none = err (conflict "Workspace membership changed concurrently")
row_or_conflict (some row) = ok row

-- The write of `updateWorkspaceMemberRole`. Returns the target's user id and role.
unfoldable pub change_role :
    ℕ → ℕ → ℕ → WorkspaceRole → MembershipRow → Db → Result (Db × (ℕ × WorkspaceRole))
change_role actor_id workspace_id target_id role target db =
    if is_role target.role role
    then ok (db, (target.user_id, target.role))
    else (let (db', updated) = update_membership_role db workspace_id target_id role in
        do
          row ← row_or_conflict updated
          ok (
            insert_audit_log db' workspace_id actor_id (role_changed target_id target.role role),
            (row.user_id, row.role),
          ))

-- The body of the transaction of `updateWorkspaceMemberRole`; the input's schema admits every role
-- but "owner".
unfoldable pub update_role_body :
    ℕ → ℕ → ℕ → WorkspaceMemberRole → Db → Result (Db × (ℕ × WorkspaceRole))
update_role_body actor_id workspace_id target_id next db = do
  memberships ← lock_governance_state db workspace_id
  actor ← actor_membership_or_throw memberships actor_id
  require_workspace_capability actor workspace_manage_members
  target ← target_membership_or_throw memberships target_id
  only ← require_exactly_one_owner memberships
  ensure (can_change_member_role actor.role target.role next)
      (forbidden "Insufficient workspace role for this member")
  change_role actor_id workspace_id target_id (to_role next) target db

-- The requested role is what `workspaceMemberRoleSchema.safeParse` makes of the input.
unfoldable pub update_workspace_member_role :
    ℕ → ℕ → ℕ → Option WorkspaceMemberRole → Db → Db × Result (ℕ × WorkspaceRole)
update_workspace_member_role actor_id workspace_id target_id none db =
    (db, err (validation_error "Invalid workspace member role"))
update_workspace_member_role actor_id workspace_id target_id (some next) db =
    transaction (update_role_body actor_id workspace_id target_id next) db

-- The end of `removeWorkspaceMember` and of `leaveWorkspace`: the delete, and the count of the
-- owners that remain of the rows that were locked.
unfoldable pub delete_and_log :
    ℕ → ℕ → ℕ → AuditAction → List MembershipRow → Db → Result (Db × Unit {0})
delete_and_log actor_id workspace_id user_id action memberships db =
    let (db', deleted) = delete_membership db workspace_id user_id in
    do
      row ← row_or_conflict deleted
      remaining ← exactly_one (filter (λ m. not (m.id == row.id) && owner_row m) memberships)
      ok (insert_audit_log db' workspace_id actor_id action, tt)

unfoldable pub remove_body : ℕ → ℕ → ℕ → Db → Result (Db × Unit {0})
remove_body actor_id workspace_id target_id db = do
  memberships ← lock_governance_state db workspace_id
  actor ← actor_membership_or_throw memberships actor_id
  require_workspace_capability actor workspace_manage_members
  target ← target_membership_or_throw memberships target_id
  only ← require_exactly_one_owner memberships
  ensure (can_remove_member actor.role target.role)
      (forbidden "Insufficient workspace role for this member")
  ensure (not (target.user_id == only.user_id)) (forbidden "The workspace owner cannot be removed")
  delete_and_log actor_id workspace_id target_id (removed target_id target.role) memberships db

unfoldable pub remove_workspace_member : ℕ → ℕ → ℕ → Db → Db × Result (Unit {0})
remove_workspace_member actor_id workspace_id target_id =
    transaction (remove_body actor_id workspace_id target_id)

unfoldable pub leave_body : ℕ → ℕ → Db → Result (Db × Unit {0})
leave_body actor_id workspace_id db = do
  memberships ← lock_governance_state db workspace_id
  actor ← actor_membership_or_throw memberships actor_id
  ensure (can_leave_workspace actor.role) (forbidden "Insufficient workspace role")
  only ← require_exactly_one_owner memberships
  ensure (not (only.user_id == actor_id)) (conflict "The last workspace owner cannot leave")
  delete_and_log actor_id workspace_id actor_id (left actor_id actor.role) memberships db

unfoldable pub leave_workspace : ℕ → ℕ → Db → Db × Result (Unit {0})
leave_workspace actor_id workspace_id = transaction (leave_body actor_id workspace_id)

-- `previousOwner === undefined || newOwner === undefined`
abbrev both_updated : Option MembershipRow → Option MembershipRow → Result (Unit {0})
both_updated (some _) (some _) = ok tt
both_updated _ _ = err (conflict "Workspace membership changed concurrently")

-- The two writes of `transferWorkspaceOwnership` and the count after them. Returns the previous
-- and the new owner's user ids.
unfoldable pub swap_owner : ℕ → ℕ → MembershipRow → MembershipRow → Db → Result (Db × (ℕ × ℕ))
swap_owner actor_id workspace_id only target db =
    let (db1, previous_owner) = update_membership_role db workspace_id only.user_id admin in
    let (db2, new_owner) = update_membership_role db1 workspace_id target.user_id owner in
    do
      both_updated previous_owner new_owner
      resulting ← require_exactly_one_owner (list_memberships_by_workspace db2 workspace_id)
      ensure (resulting.user_id == target.user_id)
          (conflict "Workspace must have exactly one owner")
      ok (
        insert_audit_log db2 workspace_id actor_id
            (ownership_transferred only.user_id target.user_id),
        (only.user_id, target.user_id),
      )

unfoldable pub transfer_body : ℕ → ℕ → ℕ → Db → Result (Db × (ℕ × ℕ))
transfer_body actor_id workspace_id target_id db = do
  memberships ← lock_governance_state db workspace_id
  actor ← actor_membership_or_throw memberships actor_id
  require_workspace_capability actor workspace_transfer_ownership
  only ← require_exactly_one_owner memberships
  ensure (only.user_id == actor.user_id)
      (forbidden "Only the workspace owner can transfer ownership")
  target ← target_membership_or_throw memberships target_id
  ensure (not (owner_row target)) (conflict "Ownership target must be a non-owner member")
  swap_owner actor_id workspace_id only target db

unfoldable pub transfer_workspace_ownership : ℕ → ℕ → ℕ → Db → Db × Result (ℕ × ℕ)
transfer_workspace_ownership actor_id workspace_id target_id =
    transaction (transfer_body actor_id workspace_id target_id)
