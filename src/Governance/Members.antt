-- ===== src/Governance/Members.antt =====
-- Changing the role of a member, removing a member and leaving, on their successful branch
-- (apps/api/src/services/workspace-governance.ts).
use mathlib.Core.Option
use replay_bug.Common.{
  ℕ, true, false, ◌==◌, ◌&&◌, ◌≡◌, inl, inr, some, List, [], ◌∷◌, ◌++◌, arith, Option-cases,
  Bool-cases, if◌then◌else◌,
}
use replay_bug.Errors.{ok, through, ensure, ensure-eq-ok}
use replay_bug.Authz.Roles.{
  WorkspaceRole, owner, is_role, WorkspaceMemberRole, to_role, can_change_member_role,
  can_remove_member,
}
use replay_bug.Authz.Policy.{workspace_manage_members}
use replay_bug.Authz.Guards.{MembershipView, require_workspace_capability}
use replay_bug.Authz.Access.{find}
use replay_bug.Governance.Store.{
  MembershipRow, AuditRow, AuditAction, role_changed, Db, is_key, with_role, update_membership_role,
  insert_audit_log,
}
use replay_bug.Governance.Service.{
  membership_view, actor_membership_or_throw, target_membership_or_throw, require_exactly_one_owner,
  lock_governance_state, change_role, update_role_body,
}
use replay_bug.Governance.Counting.{owners, Unique}
use replay_bug.Governance.Checks.{find-key, Locked, locked, locked_target, locked_only, owners_one}
use replay_bug.Governance.Writes.{Keeps, change_role-Keeps, find-update}

not_owner_changed :
    (a t : WorkspaceRole) (n : WorkspaceMemberRole)
    → can_change_member_role a t n ≡ true
    → (is_role t owner ≡ false) × (is_role (to_role n) owner ≡ false)
unfolding can_change_member_role
not_owner_changed a t n h = ground arith

not_owner_removed : (a t : WorkspaceRole) → can_remove_member a t ≡ true → is_role t owner ≡ false
unfolding can_remove_member
not_owner_removed a t h = ground arith

-- The rows that a key finds: the target's has the new role, every other is the row before.
abbrev pub NewRole : ℕ → ℕ → WorkspaceRole → Db → Db → Type 0
NewRole w t r db db' =
    (v u : ℕ)
    → find (is_key v u) db'.memberships
      ≡ Option.map (with_role w t r) (find (is_key v u) db.memberships)

abbrev pub entry : ℕ → ℕ → AuditAction → AuditRow
entry w a action = record { workspace_id = w; actor_user_id = a; action = action }

change_role_logs :
    (a w t : ℕ) (r : WorkspaceRole) (target : MembershipRow) (db : Db) {db' : Db}
    {out : ℕ × WorkspaceRole}
    → find (is_key w t) db.memberships ≡ some target
    → change_role a w t r target db ≡ ok (db', out)
    → (out ≡ (t, r))
      × (db'.audit ≡ (
          if is_role target.role r
          then db.audit
          else db.audit ++ (entry w a (role_changed t target.role r) ∷ [])))
unfolding change_role update_membership_role insert_audit_log
change_role_logs a w t r target db there h =
    ground (arith, find-update w t r w t db.memberships, find-key w t db.memberships there)

-- Where the target has the role already, the update would change nothing.
same_role :
    (w t : ℕ) (r : WorkspaceRole) (v u : ℕ) (rows : List MembershipRow) (target : MembershipRow)
    → find (is_key w t) rows ≡ some target
    → target.role ≡ r
    → find (is_key v u) rows ≡ Option.map (with_role w t r) (find (is_key v u) rows)
same_role w t r v u rows target there e = elim (Option-cases (find (is_key v u) rows)) [
  | inl missing ↦ rw missing
  | inr (row, found) ↦ elim (Bool-cases ((v == w) && (u == t))) [
    | inl same ↦
        let ev : v ≡ w = ground arith in
        let eu : u ≡ t = ground arith in rw (ev, eu, there) (ground arith)
    | inr other ↦ ground (arith, find-key v u rows found)
  ]
]

change_role_rows_found :
    (a w t : ℕ) (r : WorkspaceRole) (target : MembershipRow) (db : Db) {db' : Db}
    {out : ℕ × WorkspaceRole}
    → find (is_key w t) db.memberships ≡ some target
    → change_role a w t r target db ≡ ok (db', out)
    → NewRole w t r db db'
unfolding change_role update_membership_role insert_audit_log
change_role_rows_found a w t r target db there h v u =
    ground
      (arith, find-update w t r v u db.memberships, same_role w t r v u db.memberships target there)

-- What a change of a role needs and does.
pub record RoleChanged (a w t : ℕ) (n : WorkspaceMemberRole) (db db' : Db) (out : ℕ × WorkspaceRole)
    : Type 0 where
  pub actor : MembershipRow
  pub target : MembershipRow
  pub actor_found : find (is_key w a) db.memberships ≡ some actor
  pub target_found : find (is_key w t) db.memberships ≡ some target
  pub allowed : can_change_member_role actor.role target.role n ≡ true
  pub one_owner : owners w db.memberships ≡ 1
  pub keeps : Keeps db db'
  pub new_role : NewRole w t (to_role n) db db'
  pub returned : out ≡ (t, to_role n)
  pub logged : db'.audit ≡ (
      if is_role target.role (to_role n)
      then db.audit
      else db.audit ++ (entry w a (role_changed t target.role (to_role n)) ∷ []))

module _ {a w t : ℕ} {n : WorkspaceMemberRole} {db db' : Db} {out : ℕ × WorkspaceRole}
    (uq : Unique db.memberships) where
  RoleChanged-of :
      {ms : List MembershipRow} {view : MembershipView} {only : MembershipRow}
      (l : Locked w a db ms view) (target : MembershipRow)
      → target_membership_or_throw ms t ≡ ok target
      → require_exactly_one_owner ms ≡ ok only
      → can_change_member_role view.role target.role n ≡ true
      → change_role a w t (to_role n) target db ≡ ok (db', out)
      → RoleChanged a w t n db db' out
  unfolding membership_view
  RoleChanged-of {view} l target e4 e5 allowed h6 =
      let there = locked_target l t e4 in
      let (not_owner, not_next) = not_owner_changed view.role target.role n allowed in
      let (returned, logged) = change_role_logs a w t (to_role n) target db there h6 in
      record {
        actor = l.actor;
        target = target;
        actor_found = l.actor_found;
        target_found = there;
        allowed = ground (arith, l.viewed);
        one_owner = owners_one w db.memberships (locked_only l e5);
        keeps = change_role-Keeps a w t (to_role n) target db uq there not_owner not_next h6;
        new_role = change_role_rows_found a w t (to_role n) target db there h6;
        returned = returned;
        logged = logged;
      }

-- With the memberships' unique key, a change of a role that succeeds was asked for by a member
-- whose role may change the target's to the new one, in a workspace with exactly one owner. It
-- gives the target the new role and leaves every other membership, keeps the number of owners of
-- every workspace, returns the target with the new role, and is logged unless the role was that
-- already.
pub update_role_sound :
    (a w t : ℕ) (n : WorkspaceMemberRole) (db : Db) {db' : Db} {out : ℕ × WorkspaceRole}
    → Unique db.memberships
    → update_role_body a w t n db ≡ ok (db', out)
    → RoleChanged a w t n db db' out
unfolding update_role_body
update_role_sound a w t n db {db'} {out} uq h = through (lock_governance_state db w) _ h λ ms e1 h1.
    through (actor_membership_or_throw ms a) _ h1 λ view e2 h2.
      through (require_workspace_capability view workspace_manage_members) _ h2 λ _ e3 h3.
        through (target_membership_or_throw ms t) _ h3 λ target e4 h4.
          through (require_exactly_one_owner ms) _ h4 λ only e5 h5.
            through (ensure (can_change_member_role view.role target.role n) _) _ h5 λ _ e6 h6.
              RoleChanged-of uq (locked w a db e1 e2) target e4 e5 (ensure-eq-ok _ _ e6) h6
