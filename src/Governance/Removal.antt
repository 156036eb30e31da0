-- ===== src/Governance/Removal.antt =====
-- Removing a member and leaving, on their successful branch
-- (apps/api/src/services/workspace-governance.ts).
use replay_bug.Common.{
  ℕ, true, false, not, ◌==◌, ◌&&◌, ◌≡◌, inl, inr, subst, none, some, List, [], ◌∷◌, ◌++◌, arith,
  Bool-cases,
}
use replay_bug.Errors.{ok, through, ensure, ensure-eq-ok}
use replay_bug.Authz.Roles.{WorkspaceRole, owner, is_role, can_remove_member, can_leave_workspace}
use replay_bug.Authz.Policy.{workspace_manage_members}
use replay_bug.Authz.Guards.{MembershipView, require_workspace_capability}
use replay_bug.Authz.Access.{find}
use replay_bug.Governance.Store.{
  MembershipRow, AuditAction, removed, left, Db, is_key, delete_membership, insert_audit_log,
}
use replay_bug.Governance.Service.{
  membership_view, actor_membership_or_throw, target_membership_or_throw, owner_row,
  require_exactly_one_owner, lock_governance_state, delete_and_log, remove_body, leave_body,
}
use replay_bug.Governance.Counting.{owners, Unique}
use replay_bug.Governance.Checks.{
  find-key, find-owner, Locked, locked, locked_target, locked_only, owners_one,
}
use replay_bug.Governance.Writes.{Keeps, delete_and_log-Keeps, find-delete_self, find-delete_other}
use replay_bug.Governance.Members.{entry}

not_owner_removed : (a t : WorkspaceRole) → can_remove_member a t ≡ true → is_role t owner ≡ false
unfolding can_remove_member
not_owner_removed a t h = ground arith

-- The key has no row any more, every other key finds the row that it found, and the action is
-- logged.
pub record Deleted (w u : ℕ) (actor_id : ℕ) (action : AuditAction) (db db' : Db) : Type 0 where
  pub gone : find (is_key w u) db'.memberships ≡ none
  pub others :
      (v t : ℕ)
      → ((v == w) && (t == u)) ≡ false
      → find (is_key v t) db'.memberships ≡ find (is_key v t) db.memberships
  pub logged : db'.audit ≡ db.audit ++ (entry w actor_id action ∷ [])

delete_and_log_effect :
    (a w u : ℕ) (action : AuditAction) (ms : List MembershipRow) (db : Db) {db' : Db}
    → delete_and_log a w u action ms db ≡ ok (db', tt)
    → Deleted w u a action db db'
unfolding delete_and_log delete_membership insert_audit_log
delete_and_log_effect a w u action ms db h = record {
  gone = ground (arith, find-delete_self w u db.memberships);
  others = λ v t other. ground (arith, find-delete_other w u v t db.memberships other);
  logged = ground arith;
}

-- What a removal needs and does.
pub record Removed (a w t : ℕ) (db db' : Db) : Type 0 where
  pub actor : MembershipRow
  pub target : MembershipRow
  pub actor_found : find (is_key w a) db.memberships ≡ some actor
  pub target_found : find (is_key w t) db.memberships ≡ some target
  pub allowed : can_remove_member actor.role target.role ≡ true
  pub one_owner : owners w db.memberships ≡ 1
  pub keeps : Keeps db db'
  pub deleted : Deleted w t a (removed t target.role) db db'

module _ {a w t : ℕ} {db db' : Db} (uq : Unique db.memberships) where
  removed_of :
      {ms : List MembershipRow} {view : MembershipView} {only : MembershipRow}
      (l : Locked w a db ms view) (target : MembershipRow)
      → target_membership_or_throw ms t ≡ ok target
      → require_exactly_one_owner ms ≡ ok only
      → can_remove_member view.role target.role ≡ true
      → delete_and_log a w t (removed t target.role) ms db ≡ ok (db', tt)
      → Removed a w t db db'
  unfolding membership_view
  removed_of {ms} {view} l target e4 e5 allowed h =
      let there = locked_target l t e4 in
      let action = removed t target.role in
      record {
        actor = l.actor;
        target = target;
        actor_found = l.actor_found;
        target_found = there;
        allowed = ground (arith, l.viewed);
        one_owner = owners_one w db.memberships (locked_only l e5);
        keeps =
            delete_and_log-Keeps a w t action ms target db uq there
              (not_owner_removed view.role target.role allowed) h;
        deleted = delete_and_log_effect a w t action ms db h;
      }

-- With the memberships' unique key, a removal that succeeds was asked for by a member whose role
-- may remove the target, in a workspace with exactly one owner. The target has no membership
-- after it, every other membership and the number of owners of every workspace are kept, and it
-- is logged.
pub remove_sound :
    (a w t : ℕ) (db : Db) {db' : Db}
    → Unique db.memberships
    → remove_body a w t db ≡ ok (db', tt)
    → Removed a w t db db'
unfolding remove_body
remove_sound a w t db uq h = through (lock_governance_state db w) _ h λ ms e1 h1.
    through (actor_membership_or_throw ms a) _ h1 λ view e2 h2.
      through (require_workspace_capability view workspace_manage_members) _ h2 λ _ e3 h3.
        through (target_membership_or_throw ms t) _ h3 λ target e4 h4.
          through (require_exactly_one_owner ms) _ h4 λ only e5 h5.
            through (ensure (can_remove_member view.role target.role) _) _ h5 λ _ e6 h6.
              through (ensure (not (target.user_id == only.user_id)) _) _ h6
                λ _ e7 h7. removed_of uq (locked w a db e1 e2) target e4 e5 (ensure-eq-ok _ _ e6) h7

-- What leaving needs and does.
pub record Left (a w : ℕ) (db db' : Db) : Type 0 where
  pub actor : MembershipRow
  pub actor_found : find (is_key w a) db.memberships ≡ some actor
  pub not_owner : owner_row actor ≡ false
  pub one_owner : owners w db.memberships ≡ 1
  pub keeps : Keeps db db'
  pub deleted : Deleted w a a (left a actor.role) db db'

leaver_not_owner :
    {a w : ℕ} {db : Db} {ms : List MembershipRow} {view : MembershipView} {only : MembershipRow}
    (l : Locked w a db ms view)
    → require_exactly_one_owner ms ≡ ok only
    → not (only.user_id == a) ≡ true
    → owner_row l.actor ≡ false
leaver_not_owner {a} {w} {db} {only} l e5 other = elim (Bool-cases (owner_row l.actor)) [
  | inr no_owner ↦ no_owner
  | inl is_owner ↦
      let same : l.actor ≡ only =
        find-owner w a db.memberships l.actor_found is_owner (locked_only l e5) in
      let key = find-key w a db.memberships l.actor_found in absurd (ground arith)
]

module _ {a w : ℕ} {db db' : Db} (uq : Unique db.memberships) where
  left_of :
      {ms : List MembershipRow} {view : MembershipView} {only : MembershipRow}
      (l : Locked w a db ms view)
      → require_exactly_one_owner ms ≡ ok only
      → not (only.user_id == a) ≡ true
      → delete_and_log a w a (left a view.role) ms db ≡ ok (db', tt)
      → Left a w db db'
  unfolding membership_view
  left_of {ms} {view} l e5 other h =
      let stays = leaver_not_owner l e5 other in
      let viewed : view.role ≡ l.actor.role = ground (arith, l.viewed) in
      let action = left a view.role in
      record {
        actor = l.actor;
        actor_found = l.actor_found;
        not_owner = stays;
        one_owner = owners_one w db.memberships (locked_only l e5);
        keeps = delete_and_log-Keeps a w a action ms l.actor db uq l.actor_found stays h;
        deleted =
            subst (λ r. Deleted w a a (left a r) db db') viewed
              (delete_and_log_effect a w a action ms db h);
      }

-- With the memberships' unique key, who leaves successfully is a member and not the owner, in a
-- workspace with exactly one owner. After it the membership is gone, every other membership and
-- the number of owners of every workspace are kept, and it is logged.
pub leave_sound :
    (a w : ℕ) (db : Db) {db' : Db}
    → Unique db.memberships
    → leave_body a w db ≡ ok (db', tt)
    → Left a w db db'
unfolding leave_body
leave_sound a w db uq h = through (lock_governance_state db w) _ h λ ms e1 h1.
    through (actor_membership_or_throw ms a) _ h1 λ view e2 h2.
      through (ensure (can_leave_workspace view.role) _) _ h2 λ _ e3 h3.
        through (require_exactly_one_owner ms) _ h3 λ only e4 h4.
          through (ensure (not (only.user_id == a)) _) _ h4
            λ _ e5 h5. left_of uq (locked w a db e1 e2) e4 (ensure-eq-ok _ _ e5) h5
