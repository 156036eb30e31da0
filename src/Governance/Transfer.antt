-- ===== src/Governance/Transfer.antt =====
-- The transfer of a workspace's ownership, on its successful branch
-- (apps/api/src/services/workspace-governance.ts).
use replay_bug.Common.{
  ℕ, true, false, not, ◌==◌, ◌&&◌, ◌||◌, ◌≡◌, sym, ap, ◌∙◌, subst, subst₂, Option-cases, inl, inr,
  some, List, [], ◌∷◌, ◌++◌, map, arith,
}
use replay_bug.Errors.{ok, through, ensure, ensure-eq-ok}
use replay_bug.Authz.Roles.{WorkspaceRole, admin, owner, is_role}
use replay_bug.Authz.Policy.{workspace_transfer_ownership, has_capability}
use replay_bug.Authz.Guards.{MembershipView, require_workspace_capability}
use replay_bug.Authz.Access.{find}
use replay_bug.Governance.Store.{
  MembershipRow, ownership_transferred, Db, is_key, with_role, update_membership_role,
  insert_audit_log,
}
use replay_bug.Governance.Service.{
  membership_view, actor_membership_or_throw, target_membership_or_throw, owner_row,
  require_exactly_one_owner, lock_governance_state, swap_owner, transfer_body,
}
use replay_bug.Governance.Counting.{owners, Unique}
use replay_bug.Governance.Checks.{
  find-key, find-owner, Locked, locked, locked_target, locked_only, owners_one,
}
use replay_bug.Governance.Writes.{Keeps, swap_owner-Keeps, find-update}
use replay_bug.Governance.Members.{entry}

-- What a transfer needs and does.
pub record Transferred (a w t : ℕ) (db db' : Db) (out : ℕ × ℕ) : Type 0 where
  pub old_owner : MembershipRow
  pub target : MembershipRow
  pub owner_found : find (is_key w a) db.memberships ≡ some old_owner
  pub was_owner : old_owner.role ≡ owner
  pub target_found : find (is_key w t) db.memberships ≡ some target
  pub target_not_owner : owner_row target ≡ false
  pub keeps : Keeps db db'
  pub demoted : find (is_key w a) db'.memberships ≡ some (record old_owner { role = admin })
  pub promoted : find (is_key w t) db'.memberships ≡ some (record target { role = owner })
  pub others :
      (v u : ℕ)
      → ((v == w) && ((u == a) || (u == t))) ≡ false
      → find (is_key v u) db'.memberships ≡ find (is_key v u) db.memberships
  pub one_owner : owners w db.memberships ≡ 1
  pub returned : out ≡ (a, t)
  pub logged : db'.audit ≡ db.audit ++ (entry w a (ownership_transferred a t) ∷ [])

transfer_needs_owner :
    (r : WorkspaceRole) → has_capability r workspace_transfer_ownership ≡ true → r ≡ owner
unfolding has_capability
transfer_needs_owner r h = ground arith

is_role-owner : (r : WorkspaceRole) → is_role r owner ≡ true → r ≡ owner
is_role-owner r h = ground arith

capable :
    (view : MembershipView) {t : Unit {0}}
    → require_workspace_capability view workspace_transfer_ownership ≡ ok t
    → view.role ≡ owner
unfolding require_workspace_capability
capable view h = transfer_needs_owner view.role (ensure-eq-ok _ _ h)

swap_owner_effect :
    (a w : ℕ) (only target : MembershipRow) (db : Db) {db' : Db} {out : ℕ × ℕ}
    → find (is_key w only.user_id) db.memberships ≡ some only
    → find (is_key w target.user_id) db.memberships ≡ some target
    → owner_row only ≡ true
    → owner_row target ≡ false
    → swap_owner a w only target db ≡ ok (db', out)
    → (find (is_key w only.user_id) db'.memberships ≡ some (record only { role = admin }))
      × (find (is_key w target.user_id) db'.memberships ≡ some (record target { role = owner }))
      × (out ≡ (only.user_id, target.user_id))
      × (db'.audit
          ≡ db.audit ++ (entry w a (ownership_transferred only.user_id target.user_id) ∷ []))
unfolding swap_owner update_membership_role insert_audit_log
swap_owner_effect a w only target db {db'} there at o n h =
    let first = map (with_role w only.user_id admin) db.memberships in
    ground (
      arith,
      find-update w target.user_id owner w only.user_id first,
      find-update w target.user_id owner w target.user_id first,
      find-update w only.user_id admin w only.user_id db.memberships,
      find-update w only.user_id admin w target.user_id db.memberships,
      find-key w only.user_id db.memberships there,
      find-key w target.user_id db.memberships at,
    )

untouched :
    (w u : ℕ) (r : WorkspaceRole) (v t : ℕ) (rows : List MembershipRow)
    → ((v == w) && (t == u)) ≡ false
    → find (is_key v t) (map (with_role w u r) rows) ≡ find (is_key v t) rows
untouched w u r v t rows apart = elim (Option-cases (find (is_key v t) rows)) [
  | inl k ↦ ground (arith, find-update w u r v t rows)
  | inr (x, k) ↦ ground (arith, find-update w u r v t rows, find-key v t rows k)
]

-- No other membership is touched.
swap_owner_others :
    (a w : ℕ) (only target : MembershipRow) (db : Db) {db' : Db} {out : ℕ × ℕ}
    → swap_owner a w only target db ≡ ok (db', out)
    → (v u : ℕ) → ((v == w) && ((u == only.user_id) || (u == target.user_id))) ≡ false
    → find (is_key v u) db'.memberships ≡ find (is_key v u) db.memberships
unfolding swap_owner update_membership_role insert_audit_log
swap_owner_others a w only target db {db'} h v u apart =
    let first = map (with_role w only.user_id admin) db.memberships in
    ground (
      arith,
      untouched w target.user_id owner v u first (ground arith),
      untouched w only.user_id admin v u db.memberships (ground arith),
    )

module _ {a w t : ℕ} {db db' : Db} {out : ℕ × ℕ} (uq : Unique db.memberships) where
  Transferred-of :
      {ms : List MembershipRow} {view : MembershipView} {only : MembershipRow}
      (l : Locked w a db ms view) (target : MembershipRow)
      → view.role ≡ owner
      → require_exactly_one_owner ms ≡ ok only
      → target_membership_or_throw ms t ≡ ok target
      → not (owner_row target) ≡ true
      → swap_owner a w only target db ≡ ok (db', out)
      → Transferred a w t db db' out
  unfolding membership_view
  Transferred-of {view} {only} l target viewed e4 e5 not_owner h =
      let at = locked_target l t e5 in
      let was : owner_row l.actor ≡ true = ground (arith, l.viewed) in
      let same : l.actor ≡ only =
        find-owner w a db.memberships l.actor_found was (locked_only l e4) in
      let n : owner_row target ≡ false = ground arith in
      let ua : only.user_id ≡ a =
        ap MembershipRow.user_id (sym same) ∙ (find-key w a db.memberships l.actor_found).1 in
      let ut : target.user_id ≡ t = (find-key w t db.memberships at).1 in
      let found : find (is_key w a) db.memberships ≡ some only = l.actor_found ∙ ap some same in
      let there = subst (λ k. find (is_key w k) db.memberships ≡ some only) (sym ua) found in
      let at' = subst (λ k. find (is_key w k) db.memberships ≡ some target) (sym ut) at in
      let owned : owner_row only ≡ true = subst (λ m. owner_row m ≡ true) same was in
      let (demoted, promoted, returned, logged) =
        swap_owner_effect a w only target db there at' owned n h in
      record {
        old_owner = only;
        target = target;
        owner_found = found;
        was_owner = is_role-owner only.role owned;
        target_found = at;
        target_not_owner = n;
        keeps = swap_owner-Keeps a w only target db uq there at' owned n h;
        demoted =
            subst (λ k. find (is_key w k) db'.memberships ≡ some (record only { role = admin })) ua
              demoted;
        promoted =
            subst (λ k. find (is_key w k) db'.memberships ≡ some (record target { role = owner }))
              ut promoted;
        others = λ v u apart.
            swap_owner_others a w only target db h v u (
              subst₂ (λ x y. ((v == w) && ((u == x) || (u == y))) ≡ false) (sym ua) (sym ut) apart);
        one_owner = owners_one w db.memberships (locked_only l e4);
        returned = ground arith;
        logged =
            subst₂ (λ x y. db'.audit ≡ db.audit ++ (entry w a (ownership_transferred x y) ∷ [])) ua
              ut logged;
      }

-- With the memberships' unique key, a transfer that succeeds was asked for by the one owner of
-- the workspace, for a member that is no owner. After it the old owner is an admin and the target
-- the owner, every other membership of any workspace stays as it is, every workspace has as many
-- owners as before, and it is logged.
pub transfer_sound :
    (a w t : ℕ) (db : Db) {db' : Db} {out : ℕ × ℕ}
    → Unique db.memberships
    → transfer_body a w t db ≡ ok (db', out)
    → Transferred a w t db db' out
unfolding transfer_body
transfer_sound a w t db uq h = through (lock_governance_state db w) _ h λ ms e1 h1.
    through (actor_membership_or_throw ms a) _ h1 λ view e2 h2.
      through (require_workspace_capability view workspace_transfer_ownership) _ h2 λ _ e3 h3.
        through (require_exactly_one_owner ms) _ h3 λ only e4 h4.
          through (ensure (only.user_id == view.user_id) _) _ h4 λ _ e5 h5.
            through (target_membership_or_throw ms t) _ h5 λ target e6 h6.
              through (ensure (not (owner_row target)) _) _ h6 λ _ e7 h7.
                Transferred-of uq (locked w a db e1 e2) target (capable view e3) e4 e6
                  (ensure-eq-ok _ _ e7) h7
