-- ===== src/Governance/Checks.antt =====
-- What the checks at the head of a governance transaction establish of the locked state.
use replay_bug.Common.{
  ◌∙◌, ℕ, true, false, ◌&&◌, ◌≡◌, sym, ap, inl, inr, some, List, [], ◌∷◌, filter, length, arith,
  Option-cases, Bool-cases,
}
use replay_bug.Errors.{ok}
use replay_bug.Authz.Guards.{MembershipView}
use replay_bug.Authz.Access.{find}
use replay_bug.Authz.AccessLaws.{find_sound}
use replay_bug.Governance.Store.{
  MembershipRow, Db, is_key, in_workspace, lock_memberships_by_workspace,
}
use replay_bug.Governance.Service.{
  membership_view, membership_for_user, actor_membership_or_throw, target_membership_or_throw,
  owner_row, exactly_one, require_exactly_one_owner, lock_governance_state,
}
use replay_bug.Governance.Counting.{owners, owners-eq-length, find-filter}

lock_ok :
    (db : Db) (w : ℕ) {ms : List MembershipRow}
    → lock_governance_state db w ≡ ok ms
    → ms ≡ filter (in_workspace w) db.memberships
unfolding lock_governance_state lock_memberships_by_workspace
lock_ok db w h = ground arith

actor_ok :
    (w u : ℕ) (rows : List MembershipRow) {v : MembershipView}
    → actor_membership_or_throw (filter (in_workspace w) rows) u ≡ ok v
    → (row : MembershipRow) × (find (is_key w u) rows ≡ some row) × (v ≡ membership_view row)
unfolding actor_membership_or_throw membership_for_user
actor_ok w u rows h = elim (Option-cases (find (is_key w u) rows)) [
  | inl missing ↦ absurd (ground (arith, find-filter w u rows))
  | inr (row, there) ↦ (row, there, ground (arith, find-filter w u rows))
]

target_ok :
    (w u : ℕ) (rows : List MembershipRow) {row : MembershipRow}
    → target_membership_or_throw (filter (in_workspace w) rows) u ≡ ok row
    → find (is_key w u) rows ≡ some row
unfolding target_membership_or_throw membership_for_user
target_ok w u rows h = ground (arith, find-filter w u rows)

exactly_one_ok :
    (os : List MembershipRow) {only : MembershipRow} → exactly_one os ≡ ok only → os ≡ only ∷ []
exactly_one_ok [] h = cc
exactly_one_ok (m ∷ []) h = cc
exactly_one_ok (m ∷ n ∷ os) h = cc

only_ok :
    (ms : List MembershipRow) {only : MembershipRow}
    → require_exactly_one_owner ms ≡ ok only
    → filter owner_row ms ≡ only ∷ []
unfolding require_exactly_one_owner
only_ok ms h = exactly_one_ok (filter owner_row ms) h

-- The row of a key has that key.
pub find-key :
    (w u : ℕ) (rows : List MembershipRow) {row : MembershipRow}
    → find (is_key w u) rows ≡ some row
    → (row.workspace_id ≡ w) × (row.user_id ≡ u)
find-key w u rows {row} h =
    let passed : is_key w u row ≡ true = find_sound (is_key w u) rows h in ground arith

pub no_owner :
    (w u : ℕ) (rows : List MembershipRow) {row : MembershipRow}
    → find (is_key w u) rows ≡ some row
    → filter owner_row (filter (in_workspace w) rows) ≡ []
    → owner_row row ≡ false
unfolding find
no_owner w u [] h e = cc
no_owner w u (m ∷ ms) h e = elim (Bool-cases (is_key w u m)) [
  | inl k ↦ ground arith
  | inr k ↦ no_owner w u ms (rw k at h) (ground arith)
]

-- An owner that a key finds is the one owner of its workspace.
pub find-owner :
    (w u : ℕ) (rows : List MembershipRow) {row only : MembershipRow}
    → find (is_key w u) rows ≡ some row
    → owner_row row ≡ true
    → filter owner_row (filter (in_workspace w) rows) ≡ only ∷ []
    → row ≡ only
unfolding find
find-owner w u [] h o e = cc
find-owner w u (m ∷ ms) {row} {only} h o e = elim (Bool-cases (is_key w u m)) [
  | inl k ↦ ground arith
  | inr k ↦
      let later : find (is_key w u) ms ≡ some row = rw k at h in
      elim (Bool-cases (in_workspace w m && owner_row m)) [
        | inl first ↦
            let none_left : filter owner_row (filter (in_workspace w) ms) ≡ [] = ground arith in
            let not_owner : owner_row row ≡ false = no_owner w u ms later none_left in cc
        | inr other ↦ find-owner w u ms later o (ground arith)
      ]
]

-- The state that a governance operation has locked, and what its first checks have found in it.
pub record Locked (w a : ℕ) (db : Db) (ms : List MembershipRow) (view : MembershipView)
    : Type 0 where
  pub rows : ms ≡ filter (in_workspace w) db.memberships
  pub actor : MembershipRow
  pub actor_found : find (is_key w a) db.memberships ≡ some actor
  pub viewed : view ≡ membership_view actor

pub locked :
    (w a : ℕ) (db : Db) {ms : List MembershipRow} {view : MembershipView}
    → lock_governance_state db w ≡ ok ms
    → actor_membership_or_throw ms a ≡ ok view
    → Locked w a db ms view
locked w a db {ms} {view} h k =
    let rows = lock_ok db w h in
    let (actor, there, viewed) = actor_ok w a db.memberships (rw rows at k) in
    record { rows = rows; actor = actor; actor_found = there; viewed = viewed }

module _ {w a : ℕ} {db : Db} {ms : List MembershipRow} {view : MembershipView}
    (l : Locked w a db ms view) where
  pub locked_target :
      (t : ℕ) {row : MembershipRow}
      → target_membership_or_throw ms t ≡ ok row
      → find (is_key w t) db.memberships ≡ some row
  locked_target t h = target_ok w t db.memberships (rw l.rows at h)

  pub locked_only :
      {only : MembershipRow}
      → require_exactly_one_owner ms ≡ ok only
      → filter owner_row (filter (in_workspace w) db.memberships) ≡ only ∷ []
  locked_only h = only_ok _ (rw l.rows at h)

-- The count of the owners that the check makes.
pub owners_one :
    (w : ℕ) (rows : List MembershipRow) {only : MembershipRow}
    → filter owner_row (filter (in_workspace w) rows) ≡ only ∷ []
    → owners w rows ≡ 1
owners_one w rows e = sym (owners-eq-length w rows) ∙ ap length e
