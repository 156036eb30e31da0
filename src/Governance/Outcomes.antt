-- ===== src/Governance/Outcomes.antt =====
-- Who is refused without learning anything, and when a transfer must succeed
-- (apps/api/src/services/workspace-governance.ts).
use mathlib.Core.Option
use replay_bug.Common.{
  ℕ, true, false, ◌==◌, ◌&&◌, ◌≡◌, refl, ap, ◌⊎◌, inl, inr, ◌∙◌, subst, none, some, List, [], ◌∷◌,
  ◌++◌, filter, map, arith, Bool-cases, any,
}
use replay_bug.Errors.{Result, ok, err, not_found, ◌>>=◌}
use replay_bug.Authz.Roles.{admin, owner, WorkspaceMemberRole}
use replay_bug.Authz.Policy.{has_capability}
use replay_bug.Authz.Guards.{MembershipView, require_workspace_capability}
use replay_bug.Authz.Access.{find}
use replay_bug.Governance.Store.{
  MembershipRow, ownership_transferred, Db, is_key, in_workspace, with_role, commit,
  update_membership_role, insert_audit_log, lock_memberships_by_workspace,
  list_memberships_by_workspace,
}
use replay_bug.Governance.Service.{
  membership_view, actor_membership_or_throw, target_membership_or_throw, owner_row, exactly_one,
  require_exactly_one_owner, lock_governance_state, update_role_body, remove_body, leave_body,
  swap_owner, transfer_body, update_workspace_member_role, remove_workspace_member, leave_workspace,
  transfer_workspace_ownership, membership_for_user,
}
use replay_bug.Governance.Counting.{owners, Unique, find-filter, owners-update, Unique-map}
use replay_bug.Governance.Checks.{find-key, no_owner}
use replay_bug.Governance.Members.{entry}
use replay_bug.Governance.Writes.{find-update}

-- A workspace that does not exist, or one of which the caller is no member.
abbrev pub Outsider : ℕ → ℕ → Db → Type 0
Outsider a w db =
    (any (λ v. v == w) db.workspaces ≡ false) ⊎ (find (is_key w a) db.memberships ≡ none)

module _ (a w : ℕ) (db : Db) (out : Outsider a w db) where
  refused {ℓ} :
      {A : Type ℓ} (k : List MembershipRow → MembershipView → Result A)
      → (lock_governance_state db w >>= λ ms. actor_membership_or_throw ms a >>= λ v. k ms v)
        ≡ err (not_found "Workspace")
  unfolding lock_governance_state lock_memberships_by_workspace actor_membership_or_throw
      membership_for_user
  refused k = ground (arith, find-filter w a db.memberships)

  -- Every governance operation with valid input answers an outsider, who has no membership in the
  -- workspace or asks for one that does not exist, "Workspace not found" and changes nothing,
  -- whether the workspace exists or not.
  pub governance_hides :
      (t : ℕ) (n : WorkspaceMemberRole)
      → (update_workspace_member_role a w t (some n) db ≡ (db, err (not_found "Workspace")))
        × (remove_workspace_member a w t db ≡ (db, err (not_found "Workspace")))
        × (leave_workspace a w db ≡ (db, err (not_found "Workspace")))
        × (transfer_workspace_ownership a w t db ≡ (db, err (not_found "Workspace")))
  unfolding update_workspace_member_role update_role_body remove_workspace_member remove_body
      leave_workspace leave_body transfer_workspace_ownership transfer_body
  governance_hides t n = (
    ap (commit db) (refused _),
    ap (commit db) (refused _),
    ap (commit db) (refused _),
    ap (commit db) (refused _),
  )

-- Where one owner is counted, the owner that a key finds is what the check finds.
no_owners :
    (w : ℕ) (rows : List MembershipRow)
    → owners w rows ≡ 0
    → filter owner_row (filter (in_workspace w) rows) ≡ []
unfolding owners
no_owners w [] h = refl
no_owners w (m ∷ ms) h = ground (arith, no_owners w ms)

one_owner_found :
    (w u : ℕ) (rows : List MembershipRow) {row : MembershipRow}
    → owners w rows ≡ 1
    → find (is_key w u) rows ≡ some row
    → owner_row row ≡ true
    → filter owner_row (filter (in_workspace w) rows) ≡ row ∷ []
unfolding owners find
one_owner_found w u [] one h o = cc
one_owner_found w u (m ∷ ms) {row} one h o = elim (Bool-cases (is_key w u m)) [
  | inl k ↦ ground (arith, no_owners w ms)
  | inr k ↦
      let later : find (is_key w u) ms ≡ some row = rw k at h in
      elim (Bool-cases (in_workspace w m && owner_row m)) [
        | inl first ↦
            let none_left : owners w ms ≡ 0 = ground arith in
            let not_owner : owner_row row ≡ false =
              no_owner w u ms later (no_owners w ms none_left) in
            cc
        | inr other ↦ let ih = one_owner_found w u ms (ground arith) later o in ground arith
      ]
]

one_owner_checked :
    (w u : ℕ) (rows : List MembershipRow) {row : MembershipRow}
    → owners w rows ≡ 1
    → find (is_key w u) rows ≡ some row
    → owner_row row ≡ true
    → require_exactly_one_owner (filter (in_workspace w) rows) ≡ ok row
unfolding require_exactly_one_owner
one_owner_checked w u rows one h o = ap exactly_one (one_owner_found w u rows one h o)

-- The rows after the two writes of a transfer.
abbrev pub swapped : ℕ → ℕ → ℕ → List MembershipRow → List MembershipRow
swapped w a t rows = map (with_role w t owner) (map (with_role w a admin) rows)

module _ (a w t : ℕ) (db : Db) (only target : MembershipRow) (uq : Unique db.memberships)
    (listed : any (λ v. v == w) db.workspaces ≡ true) (one : owners w db.memberships ≡ 1)
    (found : find (is_key w a) db.memberships ≡ some only) (is_owner : owner_row only ≡ true)
    (at : find (is_key w t) db.memberships ≡ some target)
    (not_owner : owner_row target ≡ false) where
  keys : (only.user_id ≡ a) × (target.user_id ≡ t)
  keys = ((find-key w a db.memberships found).1, (find-key w t db.memberships at).1)

  distinct : (t == a) ≡ false
  distinct = elim (Bool-cases (t == a)) [
    | inr other ↦ other
    | inl same ↦
        let e : t ≡ a = ground arith in
        let both : find (is_key w a) db.memberships ≡ some target =
          subst (λ k. find (is_key w k) db.memberships ≡ some target) e at in
        ground arith
  ]

  abbrev after : List MembershipRow
  after = swapped w a t db.memberships

  promoted : find (is_key w t) after ≡ some (record target { role = owner })
  promoted = ground (
    arith,
    find-update w t owner w t (map (with_role w a admin) db.memberships),
    find-update w a admin w t db.memberships,
    find-key w t db.memberships at,
    distinct,
  )

  demoted :
      find (is_key w a) (map (with_role w a admin) db.memberships)
      ≡ some (record only { role = admin })
  demoted =
      ground (arith, find-update w a admin w a db.memberships, find-key w a db.memberships found)

  after_one : owners w after ≡ 1
  after_one =
      let first = map (with_role w a admin) db.memberships in
      let next : find (is_key w t) first ≡ some (with_role w a admin target) =
        find-update w a admin w t db.memberships ∙ ap (Option.map (with_role w a admin)) at in
      ground (
        arith,
        owners-update w w a admin db.memberships only uq found,
        owners-update w w t owner first (with_role w a admin target)
            (Unique-map w a admin db.memberships uq) next,
        distinct,
        find-key w t db.memberships at,
      )

  -- With the memberships' unique key, the one owner of a workspace can hand it to any other
  -- member: the transfer goes through, and the rows are as before but for the two roles.
  pub transfer_total :
      (db' : Db) × (transfer_body a w t db ≡ ok (db', (a, t)))
      × (db'.memberships ≡ swapped w a t db.memberships)
  unfolding transfer_body lock_governance_state lock_memberships_by_workspace
      list_memberships_by_workspace actor_membership_or_throw target_membership_or_throw
      membership_for_user membership_view require_workspace_capability has_capability swap_owner
      update_membership_role insert_audit_log
  transfer_total = (
    record {
      workspaces = db.workspaces;
      memberships = after;
      audit = db.audit ++ (entry w a (ownership_transferred a t) ∷ []);
    },
    ground (
      arith,
      find-filter w a db.memberships,
      find-filter w t db.memberships,
      keys,
      one_owner_checked w a db.memberships one found is_owner,
      one_owner_checked w t after after_one promoted refl,
      promoted,
      demoted,
    ),
    refl,
  )
