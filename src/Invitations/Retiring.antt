-- ===== src/Invitations/Retiring.antt =====
-- What retiring the expired invitations leaves (packages/db/src/repositories/invitations.ts).
use replay_bug.Common.{
  ℕ, Bool, true, ◌≡◌, refl, ap, ◌⊎◌, ◌∙◌, subst, inl, inr, some, arith, Bool-cases, List, [], ◌∷◌,
  map,
}
use mathlib.Core.Option
use replay_bug.Common.Rows.{find, at}
use replay_bug.Errors.{ok, through}
use replay_bug.Invitations.Store.{
  InvitationRow, InvitationDb, is_invitation, is_expired, to_retire, revoked_row, retire_each,
  retire_expired_pending_invitations, lock_expired_pending_invitations,
  ExpiredInvitationCleanupOptions,
}
use replay_bug.Common.RowLaws.{find-map}

-- The invitation as before, or retired if it was open and had expired.
abbrev pub OrRetired : ℕ → ℕ → List InvitationRow → InvitationRow → Type 0
OrRetired now id rows i =
    (find (is_invitation id) rows ≡ some i)
    ⊎ ((is_expired now i ≡ true)
        × (find (is_invitation id) rows ≡ some (record i { revoked_at = some now })))

retire_each-others :
    (now : ℕ) (cs rows : List InvitationRow) (id : ℕ) (i : InvitationRow)
    → find (is_invitation id) rows ≡ some i
    → OrRetired now id (retire_each now cs rows).0 i
unfolding retire_each
retire_each-others now [] rows id i h = inl h
retire_each-others now (c ∷ cs) rows id i h =
    let f = at (to_retire now c) (revoked_row now) in
    let next : find (is_invitation id) (map f rows) ≡ some (f i) =
      find-map (to_retire now c) (revoked_row now) (is_invitation id) f
        (λ x. elim (Bool-cases (to_retire now c x)) [ inl k ↦ simp k refl | inr k ↦ simp k refl ])
        rows
      ∙ ap (λ o. Option.map f o) h in
    let rest = retire_each-others now cs (map f rows) id (f i) next in
    elim (Bool-cases (to_retire now c i)) [
      | inr k ↦ rw k at rest
      | inl k ↦
          let rest' : OrRetired now id (retire_each now cs (map f rows)).0 (revoked_row now i) =
            rw k at rest in
          elim rest' [
            | inl there ↦ inr (ground arith, there)
            | inr (still, there) ↦ absurd (ground arith)
          ]
    ]

pub retired_rest :
    (locked : ℕ → Bool) (options : ExpiredInvitationCleanupOptions) (db db1 : InvitationDb)
    (retired : List InvitationRow)
    → retire_expired_pending_invitations locked options db ≡ ok (db1, retired)
    → (db1.memberships ≡ db.memberships)
      × (db1.audit ≡ db.audit)
      × ((id : ℕ) (i : InvitationRow)
          → find (is_invitation id) db.invitations ≡ some i
          → OrRetired options.now id db1.invitations i)
unfolding retire_expired_pending_invitations
retired_rest locked options db db1 retired h =
    through (lock_expired_pending_invitations locked options db) _ h λ cs e1 h1.
      let same : (retire_each options.now cs db.invitations).0 ≡ db1.invitations = ground arith in
      (
        ground arith,
        ground arith,
        λ id i there.
            subst (λ rows. OrRetired options.now id rows i) same
              (retire_each-others options.now cs db.invitations id i there),
      )
