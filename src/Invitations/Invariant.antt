-- ===== src/Invitations/Invariant.antt =====
-- What holds of the tables of invitations whatever is requested
-- (packages/db/src/repositories/invitations.ts, the constraints of packages/db/src/schema.ts).
use replay_bug.Common.{
  ℕ, Bool, true, false, ◌==◌, ◌&&◌, ltb, ◌≡◌, refl, ap, ◌∙◌, inl, inr, is_some, Option, none, some,
  map, All, arith, Bool-cases,
}
use replay_bug.Common.Text.{text_eq}
use replay_bug.Common.Rows.{find, at, Distinct, All-map}
use replay_bug.Common.RowLaws.{Distinct-map, Distinct-map_apart, find-map}
use replay_bug.Governance.Counting.{owners, Unique}
use replay_bug.Invitations.Store.{InvitationRow, InvitationDb, is_open, is_for, is_invitation}

abbrev pub same_id : InvitationRow → InvitationRow → Bool
same_id a b = a.id == b.id

abbrev pub same_hash : InvitationRow → InvitationRow → Bool
same_hash a b = text_eq b.token_hash a.token_hash

-- Two open invitations of one address to one workspace.
abbrev pub both_open : InvitationRow → InvitationRow → Bool
both_open a b = is_open a && is_open b && is_for a.workspace_id a.email b

abbrev pub in_time : Option ℕ → ℕ → Bool
in_time none expires_at = true
in_time (some t) expires_at = ltb t expires_at

-- Not both accepted and revoked, and accepted only before it expired.
abbrev pub Settled : InvitationRow → Type 0
Settled i =
    ((is_some i.accepted_at && is_some i.revoked_at) ≡ false)
    × (in_time i.accepted_at i.expires_at ≡ true)

pub record Inv (db : InvitationDb) : Type 0 where
  pub ids : Distinct same_id db.invitations
  pub hashes : Distinct same_hash db.invitations
  pub pending : Distinct both_open db.invitations
  pub settled : All Settled db.invitations
  pub members : Unique db.memberships

-- An invitation that was accepted or revoked stays as it is.
abbrev pub Final : InvitationDb → InvitationDb → Type 0
Final db db' =
    (id : ℕ) (i : InvitationRow)
    → find (is_invitation id) db.invitations ≡ some i
    → is_open i ≡ false
    → find (is_invitation id) db'.invitations ≡ some i

-- No workspace gets or loses an owner.
abbrev pub SameOwners : InvitationDb → InvitationDb → Type 0
SameOwners db db' = (w : ℕ) → owners w db'.memberships ≡ owners w db.memberships

abbrev pub Advances : InvitationDb → InvitationDb → Type 0
Advances db db' = Inv db → Inv db' × Final db db' × SameOwners db db'

pub Advances-refl : (db : InvitationDb) → Advances db db
Advances-refl db v = (v, λ id i there closed. there, λ w. refl)

pub Advances-trans : (a b c : InvitationDb) → Advances a b → Advances b c → Advances a c
Advances-trans a b c f g v =
    let (v1, f1, o1) = f v in
    let (v2, f2, o2) = g v1 in
    (v2, λ id i there closed. f2 id i (f1 id i there closed) closed, λ w. o2 w ∙ o1 w)

-- An update that closes open invitations.
pub record Closing (p : InvitationRow → Bool) (f : InvitationRow → InvitationRow) : Type 0 where
  pub id : (i : InvitationRow) → (f i).id ≡ i.id
  pub hash : (i : InvitationRow) → (f i).token_hash ≡ i.token_hash
  pub opened : (i : InvitationRow) → p i ≡ true → is_open i ≡ true
  pub closed : (i : InvitationRow) → is_open (f i) ≡ false
  pub settled : (i : InvitationRow) → p i ≡ true → Settled i → Settled (f i)

module _ (p : InvitationRow → Bool) (f : InvitationRow → InvitationRow) (c : Closing p f)
    (db : InvitationDb) where
  id_kept : (i : InvitationRow) → (at p f i).id ≡ i.id
  id_kept i = elim (Bool-cases (p i)) [ inl k ↦ simp k (c.id i) | inr k ↦ simp k refl ]

  hash_kept : (i : InvitationRow) → (at p f i).token_hash ≡ i.token_hash
  hash_kept i = elim (Bool-cases (p i)) [ inl k ↦ simp k (c.hash i) | inr k ↦ simp k refl ]

  both_open_kept :
      (i j : InvitationRow) → both_open i j ≡ false → both_open (at p f i) (at p f j) ≡ false
  both_open_kept i j h = elim (Bool-cases (p i)) [
    | inl k ↦ simp (k, c.closed i) refl
    | inr k ↦ elim (Bool-cases (p j)) [
      | inl l ↦ simp (k, l, c.closed j) (ground arith)
      | inr l ↦ simp (k, l) h
    ]
  ]

  closed_kept : (i : InvitationRow) → is_open i ≡ false → at p f i ≡ i
  closed_kept i h = elim (Bool-cases (p i)) [
    | inl k ↦ absurd (ground (arith, c.opened i k))
    | inr k ↦ rw k refl
  ]

  pub closing-Advances : Advances db (record db { invitations = map (at p f) db.invitations })
  closing-Advances v = (
    record {
      ids =
          Distinct-map same_id (at p f) (λ i j. rw (id_kept i, id_kept j) refl) db.invitations
            v.ids;
      hashes =
          Distinct-map same_hash (at p f) (λ i j. rw (hash_kept i, hash_kept j) refl) db.invitations
            v.hashes;
      pending = Distinct-map_apart both_open (at p f) both_open_kept db.invitations v.pending;
      settled =
          All-map Settled Settled (at p f)
            (λ i s. elim (Bool-cases (p i)) [ inl k ↦ simp k (c.settled i k s) | inr k ↦ simp k s ])
            db.invitations v.settled;
      members = v.members;
    },
    λ id i there closed.
        find-map p f (is_invitation id) (at p f) (λ j. rw (id_kept j) refl) db.invitations
        ∙ rw there (ap some (closed_kept i closed)),
    λ w. refl,
  )
