-- ===== src/Outbox/Claims.antt =====
-- What a claim hands to the dispatcher: rows with different ids, no more than its limit
-- (packages/db/src/repositories/outbox.ts).
use replay_bug.Common.{
  ℕ, zero, suc, Bool, false, ◌≡◌, List, [], ◌∷◌, filter, take, All, arith, Bool-cases, inl, inr,
}
use replay_bug.Outbox.Table.{
  OutboxRow, has_id, precedes, insert_in_order, in_order, claim_pending_outbox_batch,
  claim_stale_outbox_batch,
}

abbrev pub Absent : ℕ → List OutboxRow → Type 0
Absent e rows = All (λ r. has_id e r ≡ false) rows

-- The table's primary key.
abbrev pub Distinct : List OutboxRow → Type 0
Distinct [] = Unit
Distinct (r ∷ rows) = Absent r.event_id rows × Distinct rows

module _ (P : OutboxRow → Type 0) where
  filter-All : (p : OutboxRow → Bool) (rows : List OutboxRow) → All P rows → All P (filter p rows)
  filter-All p [] h = tt
  filter-All p (r ∷ rows) (k, h) = elim (Bool-cases (p r)) [
    | inl e ↦ rw e (k, filter-All p rows h)
    | inr e ↦ rw e (filter-All p rows h)
  ]

  take-All : (n : ℕ) (rows : List OutboxRow) → All P rows → All P (take n rows)
  take-All zero rows h = tt
  take-All (suc n) [] h = tt
  take-All (suc n) (r ∷ rows) (k, h) = (k, take-All n rows h)

  insert_in_order-All :
      (row : OutboxRow) (rows : List OutboxRow)
      → P row
      → All P rows
      → All P (insert_in_order row rows)
  unfolding insert_in_order
  insert_in_order-All row [] p h = (p, tt)
  insert_in_order-All row (r ∷ rows) p (k, h) = elim (Bool-cases (precedes row r)) [
    | inl e ↦ rw e (p, (k, h))
    | inr e ↦ rw e (k, insert_in_order-All row rows p h)
  ]

  in_order-All : (rows : List OutboxRow) → All P rows → All P (in_order rows)
  unfolding in_order
  in_order-All [] h = tt
  in_order-All (r ∷ rows) (k, h) = insert_in_order-All r (in_order rows) k (in_order-All rows h)

filter-Distinct :
    (p : OutboxRow → Bool) (rows : List OutboxRow) → Distinct rows → Distinct (filter p rows)
filter-Distinct p [] h = tt
filter-Distinct p (r ∷ rows) (k, h) = elim (Bool-cases (p r)) [
  | inl e ↦ rw e (filter-All _ p rows k, filter-Distinct p rows h)
  | inr e ↦ rw e (filter-Distinct p rows h)
]

take-Distinct : (n : ℕ) (rows : List OutboxRow) → Distinct rows → Distinct (take n rows)
take-Distinct zero rows h = tt
take-Distinct (suc n) [] h = tt
take-Distinct (suc n) (r ∷ rows) (k, h) = (take-All _ n rows k, take-Distinct n rows h)

has_id-sym : (a b : OutboxRow) → has_id a.event_id b ≡ false → has_id b.event_id a ≡ false
has_id-sym a b h = ground arith

insert_in_order-Distinct :
    (row : OutboxRow) (rows : List OutboxRow)
    → Absent row.event_id rows
    → Distinct rows
    → Distinct (insert_in_order row rows)
unfolding insert_in_order
insert_in_order-Distinct row [] k h = (tt, tt)
insert_in_order-Distinct row (r ∷ rows) (n, k) (m, h) = elim (Bool-cases (precedes row r)) [
  | inl e ↦ rw e ((n, k), (m, h))
  | inr e ↦
      rw e (
        insert_in_order-All _ row rows (has_id-sym row r n) m,
        insert_in_order-Distinct row rows k h,
      )
]

in_order-Distinct : (rows : List OutboxRow) → Distinct rows → Distinct (in_order rows)
unfolding in_order
in_order-Distinct [] h = tt
in_order-Distinct (r ∷ rows) (k, h) =
    insert_in_order-Distinct r (in_order rows) (in_order-All _ rows k) (in_order-Distinct rows h)

pub claim_pending-Distinct :
    (locked : ℕ → Bool) (rows : List OutboxRow) (limit : ℕ)
    → Distinct rows
    → Distinct (claim_pending_outbox_batch locked rows limit)
unfolding claim_pending_outbox_batch
claim_pending-Distinct locked rows limit h =
    take-Distinct limit _ (in_order-Distinct _ (filter-Distinct _ rows h))

pub claim_stale-Distinct :
    (locked : ℕ → Bool) (rows : List OutboxRow) (before limit : ℕ)
    → Distinct rows
    → Distinct (claim_stale_outbox_batch locked rows before limit)
unfolding claim_stale_outbox_batch
claim_stale-Distinct locked rows before limit h =
    take-Distinct limit _ (in_order-Distinct _ (filter-Distinct _ rows h))
