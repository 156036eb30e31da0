-- ===== src/Outbox/Drains.antt =====
-- That the outbox empties when nothing stands in the way
-- (apps/worker/src/dispatcher/outbox-dispatcher.ts, packages/db/src/repositories/outbox.ts).
use replay_bug.Common.{
  ℕ, zero, suc, ◌≤◌, Bool, true, false, not, ◌&&◌, ◌==◌, ◌≡◌, refl, sym, ap, ◌∙◌, subst, none, List,
  [], ◌∷◌, filter, take, length, All, In, arith, Bool-cases, inl, inr, ==_refl,
}
use replay_bug.Outbox.Table.{
  OutboxRow, is_pending, insert_in_order, in_order, claim_pending_outbox_batch,
}
use replay_bug.Outbox.Dispatcher.{
  Answer, published, deduplicated, threw, Outbox, Surroundings, dispatch_outbox_batch,
}
use replay_bug.Outbox.Claims.{Distinct}
use replay_bug.Outbox.Settled.{answered, is_claimed, settled}
use replay_bug.Outbox.Passes.{map-All}
use replay_bug.Outbox.Outcomes.{dispatch_outbox_batch_lem}

length-insert_in_order :
    (row : OutboxRow) (rows : List OutboxRow)
    → length (insert_in_order row rows) ≡ suc (length rows)
unfolding insert_in_order
length-insert_in_order row [] = refl
length-insert_in_order row (r ∷ rows) = ground (arith, length-insert_in_order row rows)

length-in_order : (rows : List OutboxRow) → length (in_order rows) ≡ length rows
unfolding in_order
length-in_order [] = refl
length-in_order (r ∷ rows) =
    length-insert_in_order r (in_order rows) ∙ ap suc (length-in_order rows)

is_claimed-insert_in_order :
    (row : OutboxRow) (rows : List OutboxRow) (e : ℕ)
    → is_claimed (insert_in_order row rows) e ≡ is_claimed (row ∷ rows) e
unfolding insert_in_order
is_claimed-insert_in_order row [] e = refl
is_claimed-insert_in_order row (r ∷ rows) e = ground (arith, is_claimed-insert_in_order row rows e)

is_claimed-in_order :
    (rows : List OutboxRow) (e : ℕ) → is_claimed (in_order rows) e ≡ is_claimed rows e
unfolding in_order
is_claimed-in_order [] e = refl
is_claimed-in_order (r ∷ rows) e =
    ground (arith, is_claimed-insert_in_order r (in_order rows) e, is_claimed-in_order rows e)

take-all : (n : ℕ) (rows : List OutboxRow) → length rows ≤ n → take n rows ≡ rows
take-all zero [] h = refl
take-all zero (r ∷ rows) h = absurd (omega (arith, h))
take-all (suc n) [] h = refl
take-all (suc n) (r ∷ rows) h = ap (λ rs. r ∷ rs) (take-all n rows (omega arith))

length-filter-and :
    (p q : OutboxRow → Bool) (rows : List OutboxRow)
    → length (filter (λ r. p r && q r) rows) ≤ length (filter p rows)
length-filter-and p q [] = omega arith
length-filter-and p q (r ∷ rows) = ground (arith, length-filter-and p q rows)

is_claimed-filter :
    (p : OutboxRow → Bool) (rows : List OutboxRow) (r : OutboxRow)
    → In r rows
    → p r ≡ true
    → is_claimed (filter p rows) r.event_id ≡ true
is_claimed-filter p [] r i h = elim i [ ]
is_claimed-filter p (t ∷ rows) r (inl e) h =
    let k : p t ≡ true = ap p (sym e) ∙ h in
    let own : (r.event_id == t.event_id) ≡ true =
      ap (λ x. r.event_id == x.event_id) (sym e) ∙ ==_refl r.event_id in
    rw k (ground (arith, own))
is_claimed-filter p (t ∷ rows) r (inr i) h = elim (Bool-cases (p t)) [
  | inl k ↦ rw k (ground (arith, is_claimed-filter p rows r i h))
  | inr k ↦ rw k (is_claimed-filter p rows r i h)
]

All-In :
    {P : OutboxRow → Type 0} (rows : List OutboxRow)
    → ((r : OutboxRow) → In r rows → P r)
    → All P rows
All-In [] f = tt
All-In (r ∷ rows) f = (f r (inl refl), All-In rows (λ t i. f t (inr i)))

-- An answer by which the event was taken over.
abbrev pub is_taken : Answer → Bool
is_taken published = true
is_taken deduplicated = true
is_taken (threw _) = false

answered-taken :
    (now : ℕ) (a : Answer) (r : OutboxRow)
    → is_taken a ≡ true
    → is_pending (answered now a r) ≡ false
unfolding answered
answered-taken now published r h = refl
answered-taken now deduplicated r h = refl
answered-taken now (threw m) r h = cc

module _ (limit : ℕ) (env : Surroundings) (o : Outbox) (distinct : Distinct o.rows)
    (commits : env.breaks_after ≡ none) (unlocked : (e : ℕ) → env.locked e ≡ false)
    (taken : (e : ℕ) → is_taken (env.answers e) ≡ true)
    (fits : length (filter is_pending o.rows) ≤ limit) where
  pending_claimed :
      (r : OutboxRow)
      → In r o.rows
      → is_pending r ≡ true
      → is_claimed (claim_pending_outbox_batch env.locked o.rows limit) r.event_id ≡ true
  unfolding claim_pending_outbox_batch
  pending_claimed r i h =
      let free = filter (λ t. is_pending t && not (env.locked t.event_id)) o.rows in
      let short : length (in_order free) ≤ limit = omega (
        arith,
        length-in_order free,
        length-filter-and is_pending (λ t. not (env.locked t.event_id)) o.rows,
        fits,
      ) in
      let open_ : (is_pending r && not (env.locked r.event_id)) ≡ true =
        ground (arith, h, unlocked r.event_id) in
      ap (λ rs. is_claimed rs r.event_id) (take-all limit (in_order free) short)
      ∙ is_claimed-in_order free r.event_id
      ∙ is_claimed-filter (λ t. is_pending t && not (env.locked t.event_id)) o.rows r i open_

  settled_not_pending :
      (r : OutboxRow)
      → In r o.rows
      → is_pending
          (settled env.now env.answers (claim_pending_outbox_batch env.locked o.rows limit) r)
        ≡ false
  unfolding settled
  settled_not_pending r i =
      let items = claim_pending_outbox_batch env.locked o.rows limit in
      elim (Bool-cases (is_claimed items r.event_id)) [
        | inl c ↦ rw c (answered-taken env.now (env.answers r.event_id) r (taken r.event_id))
        | inr n ↦ elim (Bool-cases (is_pending r)) [
          | inl p ↦ absurd (cc (pending_claimed r i p, n))
          | inr d ↦ rw n d
        ]
      ]

  -- With a table of unique ids, a pass that meets no locks, is answered every publish by pg-boss
  -- and commits leaves no row pending if its batch is as large as the number of pending rows.
  pub dispatch_outbox_batch_drains :
      All (λ r. is_pending r ≡ false) (dispatch_outbox_batch limit env o).0.rows
  dispatch_outbox_batch_drains =
      let items = claim_pending_outbox_batch env.locked o.rows limit in
      let settle = settled env.now env.answers items in
      subst (All (λ r. is_pending r ≡ false))
        (sym (dispatch_outbox_batch_lem limit env o distinct commits).3)
        (map-All (λ r. is_pending (settle r) ≡ false) (λ r. is_pending r ≡ false) settle (λ r k. k)
          o.rows (All-In o.rows settled_not_pending))
