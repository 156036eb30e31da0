-- ===== src/Outbox/Settled.antt =====
-- The loop of a pass against what it does to each row on its own
-- (apps/worker/src/dispatcher/publish-batch.ts).
use replay_bug.Common.{
  ℕ, Bool, false, ◌==◌, if◌then◌else◌, ◌≡◌, refl, sym, ap, ◌∙◌, List, [], ◌∷◌, map, any, arith,
  Bool-cases, inl, inr,
}
use replay_bug.Outbox.Table.{
  OutboxRow, has_id, dispatched, failed, mark_outbox_dispatched, record_outbox_dispatch_failure,
}
use replay_bug.Outbox.Dispatcher.{
  Answer, published, deduplicated, threw, Progress, publish_answer, publish_loop,
  sanitize_outbox_error,
}
use replay_bug.Outbox.Claims.{Absent, Distinct}

-- What an answer makes of the row that was published.
unfoldable pub answered : ℕ → Answer → OutboxRow → OutboxRow
answered now published row = dispatched now row
answered now deduplicated row = dispatched now row
answered now (threw message) row = failed (sanitize_outbox_error message) row

abbrev pub is_claimed : List OutboxRow → ℕ → Bool
is_claimed items e = any (λ item. e == item.event_id) items

-- What a pass makes of a row: an answered one if the row was claimed, and the same row if not.
unfoldable pub settled : ℕ → (ℕ → Answer) → List OutboxRow → OutboxRow → OutboxRow
unfolding answered
settled now answers items row =
    if is_claimed items row.event_id then answered now (answers row.event_id) row else row

answered-id :
    (now : ℕ) (a : Answer) (row : OutboxRow) → (answered now a row).event_id ≡ row.event_id
unfolding answered
answered-id now published row = refl
answered-id now deduplicated row = refl
answered-id now (threw m) row = refl

publish_answer-rows :
    (now e : ℕ) (a : Answer) (p : Progress)
    → (publish_answer now e a p).rows
      ≡ map (λ row. if has_id e row then answered now a row else row) p.rows
unfolding publish_answer answered mark_outbox_dispatched record_outbox_dispatch_failure
publish_answer-rows now e published p = refl
publish_answer-rows now e deduplicated p = refl
publish_answer-rows now e (threw m) p = refl

map-map-eq :
    {A : Type 0} (f g h : A → A)
    → ((a : A) → g (f a) ≡ h a)
    → (xs : List A) → map g (map f xs) ≡ map h xs
map-map-eq f g h e [] = refl
map-map-eq f g h e (x ∷ xs) = cc (e x, map-map-eq f g h e xs)

map-eq-id : {A : Type 0} (f : A → A) → ((a : A) → f a ≡ a) → (xs : List A) → xs ≡ map f xs
map-eq-id f e [] = refl
map-eq-id f e (x ∷ xs) = cc (e x, map-eq-id f e xs)

is_claimed-Absent : (items : List OutboxRow) (e : ℕ) → Absent e items → is_claimed items e ≡ false
is_claimed-Absent [] e h = refl
is_claimed-Absent (i ∷ items) e (n, h) = ground (arith, is_claimed-Absent items e h)

module _ (now : ℕ) (answers : ℕ → Answer) where
  settled_unclaimed :
      (items : List OutboxRow) (row : OutboxRow)
      → is_claimed items row.event_id ≡ false
      → settled now answers items row ≡ row
  unfolding settled
  settled_unclaimed items row h = rw h refl

  settled_here :
      (item : OutboxRow) (items : List OutboxRow) (row : OutboxRow)
      → row.event_id ≡ item.event_id
      → settled now answers (item ∷ items) row ≡ answered now (answers item.event_id) row
  unfolding settled
  settled_here item items row e = ground (arith, e)

  settled_later :
      (item : OutboxRow) (items : List OutboxRow) (row : OutboxRow)
      → has_id item.event_id row ≡ false
      → settled now answers (item ∷ items) row ≡ settled now answers items row
  unfolding settled
  settled_later item items row h = ground (arith, h)

  abbrev one : OutboxRow → OutboxRow → OutboxRow
  one item row = if has_id item.event_id row then answered now (answers item.event_id) row else row

  settled_step :
      (item : OutboxRow) (items : List OutboxRow) (row : OutboxRow)
      → Absent item.event_id items
      → settled now answers items (one item row) ≡ settled now answers (item ∷ items) row
  settled_step item items row h = elim (Bool-cases (has_id item.event_id row)) [
    | inl e ↦
        let a = answers item.event_id in
        let same : row.event_id ≡ item.event_id = ground (arith, e) in
        let out : is_claimed items (answered now a row).event_id ≡ false =
          ap (is_claimed items) (answered-id now a row ∙ same) ∙ is_claimed-Absent items _ h in
        rw e (
          settled_unclaimed items (answered now a row) out ∙ sym (settled_here item items row same))
    | inr e ↦ rw e (sym (settled_later item items row e))
  ]

  -- A pass over claimed rows with different ids settles each row of the table on its own: a row
  -- that was claimed gets what pg-boss answered to its publish, once, and any other row stays.
  pub publish_loop-settled :
      (items : List OutboxRow) (p : Progress)
      → Distinct items
      → (publish_loop now answers items p).rows ≡ map (settled now answers items) p.rows
  unfolding publish_loop
  publish_loop-settled [] p d =
      map-eq-id (settled now answers []) (λ row. settled_unclaimed [] row refl) p.rows
  publish_loop-settled (item ∷ items) p (k, d) =
      publish_loop-settled items _ d
      ∙ ap (map (settled now answers items)) (publish_answer-rows now item.event_id _ p)
      ∙ map-map-eq (one item) (settled now answers items) (settled now answers (item ∷ items))
          (λ row. settled_step item items row k) p.rows
