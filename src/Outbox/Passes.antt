-- ===== src/Outbox/Passes.antt =====
-- Any sequence of inserts and passes, whatever pg-boss answers and wherever a transaction is broken
-- off (packages/db/src/repositories/outbox.ts, apps/worker/src/dispatcher/publish-batch.ts,
-- outbox-dispatcher.ts, apps/worker/src/reconciliation/outbox-reconciliation.ts).
use replay_bug.Common.{
  ℕ, ◌≤◌, Bool, true, false, ◌||◌, leb, ◌==◌, if◌then◌else◌, ◌≡◌, sym, ap, ◌∙◌, subst, Option, none,
  some, List, [], ◌∷◌, map, length, take, All, any, length-take, le→leb, arith,
}
use replay_bug.Common.Text.{Text, skip_spaces}
use replay_bug.Outbox.Table.{
  OutboxRow, has_id, is_pending, dispatched, failed, mark_outbox_dispatched,
  record_outbox_dispatch_failure,
}
use replay_bug.Outbox.Dispatcher.{
  collapse_spaces, trim_end, sanitize_outbox_error, Answer, published, deduplicated, threw,
  Progress, publish_answer, publish_loop,
}
use replay_bug.Outbox.Claims.{Absent, Distinct}

abbrev pub is_handed : List ℕ → ℕ → Bool
is_handed handed e = any (λ h. e == h) handed

-- A row that is marked dispatched was handed over.
abbrev pub is_backed : List ℕ → OutboxRow → Bool
is_backed handed row = is_pending row || is_handed handed row.event_id

abbrev pub is_short : Option Text → Bool
is_short none = true
is_short (some message) = leb (length message) 500

-- Distinct keys, rows that are dispatched only if they were handed over, and short messages.
pub record Sound (rows : List OutboxRow) (handed : List ℕ) : Type 0 where
  pub distinct : Distinct rows
  pub backed : All (λ r. is_backed handed r ≡ true) rows
  pub short : All (λ r. is_short r.last_error ≡ true) rows

module _ {A : Type 0} (P Q : A → Type 0) (f : A → A) (step : (a : A) → P a → Q (f a)) where
  pub map-All : (xs : List A) → All P xs → All Q (map f xs)
  map-All [] h = tt
  map-All (x ∷ xs) (k, h) = (step x k, map-All xs h)

module _ (f : OutboxRow → OutboxRow) (same : (r : OutboxRow) → (f r).event_id ≡ r.event_id) where
  map-Absent : (e : ℕ) (rows : List OutboxRow) → Absent e rows → Absent e (map f rows)
  map-Absent e rows h =
      map-All (λ r. has_id e r ≡ false) (λ r. has_id e r ≡ false) f
        (λ r k. ap (λ n. n == e) (same r) ∙ k) rows h

  map-Distinct : (rows : List OutboxRow) → Distinct rows → Distinct (map f rows)
  map-Distinct [] h = tt
  map-Distinct (r ∷ rows) (k, h) = (
    subst (λ n. Absent n (map f rows)) (sym (same r)) (map-Absent r.event_id rows k),
    map-Distinct rows h,
  )

sanitize-short : (message : Text) → is_short (some (sanitize_outbox_error message)) ≡ true
unfolding sanitize_outbox_error
sanitize-short message =
    let text = trim_end (skip_spaces (collapse_spaces false message)) in
    let short : length (take 500 text) ≤ 500 = omega (arith, length-take 500 text) in
    le→leb _ _ short

abbrev SoundProgress : Progress → Type 0
SoundProgress p = Sound p.rows p.handed

marked-Sound :
    (now e : ℕ) (rows : List OutboxRow) (handed : List ℕ)
    → Sound rows handed
    → Sound (mark_outbox_dispatched now rows e) (e ∷ handed)
unfolding mark_outbox_dispatched
marked-Sound now e rows handed s =
    let mark = λ (row : OutboxRow). if has_id e row then dispatched now row else row in
    record {
      distinct = map-Distinct mark (λ r. ground arith) rows s.distinct;
      backed =
          map-All (λ r. is_backed handed r ≡ true) (λ r. is_backed (e ∷ handed) r ≡ true) mark
            (λ r k. ground arith) rows s.backed;
      short =
          map-All (λ r. is_short r.last_error ≡ true) (λ r. is_short r.last_error ≡ true) mark
            (λ r k. ground arith) rows s.short;
    }

recorded-Sound :
    (e : ℕ) (message : Text) (rows : List OutboxRow) (handed : List ℕ)
    → Sound rows handed
    → Sound (record_outbox_dispatch_failure rows e (sanitize_outbox_error message)) handed
unfolding record_outbox_dispatch_failure
recorded-Sound e message rows handed s =
    let text = sanitize_outbox_error message in
    let fail = λ (row : OutboxRow). if has_id e row then failed text row else row in
    let ok = sanitize-short message in
    record {
      distinct = map-Distinct fail (λ r. ground arith) rows s.distinct;
      backed =
          map-All (λ r. is_backed handed r ≡ true) (λ r. is_backed handed r ≡ true) fail
            (λ r k. ground arith) rows s.backed;
      short =
          map-All (λ r. is_short r.last_error ≡ true) (λ r. is_short r.last_error ≡ true) fail
            (λ r k. ground (arith, ok)) rows s.short;
    }

publish_answer-Sound :
    (now e : ℕ) (a : Answer) (p : Progress)
    → SoundProgress p
    → SoundProgress (publish_answer now e a p)
unfolding publish_answer
publish_answer-Sound now e published p s = marked-Sound now e p.rows p.handed s
publish_answer-Sound now e deduplicated p s = marked-Sound now e p.rows p.handed s
publish_answer-Sound now e (threw message) p s = recorded-Sound e message p.rows p.handed s

pub publish_loop-Sound :
    (now : ℕ) (answers : ℕ → Answer) (items : List OutboxRow) (p : Progress)
    → SoundProgress p
    → SoundProgress (publish_loop now answers items p)
unfolding publish_loop
publish_loop-Sound now answers [] p s = s
publish_loop-Sound now answers (item ∷ items) p s =
    publish_loop-Sound now answers items _
      (publish_answer-Sound now item.event_id (answers item.event_id) p s)
