-- ===== src/Outbox/Dispatcher.antt =====
-- The passes over the outbox (apps/worker/src/dispatcher/publish-batch.ts, outbox-dispatcher.ts,
-- apps/worker/src/reconciliation/outbox-reconciliation.ts).
-- pg-boss is a parameter: what it answers to a publish. What it has taken over stays so, whatever
-- becomes of the transaction, and is the list `handed`.
use replay_bug.Common.{
  ℕ, zero, suc, ◌+◌, Bool, true, false, not, ◌&&◌, ◌==◌, if◌then◌else◌, Option, none, some, List,
  [], ◌∷◌, length, take,
}
use replay_bug.Common.Text.{Text, is_space, skip_spaces}
unfoldable pub use replay_bug.Common.Text.{trim_end}
use replay_bug.Outbox.Table.{
  OutboxRow, claim_pending_outbox_batch, claim_stale_outbox_batch, list_stale_outbox,
  mark_outbox_dispatched, record_outbox_dispatch_failure,
}

-- `replace(/\s+/g, " ")`; the Boolean says whether a run of white space is under way.
unfoldable pub collapse_spaces : Bool → Text → Text
collapse_spaces in_run [] = []
collapse_spaces in_run (c ∷ cs) =
    let inside = collapse_spaces true cs in
    let outside = collapse_spaces false cs in
    if is_space c then (if in_run then inside else b' ' ∷ inside) else c ∷ outside

unfoldable pub sanitize_outbox_error : Text → Text
unfolding collapse_spaces skip_spaces trim_end
sanitize_outbox_error message = take 500 (trim_end (skip_spaces (collapse_spaces false message)))

-- A job id, null for a job that is there already, or what was thrown.
pub data Answer : Type 0 where
  published : Answer
  deduplicated : Answer
  threw : Text → Answer

pub record PublishBatchResult : Type 0 where
  pub claimed : ℕ
  pub dispatched : ℕ
  pub deduplicated : ℕ
  pub failed : ℕ

abbrev pub nothing_claimed : PublishBatchResult
nothing_claimed = record { claimed = 0; dispatched = 0; deduplicated = 0; failed = 0 }

-- The state of the loop.
pub record Progress : Type 0 where
  pub rows : List OutboxRow
  pub handed : List ℕ
  pub dispatched : ℕ
  pub deduplicated : ℕ
  pub failed : ℕ

unfoldable pub publish_answer : ℕ → ℕ → Answer → Progress → Progress
publish_answer now e published p = record p {
  rows = mark_outbox_dispatched now p.rows e;
  handed = e ∷ p.handed;
  dispatched = p.dispatched + 1;
}
publish_answer now e deduplicated p = record p {
  rows = mark_outbox_dispatched now p.rows e;
  handed = e ∷ p.handed;
  dispatched = p.dispatched + 1;
  deduplicated = p.deduplicated + 1;
}
publish_answer now e (threw message) p = record p {
  rows = record_outbox_dispatch_failure p.rows e (sanitize_outbox_error message);
  failed = p.failed + 1;
}

unfoldable pub publish_loop : ℕ → (ℕ → Answer) → List OutboxRow → Progress → Progress
publish_loop now answers [] p = p
publish_loop now answers (item ∷ items) p =
    publish_loop now answers items (publish_answer now item.event_id (answers item.event_id) p)

pub record Outbox : Type 0 where
  pub rows : List OutboxRow
  pub handed : List ℕ

abbrev pub started : Outbox → Progress
started o = record {
  rows = o.rows;
  handed = o.handed;
  dispatched = 0;
  deduplicated = 0;
  failed = 0;
}

-- What a pass meets: the rows that other transactions hold, pg-boss's answers, and whether the
-- database breaks the transaction off, after how many items.
pub record Surroundings : Type 0 where
  pub now : ℕ
  pub locked : ℕ → Bool
  pub answers : ℕ → Answer
  pub breaks_after : Option ℕ
  pub stop_requested : Bool

abbrev pub result_of : List OutboxRow → Progress → PublishBatchResult
result_of items p = record {
  claimed = length items;
  dispatched = p.dispatched;
  deduplicated = p.deduplicated;
  failed = p.failed;
}

-- The transaction of a pass: broken off, it leaves the rows as they were.
unfoldable pub run_transaction :
    Surroundings → List OutboxRow → Option ℕ → Outbox → Outbox × Option PublishBatchResult
unfolding publish_loop
run_transaction env items none o =
    let p = publish_loop env.now env.answers items (started o) in
    (record { rows = p.rows; handed = p.handed }, some (result_of items p))
run_transaction env items (some n) o =
    let p = publish_loop env.now env.answers (take n items) (started o) in
    (record { rows = o.rows; handed = p.handed }, none)

unfoldable pub dispatch_outbox_batch :
    ℕ → Surroundings → Outbox → Outbox × Option PublishBatchResult
unfolding run_transaction claim_pending_outbox_batch
dispatch_outbox_batch batch_size env o =
    run_transaction env (claim_pending_outbox_batch env.locked o.rows batch_size) env.breaks_after o

abbrev pub max_drain_iterations : ℕ
max_drain_iterations = 10

-- Whether the loop of a tick goes on: a pass that threw ends it.
abbrev pub goes_on : ℕ → Surroundings → Option PublishBatchResult → Bool
goes_on batch_size env none = false
goes_on batch_size env (some r) = not env.stop_requested && (r.claimed == batch_size)

-- The loop, with `left` passes to go; `envs` has what each pass meets, from `k` on. The number
-- counts the passes.
unfoldable pub drain : ℕ → (ℕ → Surroundings) → ℕ → ℕ → Outbox → Outbox × ℕ
drain batch_size envs zero k o = (o, 0)
drain batch_size envs (suc left) k o =
    let (o', r) = dispatch_outbox_batch batch_size (envs k) o in
    let (o'', n) = drain batch_size envs left (suc k) o' in
    if goes_on batch_size (envs k) r then (o'', suc n) else (o', 1)

unfoldable pub tick : ℕ → (ℕ → Surroundings) → Outbox → Outbox × ℕ
unfolding drain
tick batch_size envs o = drain batch_size envs max_drain_iterations 0 o

abbrev pub counted {ℓ} :
    {A : Type ℓ} → ℕ → A × Option PublishBatchResult → A × Option (PublishBatchResult × ℕ)
counted stale (o, none) = (o, none)
counted stale (o, some result) = (o, some (result, stale))

unfoldable pub reconcile_listed :
    ℕ → ℕ → Surroundings → Outbox → List OutboxRow → Outbox × Option (PublishBatchResult × ℕ)
unfolding run_transaction claim_stale_outbox_batch
reconcile_listed batch_size stale_before env o [] = (o, some (nothing_claimed, 0))
reconcile_listed batch_size stale_before env o (row ∷ rows) =
    let items = claim_stale_outbox_batch env.locked o.rows stale_before batch_size in
    counted (suc (length rows)) (run_transaction env items env.breaks_after o)

-- `reconcileOutbox`; the result is that of its transaction and the number of stale rows.
unfoldable pub reconcile_outbox :
    ℕ → ℕ → Surroundings → Outbox → Outbox × Option (PublishBatchResult × ℕ)
unfolding reconcile_listed list_stale_outbox
reconcile_outbox batch_size stale_before env o =
    reconcile_listed batch_size stale_before env o
      (list_stale_outbox o.rows stale_before batch_size)
