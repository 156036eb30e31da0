-- ===== src/Outbox/Outcomes.antt =====
-- What a pass and a tick of the dispatcher come to
-- (apps/worker/src/dispatcher/publish-batch.ts, outbox-dispatcher.ts).
use replay_bug.Common.{
  ℕ, zero, suc, ◌+◌, ◌*◌, ◌≤◌, Bool, not, ◌&&◌, ◌≡◌, refl, sym, ap, ◌∙◌, subst, Option, none, some,
  List, [], ◌∷◌, map, length, take, filter, length-take, arith, Bool-cases, inl, inr,
}
use replay_bug.Outbox.Table.{OutboxRow, is_pending, claim_pending_outbox_batch, in_order}
use replay_bug.Outbox.Dispatcher.{
  Answer, published, deduplicated, threw, PublishBatchResult, Progress, publish_answer,
  publish_loop, Outbox, started, Surroundings, result_of, run_transaction, dispatch_outbox_batch,
  drain, tick, goes_on, max_drain_iterations,
}
use replay_bug.Outbox.Claims.{Distinct, claim_pending-Distinct}
use replay_bug.Outbox.Settled.{settled, publish_loop-settled}

-- The counts of the loop, from those that it started with.
pub record Counted (items : List OutboxRow) (p p' : Progress) : Type 0 where
  pub every : p'.dispatched + p'.failed ≡ p.dispatched + p.failed + length items
  pub duplicates : p'.deduplicated + p.dispatched ≤ p.deduplicated + p'.dispatched
  pub handed : length p'.handed + p.dispatched ≡ length p.handed + p'.dispatched

publish_answer-Counted :
    (now e : ℕ) (a : Answer) (p : Progress) (item : OutboxRow)
    → Counted (item ∷ []) p (publish_answer now e a p)
unfolding publish_answer
publish_answer-Counted now e published p item = record {
  every = omega arith;
  duplicates = omega arith;
  handed = omega arith;
}
publish_answer-Counted now e deduplicated p item = record {
  every = omega arith;
  duplicates = omega arith;
  handed = omega arith;
}
publish_answer-Counted now e (threw m) p item = record {
  every = omega arith;
  duplicates = omega arith;
  handed = omega arith;
}

publish_loop-Counted :
    (now : ℕ) (answers : ℕ → Answer) (items : List OutboxRow) (p : Progress)
    → Counted items p (publish_loop now answers items p)
unfolding publish_loop
publish_loop-Counted now answers [] p = record {
  every = omega arith;
  duplicates = omega arith;
  handed = refl;
}
publish_loop-Counted now answers (item ∷ items) p =
    let e = item.event_id in
    let first = publish_answer-Counted now e (answers e) p item in
    let rest = publish_loop-Counted now answers items (publish_answer now e (answers e) p) in
    record {
      every = omega (arith, first.every, rest.every);
      duplicates = omega (arith, first.duplicates, rest.duplicates);
      handed = omega (arith, first.handed, rest.handed);
    }

-- What a pass that is not broken off answers.
pub record Reported (limit : ℕ) (handed handed' : List ℕ) (r : PublishBatchResult) : Type 0 where
  pub within : r.claimed ≤ limit
  pub every : r.dispatched + r.failed ≡ r.claimed
  pub duplicates : r.deduplicated ≤ r.dispatched
  pub taken_over : length handed' ≡ r.dispatched + length handed

length-claim :
    (locked : ℕ → Bool) (rows : List OutboxRow) (limit : ℕ)
    → length (claim_pending_outbox_batch locked rows limit) ≤ limit
unfolding claim_pending_outbox_batch
length-claim locked rows limit =
    let sorted = in_order (filter (λ r. is_pending r && not (locked r.event_id)) rows) in
    omega (arith, length-take limit sorted)

module _ (limit : ℕ) (env : Surroundings) (o : Outbox) (distinct : Distinct o.rows)
    (commits : env.breaks_after ≡ none) where
  abbrev pub claimed_rows : List OutboxRow
  claimed_rows = claim_pending_outbox_batch env.locked o.rows limit

  pass : dispatch_outbox_batch limit env o ≡ run_transaction env claimed_rows none o
  unfolding dispatch_outbox_batch
  pass = ap (λ b. run_transaction env claimed_rows b o) commits

  -- A pass over a table with unique ids whose transaction commits settles each row on its own: the
  -- claimed ones, at most `limit`, by pg-boss's answers, and no others. Its result counts them:
  -- those dispatched and those failed are all that were claimed, the duplicates are among the
  -- dispatched, and as many events as were dispatched were taken over.
  pub dispatch_outbox_batch_lem :
      (r : PublishBatchResult) × ((dispatch_outbox_batch limit env o).1 ≡ some r)
      × Reported limit o.handed (dispatch_outbox_batch limit env o).0.handed r
      × ((dispatch_outbox_batch limit env o).0.rows
          ≡ map (settled env.now env.answers claimed_rows) o.rows)
  unfolding run_transaction
  dispatch_outbox_batch_lem =
      let p = publish_loop env.now env.answers claimed_rows (started o) in
      let c = publish_loop-Counted env.now env.answers claimed_rows (started o) in
      let few = length-claim env.locked o.rows limit in
      (
        result_of claimed_rows p,
        ap (λ t. t.1) pass,
        subst (λ h. Reported limit o.handed h (result_of claimed_rows p))
            (sym (ap (λ t. t.0.handed) pass))
            (record {
              within = few;
              every = omega (arith, c.every);
              duplicates = omega (arith, c.duplicates);
              taken_over = omega (arith, c.handed);
            }),
        ap (λ t. t.0.rows) pass
            ∙ publish_loop-settled env.now env.answers claimed_rows (started o)
                (claim_pending-Distinct env.locked o.rows limit distinct),
      )

run_transaction-handed :
    (env : Surroundings) (items : List OutboxRow) (breaks : Option ℕ) (o : Outbox)
    → length (run_transaction env items breaks o).0.handed ≤ length o.handed + length items
unfolding run_transaction
run_transaction-handed env items none o =
    let c = publish_loop-Counted env.now env.answers items (started o) in
    omega (arith, c.every, c.handed)
run_transaction-handed env items (some n) o =
    let c = publish_loop-Counted env.now env.answers (take n items) (started o) in
    omega (arith, c.every, c.handed, length-take n items)

pass-handed :
    (limit : ℕ) (env : Surroundings) (o : Outbox)
    → length (dispatch_outbox_batch limit env o).0.handed ≤ length o.handed + limit
unfolding dispatch_outbox_batch
pass-handed limit env o =
    let items = claim_pending_outbox_batch env.locked o.rows limit in
    let grown = run_transaction-handed env items env.breaks_after o in
    let few = length-claim env.locked o.rows limit in omega (arith, grown, few)

-- A run of the loop with `left` passes to go.
abbrev pub Bounded : ℕ → ℕ → Outbox → Outbox × ℕ → Type 0
Bounded limit left o r = (r.1 ≤ left) × (length r.0.handed ≤ length o.handed + r.1 * limit)

drain-Bounded :
    (limit : ℕ) (envs : ℕ → Surroundings) (left k : ℕ) (o : Outbox)
    → Bounded limit left o (drain limit envs left k o)
unfolding drain
drain-Bounded limit envs zero k o = (omega arith, omega arith)
drain-Bounded limit envs (suc left) k o =
    let r = dispatch_outbox_batch limit (envs k) o in
    let first = pass-handed limit (envs k) o in
    let rest = drain-Bounded limit envs left (suc k) r.0 in
    elim (Bool-cases (goes_on limit (envs k) r.1)) [
      | inl on ↦ rw on (omega (arith, rest.0), omega (arith, first, rest.1))
      | inr off ↦ rw off (omega arith, omega (arith, first))
    ]

-- A tick runs at most `max_drain_iterations` passes, however many rows are pending, and hands over
-- at most a batch for each.
pub tick-Bounded :
    (limit : ℕ) (envs : ℕ → Surroundings) (o : Outbox)
    → Bounded limit max_drain_iterations o (tick limit envs o)
unfolding tick
tick-Bounded limit envs o = drain-Bounded limit envs max_drain_iterations 0 o
