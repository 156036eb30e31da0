-- ===== src/Examples/Outbox.antt =====
-- An outbox of three rows and passes over it
-- (apps/worker/src/dispatcher/publish-batch.ts, outbox-dispatcher.ts).
use replay_bug.Common.{ℕ, zero, suc, false, ◌≡◌, refl, some, none, List, [], ◌∷◌, map, All, arith}
use replay_bug.Common.Text.{codes, skip_spaces}
use replay_bug.Outbox.Table.{OutboxRow, is_pending}
use replay_bug.Outbox.Dispatcher.{
  Answer, published, deduplicated, threw, PublishBatchResult, Outbox, Surroundings,
  dispatch_outbox_batch, tick, collapse_spaces, trim_end, sanitize_outbox_error,
}
use replay_bug.Outbox.Claims.{Distinct}
use replay_bug.Outbox.Settled.{settled}
use replay_bug.Outbox.Runs.{Action, ingest, dispatch, reconcile, run, SoundOutbox, run-Sound}
use replay_bug.Outbox.Outcomes.{
  Reported, claimed_rows, dispatch_outbox_batch_lem, Bounded, tick-Bounded,
}
use replay_bug.Outbox.Drains.{dispatch_outbox_batch_drains}

abbrev row : ℕ → ℕ → OutboxRow
row e t = record {
  event_id = e;
  created_at = t;
  dispatched_at = none;
  attempt_count = 0;
  last_error = none;
}

abbrev three : Outbox
three = record { rows = row 1 30 ∷ row 2 10 ∷ row 3 20 ∷ []; handed = [] }

abbrev three_distinct : Distinct three.rows
three_distinct = ((refl, (refl, tt)), ((refl, tt), (tt, tt)))

-- Event 2 cannot be published, and event 3 is there already.
abbrev mixed : ℕ → Answer
mixed (suc (suc zero)) = threw (codes " connection   lost ")
mixed (suc (suc (suc zero))) = deduplicated
mixed _ = published

abbrev surroundings : Surroundings
surroundings = record {
  now = 100;
  locked = λ e. false;
  answers = mixed;
  breaks_after = none;
  stop_requested = false;
}

abbrev broken : Surroundings
broken = record surroundings { breaks_after = some 1 }

abbrev healthy : Surroundings
healthy = record surroundings { answers = λ e. published }

abbrev actions : List Action
actions =
    ingest 1 30
    ∷ ingest 2 10
    ∷ ingest 1 40
    ∷ dispatch 2 broken
    ∷ dispatch 2 surroundings
    ∷ reconcile 5 20 healthy
    ∷ []

run-Sound_example : SoundOutbox (run (record { rows = []; handed = [] }) actions)
run-Sound_example = run-Sound actions

dispatch_outbox_batch_lem_example :
    (r : PublishBatchResult) × ((dispatch_outbox_batch 2 surroundings three).1 ≡ some r)
    × Reported 2 [] (dispatch_outbox_batch 2 surroundings three).0.handed r
    × ((dispatch_outbox_batch 2 surroundings three).0.rows
        ≡ map
            (settled 100 mixed (claimed_rows 2 surroundings three three_distinct refl))
            three.rows)
dispatch_outbox_batch_lem_example =
    dispatch_outbox_batch_lem 2 surroundings three three_distinct refl

tick-Bounded_example : Bounded 2 10 three (tick 2 (λ k. surroundings) three)
tick-Bounded_example = tick-Bounded 2 (λ k. surroundings) three

dispatch_outbox_batch_drains_example :
    All (λ r. is_pending r ≡ false) (dispatch_outbox_batch 3 healthy three).0.rows
dispatch_outbox_batch_drains_example =
    dispatch_outbox_batch_drains 3 healthy three three_distinct refl (λ e. refl) (λ e. refl)
      (omega arith)

sanitized : sanitize_outbox_error (codes "  connection \n lost ") ≡ codes "connection lost"
unfolding sanitize_outbox_error collapse_spaces skip_spaces trim_end
sanitized = refl
