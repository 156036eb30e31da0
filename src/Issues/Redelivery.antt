-- ===== src/Issues/Redelivery.antt =====
-- A job that is delivered again, whatever happened since
-- (apps/worker/src/processors/process-event.ts).
use replay_bug.Common.{ℕ, Bool, true, false, ◌≡◌, Option, none, some}
use mathlib.Core.Option
use replay_bug.Common.Text.{Text}
use replay_bug.Issues.Store.{EventRow, Db, lock_event_for_processing}
use replay_bug.Issues.Process.{SymbolicationResult, ProcessEventOutcome, event_not_found}
use replay_bug.Issues.Settling.{SettledAs}

-- An outcome of an event that exists.
abbrev pub is_found : ProcessEventOutcome → Bool
is_found event_not_found = false
is_found _ = true

-- A settled event, as the tables have it.
abbrev Stored : {P : Type 0} → ℕ → Db P SymbolicationResult → ProcessEventOutcome → Type 0
Stored {P} event_id db outcome =
    (e : EventRow P SymbolicationResult) × (workspace_id : ℕ) × (lock_event_for_processing db
        event_id
      ≡ some (e, workspace_id))
    × SettledAs e outcome

-- What a transaction answers, where it answers.
abbrev Answered : {P : Type 0} → ℕ → Db P SymbolicationResult × Option ProcessEventOutcome → Type 0
Answered event_id (db, none) = Unit
Answered event_id (db, some outcome) = is_found outcome ≡ true → Stored event_id db outcome
