-- ===== src/Issues/Delivery.antt =====
-- The delivery of an event to the processor keeps the tables consistent
-- (apps/worker/src/processors/process-event.ts).
use replay_bug.Common.{
  ℕ, true, false, ◌≡◌, refl, inl, inr, Option, none, some, List, [], any, arith, Option-cases,
}
use replay_bug.Common.Text.{Text}
use replay_bug.Common.Rows.{find}
use replay_bug.Common.RowLaws.{Only-of_distinct}
use replay_bug.Issues.Store.{
  EventRow, Db, new_issue, pending, processed, rejected, EventProcessingState,
  lock_event_for_processing, get_event_for_symbolication,
}
use replay_bug.Issues.Process.{
  SymbolicationResult, IssueDescriptor, candidate, lock_or_create_issue, NormalizableStackFrame,
  Derived, non_issue, issue, payload_error, other_error, ProcessEventOutcome, follow_plan,
  process_state, process_event, occurrence_outcome, committed,
}
use replay_bug.Issues.Tables.{is_event, settle, record_occurrence_lem}
use replay_bug.Issues.Consistent.{has_id, same_event, Consistent}
use replay_bug.Issues.Tallies.{Pending}
use replay_bug.Issues.Occurrence.{after_occurrence-Consistent}
use replay_bug.Issues.Settled.{settled-Consistent}
use replay_bug.Issues.Locked.{Found-existing, Found-new}
use replay_bug.Issues.Branches.{
  lock_event-eq-some, lock_or_create_issue_lem, refuse, mark_event_rejected_lem,
  mark_event_processed_lem,
}

-- What a transaction wrote, if it returned.
abbrev pub Wrote :
    {P : Type 0}
    → (Db P SymbolicationResult → Type 0)
    → Option (Db P SymbolicationResult × ProcessEventOutcome)
    → Type 0
Wrote Q none = Unit
Wrote Q (some (db, outcome)) = Q db

module _ {P : Type 0} (new_id now workspace_id : ℕ) (event : EventRow P SymbolicationResult)
    (symbolication : SymbolicationResult) (db : Db P SymbolicationResult) (c : Consistent db)
    (unused : any (has_id new_id) db.issues ≡ false) (h : Pending db.events event) where
  follow_issue :
      (descriptor : IssueDescriptor)
      → Wrote Consistent (
          occurrence_outcome now event workspace_id symbolication descriptor.fingerprint db
            (lock_or_create_issue [] new_id now (candidate event descriptor) db.issues))
  unfolding new_issue
  follow_issue descriptor =
      let fp = descriptor.fingerprint in
      let row = new_issue new_id now (candidate event descriptor) in
      elim (lock_or_create_issue_lem new_id now (candidate event descriptor) db.issues) [
        | inl (r, there, e) ↦
            rw
              (
                e,
                record_occurrence_lem now event workspace_id symbolication fp
                    (record { row = r; created = false }) db,
              )
              (after_occurrence-Consistent now workspace_id symbolication false h
                (Found-existing event fp c r there))
        | inr (fresh, e) ↦
            rw
              (
                e,
                record_occurrence_lem now event workspace_id symbolication fp
                    (record { row = row; created = true }) _,
              )
              (after_occurrence-Consistent now workspace_id symbolication true h
                (Found-new event fp c row unused fresh refl refl refl refl refl refl refl))
      ]

  follow_plan-Consistent :
      (d : Derived)
      → Wrote Consistent (follow_plan new_id now event workspace_id symbolication d db)
  follow_plan-Consistent non_issue =
      rw (mark_event_processed_lem db event symbolication)
        (settled-Consistent db (settle symbolication none none) (λ x. refl) (λ i. refl) h c)
  follow_plan-Consistent other_error = tt
  follow_plan-Consistent (payload_error code) =
      rw (mark_event_rejected_lem db event symbolication code)
        (settled-Consistent db (refuse db event symbolication code) (λ x. refl) (λ i. refl) h c)
  follow_plan-Consistent (issue descriptor) = follow_issue descriptor

Pending-of_locked :
    {P : Type 0} (db : Db P SymbolicationResult) (event : EventRow P SymbolicationResult)
    → Consistent db
    → find (is_event event.id) db.events ≡ some event
    → event.processing_state ≡ pending
    → Pending db.events event
Pending-of_locked db event c there state = record {
  only =
      Only-of_distinct (is_event event.id) same_event (λ x y a b. ground arith) db.events
        c.event_ids;
  there = there;
  is_pending = state;
}

Consistent-committed :
    {P : Type 0} (db : Db P SymbolicationResult)
    (r : Option (Db P SymbolicationResult × ProcessEventOutcome))
    → Consistent db
    → Wrote Consistent r
    → Consistent (committed db r).0
Consistent-committed db none c w = c
Consistent-committed db (some (db', o)) c w = w

module _ {P : Type 0} (symbolicate : ℕ → Option Text → P → Option SymbolicationResult)
    (derive : ℕ → Text → P → Option (List NormalizableStackFrame) → Derived) where
  state-Consistent :
      (new_id now workspace_id : ℕ) (event : EventRow P SymbolicationResult)
      (symbolication : SymbolicationResult) (db : Db P SymbolicationResult)
      (state : EventProcessingState)
      → Consistent db
      → any (has_id new_id) db.issues ≡ false
      → find (is_event event.id) db.events ≡ some event
      → event.processing_state ≡ state
      → Wrote Consistent
          (process_state symbolicate derive new_id now event workspace_id symbolication state db)
  state-Consistent new_id now workspace_id event symbolication db processed c unused there e = c
  state-Consistent new_id now workspace_id event symbolication db rejected c unused there e = c
  state-Consistent new_id now workspace_id event symbolication db pending c unused there e =
      follow_plan-Consistent new_id now workspace_id event symbolication db c unused
        (Pending-of_locked db event c there e) _

  -- In consistent tables, the delivery of an event leaves them consistent, if the id that a new
  -- issue would get is unused: ids and keys stay unique, each issue has as many occurrences as it
  -- counts, in as many sessions as it counts, and is first and last seen at the first and the last
  -- of them.
  pub process_event-Consistent :
      (new_id now event_id : ℕ) (db : Db P SymbolicationResult)
      → Consistent db
      → any (has_id new_id) db.issues ≡ false
      → Consistent (process_event symbolicate derive new_id now event_id db).0
  unfolding process_event
  process_event-Consistent new_id now event_id db c unused =
      elim (Option-cases (get_event_for_symbolication db event_id)) [
        | inl k ↦ rw k c
        | inr (preloaded, k) ↦
            elim (Option-cases
              (symbolicate preloaded.project_id preloaded.release preloaded.payload_json)) [
                | inl q ↦ rw k (rw q c)
                | inr (symbolication, q) ↦
                    elim (Option-cases (lock_event_for_processing db event_id)) [
                      | inl l ↦ rw k (rw (q, l) c)
                      | inr ((event, workspace_id), l) ↦ rw k (
                          rw (q, l)
                            (Consistent-committed db _ c (
                              state-Consistent new_id now workspace_id event symbolication db
                                event.processing_state c unused
                                (lock_event-eq-some db event_id workspace_id event l).0 refl)))
                    ]
              ]
      ]
