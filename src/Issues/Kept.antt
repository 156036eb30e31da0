-- ===== src/Issues/Kept.antt =====
-- A settled event stays as it is (apps/worker/src/processors/process-event.ts,
-- packages/db/src/repositories/event-processing.ts).
use replay_bug.Common.{
  ℕ, ◌==◌, ◌≡◌, refl, ap, ◌∙◌, sym, subst, inl, inr, Option, none, some, List, arith, Bool-cases,
  Option-cases, any, ==_iff,
}
use replay_bug.Common.Text.{Text}
use replay_bug.Common.Rows.{find}
use replay_bug.Common.RowLaws.{find-append_keep, find-at_other}
use replay_bug.Errors.{Result-cases}
use replay_bug.Authz.Policy.{issue_update_status, issue_assign}
use replay_bug.Issues.Store.{
  IssueStatus, is_status, EventRow, Db, NewEvent, pending, processed, rejected,
  EventProcessingState, lock_event_for_processing, get_event_for_symbolication, insert_event,
  same_client_event,
}
use replay_bug.Issues.Process.{
  select_mapped_fingerprint_frames, SymbolicationResult, NormalizableStackFrame, Derived,
  ProcessEventOutcome, follow_plan, process_state, process_event, committed,
}
use replay_bug.Issues.Service.{
  issue_with_access, same_user, update_issue_status, update_issue_assignee,
}
use replay_bug.Issues.Changes.{update_issue_status_run}
use replay_bug.Issues.Assignments.{may_have, update_issue_assignee_run}
use replay_bug.Issues.Tables.{is_event}
use replay_bug.Issues.Branches.{lock_event-eq-some}
use replay_bug.Issues.Settling.{IfWritten, follow_plan-Settles}
use replay_bug.Issues.Steps.{Step, ingested, delivered, status_set, assignee_set, Reach, here, next}

module _ {P : Type 0} (event_id : ℕ) (e : EventRow P SymbolicationResult) where
  -- The row of an event, and the projects, stay as they are.
  abbrev Kept : Db P SymbolicationResult → Db P SymbolicationResult → Type 0
  Kept db db' =
      (find (is_event event_id) db.events ≡ some e)
      → (find (is_event event_id) db'.events ≡ some e) × (db'.projects ≡ db.projects)

  insert_event-Kept :
      (new_id : ℕ) (v : NewEvent P) (db : Db P SymbolicationResult)
      → Kept db (insert_event new_id v db).0
  unfolding insert_event
  insert_event-Kept new_id v db there =
      elim (Bool-cases (any (same_client_event v.project_id v.client_event_id) db.events)) [
        | inl k ↦ rw k (there, refl)
        | inr k ↦ rw k (find-append_keep (is_event event_id) db.events _ e there, refl)
      ]

  update_issue_status-Kept :
      (now user_id issue_id : ℕ) (status : IssueStatus) (db : Db P SymbolicationResult)
      → Kept db (update_issue_status now user_id issue_id status db).0
  update_issue_status-Kept now user_id issue_id status db there =
      rw (update_issue_status_run now user_id issue_id status db)
        (elim (Result-cases (issue_with_access db user_id issue_id issue_update_status)) [
          | inl (x, k) ↦ rw k (there, refl)
          | inr ((row, m), k) ↦ rw k (elim (Bool-cases (is_status row.status status)) [
            | inl l ↦ rw l (there, refl)
            | inr l ↦ rw l (there, refl)
          ])
        ])

  update_issue_assignee-Kept :
      (now user_id issue_id : ℕ) (assignee : Option ℕ) (db : Db P SymbolicationResult)
      → Kept db (update_issue_assignee now user_id issue_id assignee db).0
  update_issue_assignee-Kept now user_id issue_id assignee db there =
      rw (update_issue_assignee_run now user_id issue_id assignee db)
        (elim (Result-cases (issue_with_access db user_id issue_id issue_assign)) [
          | inl (x, k) ↦ rw k (there, refl)
          | inr ((row, m), k) ↦ rw k (elim (Bool-cases (may_have db m.workspace_id assignee)) [
            | inr l ↦ rw l (there, refl)
            | inl l ↦ rw l (elim (Bool-cases (same_user row.assigned_to_user_id assignee)) [
              | inl n ↦ rw n (there, refl)
              | inr n ↦ rw n (there, refl)
            ])
          ])
        ])

  module _ (done : (e.processing_state ≡ pending) → ⊥) where
    written-Kept :
        (db : Db P SymbolicationResult) (event : EventRow P SymbolicationResult) (workspace_id : ℕ)
        (locked : lock_event_for_processing db event.id ≡ some (event, workspace_id))
        (r : Option (Db P SymbolicationResult × ProcessEventOutcome))
        → event.processing_state ≡ pending
        → IfWritten db event workspace_id locked r
        → Kept db (committed db r).0
    written-Kept db event workspace_id locked none state w there = (there, refl)
    written-Kept db event workspace_id locked (some (db', outcome)) state w there =
        let own = (lock_event-eq-some db event.id workspace_id event locked).0 in
        elim (Bool-cases (event.id == event_id)) [
          | inl same ↦ absurd (
              done (
                let q : event.id ≡ event_id = (==_iff _ _).0 same in
                let own_here = subst (λ i. find (is_event i) db.events ≡ some event) q own in
                let one : event ≡ e = ground (arith, sym own_here ∙ there) in
                subst (λ z. EventRow.processing_state z ≡ pending) one state))
          | inr other ↦ (
            ap (find (is_event event_id)) w.events
                ∙ (find-at_other (is_event event.id) w.change (is_event event_id)
                      (λ x k. (ground arith, ground (arith, w.id_kept x))) db.events
                    ∙ there),
            w.projects,
          )
        ]

    state-Kept :
        (derive : ℕ → Text → P → Option (List NormalizableStackFrame) → Derived)
        (symbolicate : ℕ → Option Text → P → Option SymbolicationResult)
        (new_id now workspace_id : ℕ) (symbolication : SymbolicationResult)
        (db : Db P SymbolicationResult) (event : EventRow P SymbolicationResult)
        (state : EventProcessingState)
        → lock_event_for_processing db event.id ≡ some (event, workspace_id)
        → event.processing_state ≡ state
        → Kept db
            (committed db (
              process_state symbolicate derive new_id now event workspace_id symbolication state
                db)).0
    state-Kept derive symbolicate new_id now workspace_id symbolication db event processed locked k
          there =
        (there, refl)
    state-Kept derive symbolicate new_id now workspace_id symbolication db event rejected locked k
          there =
        (there, refl)
    state-Kept derive symbolicate new_id now workspace_id symbolication db event pending locked k
          there =
        let d =
          derive event.project_id event.event_type event.payload_json
            (select_mapped_fingerprint_frames symbolication) in
        written-Kept db event workspace_id locked
          (follow_plan new_id now event workspace_id symbolication d db) k
          (follow_plan-Settles db event workspace_id locked new_id now symbolication d) there

    process_event-Kept :
        (symbolicate : ℕ → Option Text → P → Option SymbolicationResult)
        (derive : ℕ → Text → P → Option (List NormalizableStackFrame) → Derived)
        (new_id now other_id : ℕ) (db : Db P SymbolicationResult)
        → Kept db (process_event symbolicate derive new_id now other_id db).0
    unfolding process_event
    process_event-Kept symbolicate derive new_id now other_id db there =
        elim (Option-cases (get_event_for_symbolication db other_id)) [
          | inl k ↦ rw k (there, refl)
          | inr (preloaded, k) ↦
              elim (Option-cases
                (symbolicate preloaded.project_id preloaded.release preloaded.payload_json)) [
                  | inl q ↦ rw k (rw q (there, refl))
                  | inr (symbolication, q) ↦
                      elim (Option-cases (lock_event_for_processing db other_id)) [
                        | inl l ↦ rw k (rw (q, l) (there, refl))
                        | inr ((event, workspace_id), l) ↦
                            let same = (lock_event-eq-some db other_id workspace_id event l).1 in
                            let locked =
                              subst
                                (λ z. lock_event_for_processing db z ≡ some (event, workspace_id))
                                (sym same) l in
                            rw k (
                              rw (q, l)
                                (state-Kept derive symbolicate new_id now workspace_id symbolication
                                  db event event.processing_state locked refl there))
                      ]
                ]
        ]

    step-Kept : {db db' : Db P SymbolicationResult} → Step db db' → Kept db db'
    step-Kept (ingested {db} new_id v unused) there = insert_event-Kept new_id v db there
    step-Kept (delivered {db} symbolicate derive new_id now other_id unused) there =
        process_event-Kept symbolicate derive new_id now other_id db there
    step-Kept (status_set {db} now user_id issue_id status) there =
        update_issue_status-Kept now user_id issue_id status db there
    step-Kept (assignee_set {db} now user_id issue_id assignee) there =
        update_issue_assignee-Kept now user_id issue_id assignee db there

    pub reach-Kept : {start db : Db P SymbolicationResult} → Reach start db → Kept start db
    reach-Kept here there = (there, refl)
    reach-Kept (next r s) there =
        let (middle, projects) = reach-Kept r there in
        let (last, projects') = step-Kept s middle in (last, projects' ∙ projects)
