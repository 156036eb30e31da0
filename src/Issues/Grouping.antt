-- ===== src/Issues/Grouping.antt =====
-- An event that is grouped under an issue, which it may reopen or create
-- (apps/worker/src/processors/process-event.ts).
use replay_bug.Common.{ℕ, true, false, ◌≡◌, ap, Option, none, some, List, [], ◌∷◌, ◌++◌}
use replay_bug.Common.Text.{Text}
use replay_bug.Common.Rows.{find}
use replay_bug.Issues.Store.{
  IssueRow, EventRow, Db, pending, has_fingerprint, lock_event_for_processing, new_issue,
}
use replay_bug.Issues.Process.{
  select_mapped_fingerprint_frames, SymbolicationResult, IssueDescriptor, candidate,
  NormalizableStackFrame, Derived, issue, processed_outcome, process_event,
}
use replay_bug.Issues.Tables.{after_occurrence, record_occurrence_lem}
use replay_bug.Issues.Branches.{lock_or_create_issue_existing, lock_or_create_issue_new}
use replay_bug.Issues.Settling.{get-of_locked}

-- A pending event that is given an issue.
pub record Grouped {P : Type 0} (symbolicate : ℕ → Option Text → P → Option SymbolicationResult)
    (derive : ℕ → Text → P → Option (List NormalizableStackFrame) → Derived) (event_id : ℕ)
    (db : Db P SymbolicationResult) : Type 0 where
  pub event : EventRow P SymbolicationResult
  pub workspace_id : ℕ
  pub descriptor : IssueDescriptor
  pub locked : lock_event_for_processing db event_id ≡ some (event, workspace_id)
  pub is_pending : event.processing_state ≡ pending
  pub symbolication : SymbolicationResult
  pub symbolicated :
      symbolicate event.project_id event.release event.payload_json ≡ some symbolication
  pub derived :
      derive event.project_id event.event_type event.payload_json
        (select_mapped_fingerprint_frames symbolication)
      ≡ issue descriptor

module _ {P : Type 0} (symbolicate : ℕ → Option Text → P → Option SymbolicationResult)
    (derive : ℕ → Text → P → Option (List NormalizableStackFrame) → Derived)
    (new_id now event_id : ℕ) (db : Db P SymbolicationResult)
    (g : Grouped symbolicate derive event_id db) where
  pub grouped_existing :
      (row : IssueRow)
      → find (has_fingerprint g.event.project_id g.descriptor.fingerprint) db.issues ≡ some row
      → process_event symbolicate derive new_id now event_id db ≡ (
        after_occurrence now g.event g.workspace_id g.symbolication g.descriptor.fingerprint
            (record { row = row; created = false })
            db,
        some (processed_outcome g.event.project_id (some row.id) (some g.descriptor.fingerprint)),
      )
  unfolding process_event
  grouped_existing row there =
      rw (get-of_locked db event_id g.workspace_id g.event g.locked, g.symbolicated, g.locked)
        (simp
          (
            g.is_pending,
            g.derived,
            lock_or_create_issue_existing new_id now (candidate g.event g.descriptor) db.issues row
                there,
          )
          (ap
            (λ d. (
              d,
              some (
                  processed_outcome g.event.project_id (some row.id)
                    (some g.descriptor.fingerprint)),
            ))
            (record_occurrence_lem now g.event g.workspace_id g.symbolication
              g.descriptor.fingerprint (record { row = row; created = false }) db)))

  pub grouped_new :
      find (has_fingerprint g.event.project_id g.descriptor.fingerprint) db.issues ≡ none
      → let row = new_issue new_id now (candidate g.event g.descriptor) in
        process_event symbolicate derive new_id now event_id db ≡ (
          after_occurrence now g.event g.workspace_id g.symbolication g.descriptor.fingerprint
              (record { row = row; created = true })
              (record db { issues = db.issues ++ (row ∷ []) }),
          some (processed_outcome g.event.project_id (some new_id) (some g.descriptor.fingerprint)),
        )
  unfolding process_event new_issue
  grouped_new absent =
      let row = new_issue new_id now (candidate g.event g.descriptor) in
      rw (get-of_locked db event_id g.workspace_id g.event g.locked, g.symbolicated, g.locked)
        (simp (
          g.is_pending,
          g.derived,
          lock_or_create_issue_new new_id now (candidate g.event g.descriptor) db.issues absent,
          record_occurrence_lem now g.event g.workspace_id g.symbolication g.descriptor.fingerprint
              (record { row = row; created = true })
              (record db { issues = db.issues ++ (row ∷ []) }),
        ))
