-- ===== src/Issues/Process.antt =====
-- The processing of one event (apps/worker/src/processors/process-event.ts). The symbolication of a payload and the
-- derivation of its plan are parameters here. The transaction runs alone: its locks make others
-- wait, except between the two first statements of `lockOrCreateIssue`, where `raced` are the
-- issues that others commit.
use replay_bug.Common.{
  ℕ, Bool, true, false, not, ◌&&◌, if◌then◌else◌, Option, none, some, List, [], ◌++◌,
}
use replay_bug.Common.Text.{Text, codes}
pub use replay_bug.Issues.Frames.{SymbolicationResult, NormalizableStackFrame}
unfoldable pub use replay_bug.Issues.Frames.{select_mapped_fingerprint_frames}
use replay_bug.Issues.Store.{
  IssueType, IssueSeverity, resolved, is_status, IssueRow, EventProcessingState, pending, processed,
  rejected, StoredEventRejectionCode, EventRow, created, regression_detected, issue_regression,
  issue_created, issue_updated, issue_regressed, Db, lock_issue_by_fingerprint, CreateIssueInput,
  insert_issue_if_absent, record_issue_occurrence, record_issue_affected_session,
  insert_issue_activity, insert_notification, notify_project_issue_update,
  lock_event_for_processing, get_event_for_symbolication, persist_event_symbolication,
  mark_event_processed, mark_event_rejected,
}

pub record IssueDescriptor : Type 0 where
  pub type : IssueType
  pub title : Text
  pub normalized_message : Text
  pub severity : IssueSeverity
  pub signature : Text
  pub fingerprint : ℕ
  pub is_custom : Bool

-- `EventProcessingPlan`, or the `StoredEventPayloadError` or another error that is thrown instead.
pub data Derived : Type 0 where
  non_issue : Derived
  issue : IssueDescriptor → Derived
  payload_error : StoredEventRejectionCode → Derived
  other_error : Derived

pub data ProcessEventOutcome : Type 0 where
  processed_outcome : ℕ → Option ℕ → Option ℕ → ProcessEventOutcome
  already_processed : ℕ → ProcessEventOutcome
  already_rejected : ℕ → ProcessEventOutcome
  rejected_outcome : ℕ → StoredEventRejectionCode → ProcessEventOutcome
  event_not_found : ProcessEventOutcome

pub record LockOrCreateResult : Type 0 where
  pub row : IssueRow
  pub created : Bool

abbrev pub existing_issue :
    List IssueRow → Option IssueRow → List IssueRow × Option LockOrCreateResult
existing_issue issues none = (issues, none)
existing_issue issues (some row) = (issues, some (record { row = row; created = false }))

abbrev pub inserted_issue :
    ℕ → ℕ → List IssueRow × Option IssueRow → List IssueRow × Option LockOrCreateResult
inserted_issue project_id fingerprint (issues, some row) =
    (issues, some (record { row = row; created = true }))
inserted_issue project_id fingerprint (issues, none) =
    existing_issue issues (lock_issue_by_fingerprint issues project_id fingerprint)

-- No result is the error that is thrown where the conflicting row cannot be seen.
abbrev pub create_issue :
    List IssueRow
    → ℕ
    → ℕ
    → CreateIssueInput
    → List IssueRow
    → Option IssueRow
    → List IssueRow × Option LockOrCreateResult
create_issue raced new_id now input issues (some row) = existing_issue issues (some row)
create_issue raced new_id now input issues none =
    inserted_issue input.project_id input.fingerprint
      (insert_issue_if_absent new_id now input (issues ++ raced))

unfoldable pub lock_or_create_issue :
    List IssueRow
    → ℕ
    → ℕ
    → CreateIssueInput
    → List IssueRow
    → List IssueRow × Option LockOrCreateResult
lock_or_create_issue raced new_id now input issues =
    create_issue raced new_id now input issues
      (lock_issue_by_fingerprint issues input.project_id input.fingerprint)

abbrev pub reopens : LockOrCreateResult → Bool
reopens found = not found.created && is_status found.row.status resolved

module _ {P : Type 0} where
  -- The candidate for an event's issue.
  abbrev pub candidate : EventRow P SymbolicationResult → IssueDescriptor → CreateIssueInput
  candidate event descriptor = record {
    project_id = event.project_id;
    fingerprint = descriptor.fingerprint;
    fingerprint_signature = descriptor.signature;
    type = descriptor.type;
    title = descriptor.title;
    normalized_message = descriptor.normalized_message;
    severity = descriptor.severity;
    first_seen_at = event.occurred_at;
    release = event.release;
  }

  abbrev pub notify_assignee :
      EventRow P SymbolicationResult
      → ℕ
      → IssueRow
      → Option ℕ
      → Db P SymbolicationResult
      → Db P SymbolicationResult
  notify_assignee event workspace_id row none db = db
  notify_assignee event workspace_id row (some user_id) db =
      insert_notification
        (record {
          user_id = user_id;
          workspace_id = workspace_id;
          project_id = event.project_id;
          issue_id = row.id;
          type = issue_regression;
          title = codes "Issue regressed: " ++ row.title;
          body = codes "A new occurrence was detected after this issue was marked resolved.";
        })
        db

  -- The activity and the notification of an occurrence.
  unfoldable pub record_activity :
      EventRow P SymbolicationResult
      → ℕ
      → LockOrCreateResult
      → Db P SymbolicationResult
      → Db P SymbolicationResult
  record_activity event workspace_id found db =
      if found.created
      then insert_issue_activity found.row.id none (created event.id) db
      else if reopens found
      then notify_assignee event workspace_id found.row found.row.assigned_to_user_id
          (insert_issue_activity found.row.id none (regression_detected event.id) db)
      else db

  -- The statements from the affected session on, for the issue that was found or created.
  unfoldable pub record_occurrence :
      ℕ
      → EventRow P SymbolicationResult
      → ℕ
      → SymbolicationResult
      → ℕ
      → LockOrCreateResult
      → Db P SymbolicationResult
      → Db P SymbolicationResult
  record_occurrence now event workspace_id symbolication fingerprint found db =
      let (db1, new_session) =
        record_issue_affected_session found.row.id event.telemetry_session_id event.occurred_at
          db in
      let db2 =
        record_issue_occurrence now found.row.id event.occurred_at event.release new_session
          (reopens found) db1 in
      let db3 = record_activity event workspace_id found db2 in
      let db4 = persist_event_symbolication event.id symbolication db3 in
      let db5 = mark_event_processed event.id (some fingerprint) (some found.row.id) db4 in
      notify_project_issue_update
        (record {
          type =
              (if found.created
                then issue_created
                else if reopens found
                then issue_regressed
                else issue_updated);
          project_id = event.project_id;
          issue_id = found.row.id;
          event_id = some event.id;
        })
        db5

  -- No outcome is an error that is thrown.
  abbrev pub occurrence_outcome :
      ℕ
      → EventRow P SymbolicationResult
      → ℕ
      → SymbolicationResult
      → ℕ
      → Db P SymbolicationResult
      → List IssueRow × Option LockOrCreateResult
      → Option (Db P SymbolicationResult × ProcessEventOutcome)
  occurrence_outcome now event workspace_id symbolication fingerprint db (issues, none) = none
  occurrence_outcome now event workspace_id symbolication fingerprint db (issues, some found) =
      some (
        record_occurrence now event workspace_id symbolication fingerprint found
            (record db { issues = issues }),
        processed_outcome event.project_id (some found.row.id) (some fingerprint),
      )

  abbrev pub follow_plan :
      ℕ
      → ℕ
      → EventRow P SymbolicationResult
      → ℕ
      → SymbolicationResult
      → Derived
      → Db P SymbolicationResult
      → Option (Db P SymbolicationResult × ProcessEventOutcome)
  follow_plan new_id now event workspace_id symbolication (payload_error code) db = some (
    mark_event_rejected event.id code (persist_event_symbolication event.id symbolication db),
    rejected_outcome event.project_id code,
  )
  follow_plan new_id now event workspace_id symbolication other_error db = none
  follow_plan new_id now event workspace_id symbolication non_issue db = some (
    mark_event_processed event.id none none (persist_event_symbolication event.id symbolication db),
    processed_outcome event.project_id none none,
  )
  follow_plan new_id now event workspace_id symbolication (issue descriptor) db =
      occurrence_outcome now event workspace_id symbolication descriptor.fingerprint db
        (lock_or_create_issue [] new_id now (candidate event descriptor) db.issues)

  -- What a transaction wrote is dropped if it throws.
  abbrev pub committed :
      Db P SymbolicationResult
      → Option (Db P SymbolicationResult × ProcessEventOutcome)
      → Db P SymbolicationResult × Option ProcessEventOutcome
  committed db none = (db, none)
  committed db (some (db', outcome)) = (db', some outcome)

-- `symbolicate` is given the project, the release and the payload, and may throw, and `derive` is
-- `deriveEventProcessingPlan`, given the project, the type, the payload and the mapped frames.
module _ {P : Type 0} (symbolicate : ℕ → Option Text → P → Option SymbolicationResult)
    (derive : ℕ → Text → P → Option (List NormalizableStackFrame) → Derived) where
  abbrev pub process_state :
      ℕ
      → ℕ
      → EventRow P SymbolicationResult
      → ℕ
      → SymbolicationResult
      → EventProcessingState
      → Db P SymbolicationResult
      → Option (Db P SymbolicationResult × ProcessEventOutcome)
  process_state new_id now event workspace_id symbolication processed db =
      some (db, already_processed event.project_id)
  process_state new_id now event workspace_id symbolication rejected db =
      some (db, already_rejected event.project_id)
  process_state new_id now event workspace_id symbolication pending db =
      follow_plan new_id now event workspace_id symbolication
        (derive event.project_id event.event_type event.payload_json
          (select_mapped_fingerprint_frames symbolication))
        db

  abbrev pub process_locked :
      ℕ
      → ℕ
      → SymbolicationResult
      → Option (EventRow P SymbolicationResult × ℕ)
      → Db P SymbolicationResult
      → Option (Db P SymbolicationResult × ProcessEventOutcome)
  process_locked new_id now symbolication none db = some (db, event_not_found)
  process_locked new_id now symbolication (some (event, workspace_id)) db =
      process_state new_id now event workspace_id symbolication event.processing_state db

  -- No symbolication is an error that is thrown before the transaction.
  abbrev pub process_symbolicated :
      ℕ
      → ℕ
      → ℕ
      → Option SymbolicationResult
      → Db P SymbolicationResult
      → Db P SymbolicationResult × Option ProcessEventOutcome
  process_symbolicated new_id now event_id none db = (db, none)
  process_symbolicated new_id now event_id (some symbolication) db =
      committed db
        (process_locked new_id now symbolication (lock_event_for_processing db event_id) db)

  abbrev pub process_preloaded :
      ℕ
      → ℕ
      → ℕ
      → Option (EventRow P SymbolicationResult)
      → Db P SymbolicationResult
      → Db P SymbolicationResult × Option ProcessEventOutcome
  process_preloaded new_id now event_id none db = (db, some event_not_found)
  process_preloaded new_id now event_id (some preloaded) db =
      process_symbolicated new_id now event_id
        (symbolicate preloaded.project_id preloaded.release preloaded.payload_json) db

  -- `new_id` is the id that the database gives an issue that is created, `now` its time.
  unfoldable pub process_event :
      ℕ → ℕ → ℕ → Db P SymbolicationResult → Db P SymbolicationResult × Option ProcessEventOutcome
  process_event new_id now event_id db =
      process_preloaded new_id now event_id (get_event_for_symbolication db event_id) db
