-- ===== src/Issues/Tables.antt =====
-- What an occurrence leaves in the tables (apps/worker/src/processors/process-event.ts).
use replay_bug.Common.{
  ℕ, Bool, not, ◌==◌, ◌≡◌, refl, append-nil, inl, inr, if◌then◌else◌, Option, none, some, List, [],
  ◌∷◌, ◌++◌, map, any, Bool-cases,
}
use replay_bug.Common.Text.{codes}
use replay_bug.Common.Rows.{at}
use replay_bug.Common.RowLaws.{map-at-at}
use replay_bug.Issues.Store.{
  is_status, resolved, IssueRow, IssueActivityRow, created, regression_detected, NotificationRow,
  issue_regression, issue_created, issue_updated, issue_regressed, processed, EventRow,
  IssueAffectedSessionRow, Db, occurred, at_issue, is_relation, record_issue_occurrence,
  record_issue_affected_session, insert_issue_activity, insert_notification,
  notify_project_issue_update, persist_event_symbolication, mark_event_processed,
}
use replay_bug.Issues.Process.{
  SymbolicationResult, LockOrCreateResult, reopens, notify_assignee, record_activity,
  record_occurrence,
}

module _ {P : Type 0} where
  abbrev pub is_event : ℕ → EventRow P SymbolicationResult → Bool
  is_event event_id e = e.id == event_id

  -- The event after it was processed.
  abbrev pub settle :
      SymbolicationResult
      → Option ℕ
      → Option ℕ
      → EventRow P SymbolicationResult
      → EventRow P SymbolicationResult
  settle symbolication fingerprint issue_id e = record e {
    symbolication_json = some symbolication;
    processing_state = processed;
    fingerprint = fingerprint;
    issue_id = issue_id;
  }

  abbrev pub relation : ℕ → EventRow P SymbolicationResult → IssueAffectedSessionRow
  relation issue_id e = record {
    issue_id = issue_id;
    telemetry_session_id = e.telemetry_session_id;
    first_seen_at = e.occurred_at;
  }

  -- The activity of an occurrence.
  abbrev pub activities :
      EventRow P SymbolicationResult → LockOrCreateResult → List IssueActivityRow
  activities event found =
      if found.created
      then record { issue_id = found.row.id; actor_user_id = none; activity = created event.id }
        ∷ []
      else if is_status found.row.status resolved
      then record {
        issue_id = found.row.id;
        actor_user_id = none;
        activity = regression_detected event.id;
      }
        ∷ []
      else []

  -- The notification of an assignee.
  abbrev pub notice_for :
      EventRow P SymbolicationResult → ℕ → IssueRow → Option ℕ → List NotificationRow
  notice_for event workspace_id row none = []
  notice_for event workspace_id row (some user_id) =
      record {
        user_id = user_id;
        workspace_id = workspace_id;
        project_id = event.project_id;
        issue_id = row.id;
        type = issue_regression;
        title = codes "Issue regressed: " ++ row.title;
        body = codes "A new occurrence was detected after this issue was marked resolved.";
      }
      ∷ []

  abbrev pub notices :
      EventRow P SymbolicationResult → ℕ → LockOrCreateResult → List NotificationRow
  notices event workspace_id found =
      if found.created
      then []
      else if is_status found.row.status resolved
      then notice_for event workspace_id found.row found.row.assigned_to_user_id
      else []

  notify_assignee_lem :
      (event : EventRow P SymbolicationResult) (workspace_id : ℕ) (row : IssueRow)
      (assignee : Option ℕ) (db : Db P SymbolicationResult)
      → notify_assignee event workspace_id row assignee db ≡ (record db {
        notifications = db.notifications ++ notice_for event workspace_id row assignee;
      })
  unfolding insert_notification
  notify_assignee_lem event workspace_id row none db = rw (append-nil db.notifications) refl
  notify_assignee_lem event workspace_id row (some user_id) db = refl

  record_activity_lem :
      (event : EventRow P SymbolicationResult) (workspace_id : ℕ) (found : LockOrCreateResult)
      (db : Db P SymbolicationResult)
      → record_activity event workspace_id found db ≡ (record db {
        activity = db.activity ++ activities event found;
        notifications = db.notifications ++ notices event workspace_id found;
      })
  unfolding record_activity insert_issue_activity
  record_activity_lem event workspace_id found db = elim (Bool-cases found.created) [
    | inl is_new ↦ simp (is_new, append-nil db.notifications)
    | inr old ↦ elim (Bool-cases (is_status found.row.status resolved)) [
      | inl k ↦
          simp (old, k)
            (notify_assignee_lem event workspace_id found.row found.row.assigned_to_user_id _)
      | inr k ↦ simp (old, k, append-nil db.activity, append-nil db.notifications)
    ]
  ]

  -- Whether the event's session is new to the issue.
  abbrev pub is_new_session :
      List IssueAffectedSessionRow → ℕ → EventRow P SymbolicationResult → Bool
  is_new_session affected issue_id event =
      not (any (is_relation issue_id event.telemetry_session_id) affected)

  -- The tables after an occurrence.
  abbrev pub after_occurrence :
      ℕ
      → EventRow P SymbolicationResult
      → ℕ
      → SymbolicationResult
      → ℕ
      → LockOrCreateResult
      → Db P SymbolicationResult
      → Db P SymbolicationResult
  after_occurrence now event workspace_id symbolication fingerprint found db =
      let i = found.row.id in
      let new_session = is_new_session db.affected i event in
      let patch = occurred now event.occurred_at event.release new_session (reopens found) in
      record db {
        events =
            map (at (is_event event.id) (settle symbolication (some fingerprint) (some i)))
              db.events;
        issues = map (at_issue i patch) db.issues;
        affected = db.affected ++ (if new_session then relation i event ∷ [] else []);
        activity = db.activity ++ activities event found;
        notifications = db.notifications ++ notices event workspace_id found;
        notified =
            db.notified
            ++ (record {
              type =
                  (if found.created
                    then issue_created
                    else if reopens found
                    then issue_regressed
                    else issue_updated);
              project_id = event.project_id;
              issue_id = i;
              event_id = some event.id;
            }
                ∷ []);
      }

  pub record_occurrence_lem :
      (now : ℕ) (event : EventRow P SymbolicationResult) (workspace_id : ℕ)
      (symbolication : SymbolicationResult) (fingerprint : ℕ) (found : LockOrCreateResult)
      (db : Db P SymbolicationResult)
      → record_occurrence now event workspace_id symbolication fingerprint found db
        ≡ after_occurrence now event workspace_id symbolication fingerprint found db
  unfolding record_occurrence record_issue_affected_session record_issue_occurrence
      notify_project_issue_update mark_event_processed persist_event_symbolication
  record_occurrence_lem now event workspace_id symbolication fingerprint found db =
      let settled =
        map-at-at (is_event event.id)
          (λ e. record e {
            processing_state = processed;
            fingerprint = some fingerprint;
            issue_id = some found.row.id;
          })
          (λ e. record e { symbolication_json = some symbolication }) (λ e. refl) db.events in
      elim (Bool-cases (any (is_relation found.row.id event.telemetry_session_id) db.affected)) [
        | inl k ↦
            simp (k, append-nil db.affected, record_activity_lem event workspace_id found, settled)
        | inr k ↦ simp (k, record_activity_lem event workspace_id found, settled)
      ]
