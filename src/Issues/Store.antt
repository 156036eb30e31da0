-- ===== src/Issues/Store.antt =====
-- Events, issues and what refers to them, and the repositories' queries on them
-- (packages/db/src/repositories/issues.ts, event-processing.ts, issue-affected-sessions.ts,
-- issue-activity.ts, notifications.ts, project-updates.ts). Times are milliseconds, ids and
-- fingerprints are only compared, and a table is the list of its rows.
mod Rows
pub use Rows.*
use replay_bug.Common.{
  ℕ, ◌+◌, min, max, Bool, true, false, ◌==◌, ◌&&◌, if◌then◌else◌, Option, none, some, List, [], ◌∷◌,
  ◌++◌, map, any, ltb,
}
use replay_bug.Common.Text.{Text}
use replay_bug.Authz.Access.{find}
use replay_bug.Authz.Guards.{ProjectView, MembershipView}

abbrev pub has_fingerprint : ℕ → ℕ → IssueRow → Bool
has_fingerprint project_id fingerprint i =
    (i.project_id == project_id) && (i.fingerprint == fingerprint)

unfoldable pub lock_issue_by_fingerprint : List IssueRow → ℕ → ℕ → Option IssueRow
lock_issue_by_fingerprint issues project_id fingerprint =
    find (has_fingerprint project_id fingerprint) issues

pub record CreateIssueInput : Type 0 where
  pub project_id : ℕ
  pub fingerprint : ℕ
  pub fingerprint_signature : Text
  pub type : IssueType
  pub title : Text
  pub normalized_message : Text
  pub severity : IssueSeverity
  pub first_seen_at : ℕ
  pub release : Option Text

-- The row of `insertIssueIfAbsent`, with the id and the time that the database gives it.
unfoldable pub new_issue : ℕ → ℕ → CreateIssueInput → IssueRow
new_issue new_id now input = record {
  id = new_id;
  project_id = input.project_id;
  fingerprint = input.fingerprint;
  fingerprint_signature = input.fingerprint_signature;
  type = input.type;
  title = input.title;
  normalized_message = input.normalized_message;
  status = open_issue;
  severity = input.severity;
  assigned_to_user_id = none;
  first_seen_at = input.first_seen_at;
  last_seen_at = input.first_seen_at;
  resolved_at = none;
  first_release = input.release;
  last_release = input.release;
  occurrence_count = 0;
  affected_session_count = 0;
  updated_at = now;
}

-- On a conflict nothing is inserted and no row is returned.
unfoldable pub insert_issue_if_absent :
    ℕ → ℕ → CreateIssueInput → List IssueRow → List IssueRow × Option IssueRow
insert_issue_if_absent new_id now input issues =
    let row = new_issue new_id now input in
    if any (has_fingerprint input.project_id input.fingerprint) issues
    then (issues, none)
    else (issues ++ (row ∷ []), some row)

-- `recordIssueOccurrence` on its row: every assignment reads the row before it.
unfoldable pub occurred : ℕ → ℕ → Option Text → Bool → Bool → IssueRow → IssueRow
occurred now occurred_at release new_session reopen_as_regression i = record i {
  occurrence_count = i.occurrence_count + 1;
  affected_session_count =
      (if new_session then i.affected_session_count + 1 else i.affected_session_count);
  first_seen_at = min i.first_seen_at occurred_at;
  last_seen_at = max i.last_seen_at occurred_at;
  first_release = (if ltb occurred_at i.first_seen_at then release else i.first_release);
  last_release = (if ltb i.last_seen_at occurred_at then release else i.last_release);
  updated_at = now;
  status = (if reopen_as_regression then open_issue else i.status);
  resolved_at = (if reopen_as_regression then none else i.resolved_at);
}

-- `update(issues).set(patch).where(eq(issues.id, issueId))`
abbrev pub at_issue : ℕ → (IssueRow → IssueRow) → IssueRow → IssueRow
at_issue issue_id patch i = if i.id == issue_id then patch i else i

unfoldable pub find_issue_by_id : List IssueRow → ℕ → Option IssueRow
find_issue_by_id issues issue_id = find (λ i. i.id == issue_id) issues

abbrev pub is_relation : ℕ → ℕ → IssueAffectedSessionRow → Bool
is_relation issue_id session_id a =
    (a.issue_id == issue_id) && (a.telemetry_session_id == session_id)

module _ {P E : Type 0} where
  unfoldable pub record_issue_occurrence : ℕ → ℕ → ℕ → Option Text → Bool → Bool → Db P E → Db P E
  record_issue_occurrence now issue_id occurred_at release new_session reopen db =
      let patch = occurred now occurred_at release new_session reopen in
      record db { issues = map (at_issue issue_id patch) db.issues }

  -- Whether a new relation was inserted is returned.
  unfoldable pub record_issue_affected_session : ℕ → ℕ → ℕ → Db P E → Db P E × Bool
  record_issue_affected_session issue_id session_id first_seen_at db =
      let row : IssueAffectedSessionRow = record {
        issue_id = issue_id;
        telemetry_session_id = session_id;
        first_seen_at = first_seen_at;
      } in
      if any (is_relation issue_id session_id) db.affected
      then (db, false)
      else (record db { affected = db.affected ++ (row ∷ []) }, true)

  unfoldable pub insert_issue_activity : ℕ → Option ℕ → Activity → Db P E → Db P E
  insert_issue_activity issue_id actor_user_id a db =
      let row : IssueActivityRow = record {
        issue_id = issue_id;
        actor_user_id = actor_user_id;
        activity = a;
      } in
      record db { activity = db.activity ++ (row ∷ []) }

  unfoldable pub insert_notification : NotificationRow → Db P E → Db P E
  insert_notification row db = record db { notifications = db.notifications ++ (row ∷ []) }

  unfoldable pub notify_project_issue_update : ProjectUpdateNotification → Db P E → Db P E
  notify_project_issue_update payload db = record db { notified = db.notified ++ (payload ∷ []) }

  abbrev pub in_workspace : EventRow P E → Option ProjectView → Option (EventRow P E × ℕ)
  in_workspace event none = none
  in_workspace event (some p) = some (event, p.workspace_id)

  abbrev pub join_project : List ProjectView → Option (EventRow P E) → Option (EventRow P E × ℕ)
  join_project projects none = none
  join_project projects (some event) =
      in_workspace event (find (λ p. ProjectView.id p == event.project_id) projects)

  -- The event with its project's workspace: no row if either is missing.
  unfoldable pub lock_event_for_processing : Db P E → ℕ → Option (EventRow P E × ℕ)
  lock_event_for_processing db event_id =
      join_project db.projects (find (λ e. EventRow.id e == event_id) db.events)

  unfoldable pub get_event_for_symbolication : Db P E → ℕ → Option (EventRow P E)
  get_event_for_symbolication db event_id = find (λ e. EventRow.id e == event_id) db.events

  abbrev pub at_event : ℕ → (EventRow P E → EventRow P E) → EventRow P E → EventRow P E
  at_event event_id patch e = if e.id == event_id then patch e else e

  abbrev pub update_event : ℕ → (EventRow P E → EventRow P E) → Db P E → Db P E
  update_event event_id patch db = record db { events = map (at_event event_id patch) db.events }

  unfoldable pub persist_event_symbolication : ℕ → E → Db P E → Db P E
  persist_event_symbolication event_id symbolication =
      update_event event_id (λ e. record e { symbolication_json = some symbolication })

  unfoldable pub mark_event_processed : ℕ → Option ℕ → Option ℕ → Db P E → Db P E
  mark_event_processed event_id fingerprint issue_id = update_event event_id (λ e. record e {
    processing_state = processed;
    fingerprint = fingerprint;
    issue_id = issue_id;
  })

  unfoldable pub mark_event_rejected : ℕ → StoredEventRejectionCode → Db P E → Db P E
  mark_event_rejected event_id reason =
      update_event event_id
        (λ e. record e { processing_state = rejected; rejection_reason = some reason })

  -- The row that the database makes of new values, with its defaults.
  abbrev pub new_event : ℕ → NewEvent P → EventRow P E
  new_event new_id v = record {
    id = new_id;
    project_id = v.project_id;
    telemetry_session_id = v.telemetry_session_id;
    client_event_id = v.client_event_id;
    sequence_number = v.sequence_number;
    event_type = v.event_type;
    occurred_at = v.occurred_at;
    environment = v.environment;
    release = v.release;
    page_url = v.page_url;
    payload_json = v.payload_json;
    processing_state = pending;
    rejection_reason = none;
    fingerprint = none;
    issue_id = none;
    symbolication_json = none;
  }

  abbrev pub same_client_event : ℕ → ℕ → EventRow P E → Bool
  same_client_event project_id client_event_id e =
      (e.project_id == project_id) && (e.client_event_id == client_event_id)

  -- A duplicate is not inserted, and no row is returned.
  unfoldable pub insert_event : ℕ → NewEvent P → Db P E → Db P E × Option (EventRow P E)
  insert_event new_id v db =
      let row = new_event new_id v in
      if any (same_client_event v.project_id v.client_event_id) db.events
      then (db, none)
      else (record db { events = db.events ++ (row ∷ []) }, some row)
