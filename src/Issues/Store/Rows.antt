-- ===== src/Issues/Store/Rows.antt =====
-- The rows of events, issues and what refers to them (packages/db/src/schema.ts, and the
-- repositories of packages/db/src/repositories that Issues.Store models). Columns that no modelled
-- code reads or sets, such as the time of an insert, are left out.
use replay_bug.Common.{ℕ, Bool, true, false, Option, List}
use replay_bug.Common.Text.{Text}
use replay_bug.Authz.Guards.{ProjectView, MembershipView}

pub data IssueType : Type 0 where
  exception : IssueType
  unhandled_rejection : IssueType
  console_error : IssueType
  network : IssueType
  message : IssueType

pub data IssueSeverity : Type 0 where
  error : IssueSeverity
  warning : IssueSeverity

pub data IssueStatus : Type 0 where
  open_issue : IssueStatus
  investigating : IssueStatus
  resolved : IssueStatus
  ignored : IssueStatus

-- `a === b`
abbrev pub is_status : IssueStatus → IssueStatus → Bool
is_status open_issue open_issue = true
is_status investigating investigating = true
is_status resolved resolved = true
is_status ignored ignored = true
is_status _ _ = false

pub record IssueRow : Type 0 where
  pub id : ℕ
  pub project_id : ℕ
  pub fingerprint : ℕ
  pub fingerprint_signature : Text
  pub type : IssueType
  pub title : Text
  pub normalized_message : Text
  pub status : IssueStatus
  pub severity : IssueSeverity
  pub assigned_to_user_id : Option ℕ
  pub first_seen_at : ℕ
  pub last_seen_at : ℕ
  pub resolved_at : Option ℕ
  pub first_release : Option Text
  pub last_release : Option Text
  pub occurrence_count : ℕ
  pub affected_session_count : ℕ
  pub updated_at : ℕ

pub data EventProcessingState : Type 0 where
  pending : EventProcessingState
  processed : EventProcessingState
  rejected : EventProcessingState

pub data StoredEventRejectionCode : Type 0 where
  malformed_payload : StoredEventRejectionCode
  unsupported_event_type : StoredEventRejectionCode

-- `P` is the type of stored payloads, `E` that of `symbolication_json`.
pub record EventRow (P E : Type 0) : Type 0 where
  pub id : ℕ
  pub project_id : ℕ
  pub telemetry_session_id : ℕ
  pub client_event_id : ℕ
  pub sequence_number : ℕ
  pub event_type : Text
  pub occurred_at : ℕ
  pub environment : Text
  pub release : Option Text
  pub page_url : Option Text
  pub payload_json : P
  pub processing_state : EventProcessingState
  pub rejection_reason : Option StoredEventRejectionCode
  pub fingerprint : Option ℕ
  pub issue_id : Option ℕ
  pub symbolication_json : Option E

pub record IssueAffectedSessionRow : Type 0 where
  pub issue_id : ℕ
  pub telemetry_session_id : ℕ
  pub first_seen_at : ℕ

-- The values of `insertEvent`.
pub record NewEvent (P : Type 0) : Type 0 where
  pub project_id : ℕ
  pub telemetry_session_id : ℕ
  pub client_event_id : ℕ
  pub sequence_number : ℕ
  pub event_type : Text
  pub occurred_at : ℕ
  pub environment : Text
  pub release : Option Text
  pub page_url : Option Text
  pub payload_json : P

-- `type` and `metadataJson` of the activities that are modelled.
pub data Activity : Type 0 where
  created : ℕ → Activity
  regression_detected : ℕ → Activity
  status_changed : IssueStatus → IssueStatus → Activity
  assigned : ℕ → Activity
  unassigned : Activity

pub record IssueActivityRow : Type 0 where
  pub issue_id : ℕ
  pub actor_user_id : Option ℕ
  pub activity : Activity

pub data NotificationType : Type 0 where
  issue_regression : NotificationType
  issue_assigned : NotificationType

pub record NotificationRow : Type 0 where
  pub user_id : ℕ
  pub workspace_id : ℕ
  pub project_id : ℕ
  pub issue_id : ℕ
  pub type : NotificationType
  pub title : Text
  pub body : Text

pub data ProjectUpdateType : Type 0 where
  issue_created : ProjectUpdateType
  issue_updated : ProjectUpdateType
  issue_regressed : ProjectUpdateType
  assignment_changed : ProjectUpdateType

pub record ProjectUpdateNotification : Type 0 where
  pub type : ProjectUpdateType
  pub project_id : ℕ
  pub issue_id : ℕ
  pub event_id : Option ℕ

-- `notified` are the payloads that PostgreSQL delivers after the commit.
pub record Db (P E : Type 0) : Type 0 where
  pub projects : List ProjectView
  pub memberships : List MembershipView
  pub events : List (EventRow P E)
  pub issues : List IssueRow
  pub affected : List IssueAffectedSessionRow
  pub activity : List IssueActivityRow
  pub notifications : List NotificationRow
  pub notified : List ProjectUpdateNotification
