-- ===== src/Examples/Issues.antt =====
-- Runs of the processing of events and of requests on issues, and the theorems about them at
-- concrete inputs.
use replay_bug.Common.{
  ℕ, zero, suc, true, false, ◌≡◌, refl, Option, none, some, List, [], ◌∷◌, arith,
}
use mathlib.Core.Option
use replay_bug.Common.Text.{Text, codes}
use replay_bug.Common.Rows.{find, Distinct}
use replay_bug.Authz.Roles.{member, role_rank}
use replay_bug.Authz.Guards.{
  require_project_access, require_workspace_capability, require_workspace_membership,
}
use replay_bug.Authz.Policy.{has_capability, issue_update_status, issue_assign}
use replay_bug.Issues.Store.{
  lock_event_for_processing, find_issue_by_id, get_event_for_symbolication,
  lock_issue_by_fingerprint, insert_issue_if_absent, notify_project_issue_update,
  mark_event_processed, persist_event_symbolication, insert_issue_activity, record_issue_occurrence,
  record_issue_affected_session, insert_notification, mark_event_rejected, occurred, IssueRow,
  EventRow, NewEvent, Db, exception, error, resolved, investigating, malformed_payload,
  insert_event, new_event, has_fingerprint, new_issue,
}
use replay_bug.Issues.Process.{
  lock_or_create_issue, record_occurrence, record_activity, select_mapped_fingerprint_frames,
  candidate, LockOrCreateResult, SymbolicationResult, NormalizableStackFrame, IssueDescriptor,
  Derived, non_issue, issue, payload_error, process_event,
}
use replay_bug.Issues.Frames.{no_release, select_frames}
use replay_bug.Issues.Service.{
  update_issue_status, update_issue_assignee, issue_with_access, change_status, update_issue_row,
  write_status,
}
use replay_bug.Issues.Consistent.{same_key, Consistent}
use replay_bug.Issues.Steps.{Reach, here, next, ingested, delivered, status_set, reach-Consistent}
use replay_bug.Issues.Grouping.{Grouped}
use replay_bug.Issues.Requested.{
  status_answer, update_issue_status_lem, assignee_answer, update_issue_assignee_lem,
}
use replay_bug.Issues.Order.{aggregates, occurred_order, lock_or_create_issue_raced}
use replay_bug.Issues.Regressions.{Created, process_event_creates, Recorded, process_event_records}

abbrev raw : SymbolicationResult
raw = record { status = no_release; raw_frames = []; mapped_frames = []; mapped_frame_count = 0 }

abbrev unmapped : ℕ → Option Text → ℕ → Option SymbolicationResult
unmapped project_id release payload = some raw

abbrev grouped : ℕ → IssueDescriptor
grouped fingerprint = record {
  type = exception;
  title = codes "Error";
  normalized_message = codes "boom";
  severity = error;
  signature = codes "[]";
  fingerprint = fingerprint;
  is_custom = false;
}

-- Payload 0 is no issue, 1 is malformed, and the rest is grouped.
abbrev by_payload : ℕ → Text → ℕ → Option (List NormalizableStackFrame) → Derived
by_payload project_id type zero frames = non_issue
by_payload project_id type (suc zero) frames = payload_error malformed_payload
by_payload project_id type (suc (suc n)) frames = issue (grouped n)

abbrev sent : ℕ → ℕ → ℕ → NewEvent ℕ
sent client session time = record {
  project_id = 1;
  telemetry_session_id = session;
  client_event_id = client;
  sequence_number = 0;
  event_type = codes "exception";
  occurred_at = time;
  environment = codes "production";
  release = none;
  page_url = none;
  payload_json = 5;
}

abbrev start : Db ℕ SymbolicationResult
start = record {
  projects = record { id = 1; workspace_id = 9 } ∷ [];
  memberships = record { workspace_id = 9; user_id = 4; role = member } ∷ [];
  events = [];
  issues = [];
  affected = [];
  activity = [];
  notifications = [];
  notified = [];
}

start-Consistent : Consistent start
start-Consistent = record {
  event_ids = tt;
  issue_ids = tt;
  issue_keys = tt;
  relation_keys = tt;
  issues_ok = tt;
  related = tt;
  caused = tt;
}

-- Two events of one session; the first is processed and its issue resolved, then the second is.
abbrev one_in : Db ℕ SymbolicationResult
one_in = (insert_event 1 (sent 1 7 100) start).0

abbrev two_in : Db ℕ SymbolicationResult
two_in = (insert_event 2 (sent 2 7 50) one_in).0

abbrev first_done : Db ℕ SymbolicationResult
first_done = (process_event unmapped by_payload 30 1000 1 two_in).0

abbrev all_resolved : Db ℕ SymbolicationResult
all_resolved = (update_issue_status 2000 4 30 resolved first_done).0

abbrev reopened : Db ℕ SymbolicationResult
reopened = (process_event unmapped by_payload 31 3000 2 all_resolved).0

to_resolved : Reach start all_resolved
unfolding process_event insert_event update_issue_status
to_resolved =
    next
      (next (next (next here (ingested 1 (sent 1 7 100) refl)) (ingested 2 (sent 2 7 50) refl))
        (delivered unmapped by_payload 30 1000 1 refl))
      (status_set 2000 4 30 resolved)

reach-Consistent_example : Consistent all_resolved
reach-Consistent_example = reach-Consistent start all_resolved to_resolved start-Consistent

all_resolved-Consistent : Consistent all_resolved
all_resolved-Consistent = reach-Consistent start all_resolved to_resolved start-Consistent

abbrev failing : ℕ → Option Text → ℕ → Option SymbolicationResult
failing project_id release payload = none

failed : (process_event failing by_payload 30 1000 1 two_in).1 ≡ none
unfolding process_event insert_event update_issue_status lock_event_for_processing find
    issue_with_access find_issue_by_id get_event_for_symbolication lock_or_create_issue
    lock_issue_by_fingerprint insert_issue_if_absent record_occurrence notify_project_issue_update
    mark_event_processed persist_event_symbolication record_activity insert_issue_activity
    record_issue_occurrence record_issue_affected_session new_issue require_project_access
    require_workspace_capability require_workspace_membership has_capability role_rank select_frames
    select_mapped_fingerprint_frames change_status update_issue_row write_status insert_notification
    mark_event_rejected occurred
failed = refl

-- The second event, in the state in which the issue is resolved.
abbrev second : EventRow ℕ SymbolicationResult
second = new_event 2 (sent 2 7 50)

abbrev second_grouped : Grouped unmapped by_payload 2 all_resolved
unfolding process_event insert_event update_issue_status lock_event_for_processing find
    issue_with_access find_issue_by_id get_event_for_symbolication lock_or_create_issue
    lock_issue_by_fingerprint insert_issue_if_absent record_occurrence notify_project_issue_update
    mark_event_processed persist_event_symbolication record_activity insert_issue_activity
    record_issue_occurrence record_issue_affected_session new_issue require_project_access
    require_workspace_capability require_workspace_membership has_capability role_rank select_frames
    select_mapped_fingerprint_frames change_status update_issue_row write_status insert_notification
    mark_event_rejected occurred
second_grouped = record {
  event = second;
  workspace_id = 9;
  descriptor = grouped 3;
  symbolication = raw;
  symbolicated = refl;
  locked = refl;
  is_pending = refl;
  derived = refl;
}

abbrev issue_30 : IssueRow
issue_30 = record {
  id = 30;
  project_id = 1;
  fingerprint = 3;
  fingerprint_signature = codes "[]";
  type = exception;
  title = codes "Error";
  normalized_message = codes "boom";
  status = resolved;
  severity = error;
  assigned_to_user_id = none;
  first_seen_at = 100;
  last_seen_at = 100;
  resolved_at = some 2000;
  first_release = none;
  last_release = none;
  occurrence_count = 1;
  affected_session_count = 1;
  updated_at = 2000;
}

all_resolved_issues : all_resolved.issues ≡ issue_30 ∷ []
unfolding process_event insert_event update_issue_status lock_event_for_processing find
    issue_with_access find_issue_by_id get_event_for_symbolication lock_or_create_issue
    lock_issue_by_fingerprint insert_issue_if_absent record_occurrence notify_project_issue_update
    mark_event_processed persist_event_symbolication record_activity insert_issue_activity
    record_issue_occurrence record_issue_affected_session new_issue require_project_access
    require_workspace_capability require_workspace_membership has_capability role_rank select_frames
    select_mapped_fingerprint_frames change_status update_issue_row write_status insert_notification
    mark_event_rejected occurred
all_resolved_issues = refl

process_event_records_example : Recorded second 9 issue_30 all_resolved reopened
unfolding process_event insert_event update_issue_status lock_event_for_processing find
    issue_with_access find_issue_by_id get_event_for_symbolication lock_or_create_issue
    lock_issue_by_fingerprint insert_issue_if_absent record_occurrence notify_project_issue_update
    mark_event_processed persist_event_symbolication record_activity insert_issue_activity
    record_issue_occurrence record_issue_affected_session new_issue require_project_access
    require_workspace_capability require_workspace_membership has_capability role_rank select_frames
    select_mapped_fingerprint_frames change_status update_issue_row write_status insert_notification
    mark_event_rejected occurred
process_event_records_example =
    process_event_records unmapped by_payload 31 3000 2 all_resolved second_grouped
      all_resolved-Consistent issue_30 refl

process_event_creates_example :
    Created (new_event 1 (sent 1 7 100)) (grouped 3) 30 two_in first_done
unfolding insert_event process_event lock_event_for_processing find select_mapped_fingerprint_frames
process_event_creates_example =
    process_event_creates unmapped by_payload 30 1000 1 two_in
      (record {
        event = new_event 1 (sent 1 7 100);
        workspace_id = 9;
        descriptor = grouped 3;
        symbolication = raw;
        symbolicated = refl;
        locked = refl;
        is_pending = refl;
        derived = refl;
      })
      (reach-Consistent start two_in
        (next (next here (ingested 1 (sent 1 7 100) refl)) (ingested 2 (sent 2 7 50) refl))
        start-Consistent)
      refl refl

update_issue_status_lem_example :
    update_issue_status 5 4 30 investigating all_resolved
    ≡ status_answer 5 4 30 investigating all_resolved
        (issue_with_access all_resolved 4 30 issue_update_status)
update_issue_status_lem_example = update_issue_status_lem 5 4 30 investigating all_resolved

update_issue_assignee_lem_example :
    update_issue_assignee 5 4 30 (some 6) all_resolved
    ≡ assignee_answer 5 4 30
        (some 6)
        all_resolved
        (issue_with_access all_resolved 4 30 issue_assign)
update_issue_assignee_lem_example = update_issue_assignee_lem 5 4 30 (some 6) all_resolved

occurred_order_example :
    aggregates (
      occurred 2 50
        (some (codes "a"))
        true
        false
        (occurred 1 200 (some (codes "b")) false true issue_30))
    ≡ aggregates (
        occurred 1 200
          (some (codes "b"))
          false
          true
          (occurred 2 50 (some (codes "a")) true false issue_30))
occurred_order_example =
    occurred_order 1 2 200 50 (some (codes "b")) (some (codes "a")) false true true false issue_30
      (λ e. absurd (omega (arith, e)))

-- Another transaction commits the issue that this one is about to insert.
lock_or_create_issue_raced_example :
    let (issues', result) =
      lock_or_create_issue (issue_30 ∷ []) 40 5 (candidate second (grouped 3)) [] in
    (f : LockOrCreateResult) × (result ≡ some f)
    × (has_fingerprint 1 3 f.row ≡ true)
    × (find (has_fingerprint 1 3) issues' ≡ some f.row)
    × Distinct same_key issues'
lock_or_create_issue_raced_example =
    lock_or_create_issue_raced 40 5 (candidate second (grouped 3)) (issue_30 ∷ []) [] (tt, tt)
