-- ===== src/Issues/Regressions.antt =====
-- What an occurrence of a known or of a new issue does to it, and whom it notifies
-- (apps/worker/src/processors/process-event.ts, packages/db/src/repositories/issues.ts).
use replay_bug.Common.{
  ℕ, ◌+◌, min, max, true, false, not, ◌==◌, ◌≡◌, refl, ap, ◌∙◌, Option, none, some, List, [], ◌∷◌,
  ◌++◌, any, arith, if◌then◌else◌, ==_refl, append-nil,
}
use replay_bug.Common.Text.{Text}
use replay_bug.Common.Rows.{find}
use replay_bug.Common.RowLaws.{
  any-weaker, find-at_same, find-at_other, find-key_of, find-append_here, none-of_any,
  find-append_skip,
}
use replay_bug.Issues.Store.{
  is_relation, IssueRow, EventRow, Db, is_status, resolved, open_issue, has_fingerprint,
  IssueActivityRow, Activity, regression_detected, created, ProjectUpdateNotification,
  ProjectUpdateType, issue_regressed, issue_updated, issue_created, occurred, new_issue,
}
use replay_bug.Issues.Process.{
  SymbolicationResult, IssueDescriptor, candidate, NormalizableStackFrame, Derived, process_event,
}
use replay_bug.Issues.Tables.{notice_for, is_new_session}
use replay_bug.Issues.Consistent.{of_issue, has_id, same_id, Consistent}
use replay_bug.Issues.Settled.{no_occurrences, no_relations}
use replay_bug.Issues.Grouping.{Grouped, grouped_existing, grouped_new}

abbrev pub announcement : ProjectUpdateType → ℕ → ℕ → ℕ → ProjectUpdateNotification
announcement type project_id issue_id event_id = record {
  type = type;
  project_id = project_id;
  issue_id = issue_id;
  event_id = some event_id;
}

abbrev pub entry : ℕ → Activity → IssueActivityRow
entry issue_id a = record { issue_id = issue_id; actor_user_id = none; activity = a }

-- What a pending event does to the issue of its fingerprint.
pub record Recorded {P : Type 0} (event : EventRow P SymbolicationResult) (workspace_id : ℕ)
    (row : IssueRow) (db db' : Db P SymbolicationResult) : Type 0 where
  pub after : IssueRow
  pub found : find (has_id row.id) db'.issues ≡ some after
  pub status : after.status ≡ (if is_status row.status resolved then open_issue else row.status)
  pub resolved_at :
      after.resolved_at ≡ (if is_status row.status resolved then none else row.resolved_at)
  pub occurrences : after.occurrence_count ≡ row.occurrence_count + 1
  pub first_seen : after.first_seen_at ≡ min row.first_seen_at event.occurred_at
  pub last_seen : after.last_seen_at ≡ max row.last_seen_at event.occurred_at
  pub assignee : after.assigned_to_user_id ≡ row.assigned_to_user_id
  pub others :
      (i : ℕ) → (row.id == i) ≡ false → find (has_id i) db'.issues ≡ find (has_id i) db.issues
  pub activity :
      db'.activity
      ≡ db.activity
        ++ (if is_status row.status resolved
            then entry row.id (regression_detected event.id) ∷ []
            else [])
  pub notifications :
      db'.notifications
      ≡ db.notifications
        ++ (if is_status row.status resolved
            then notice_for event workspace_id row row.assigned_to_user_id
            else [])
  pub announced :
      db'.notified
      ≡ db.notified
        ++ (announcement
              (if is_status row.status resolved then issue_regressed else issue_updated)
              event.project_id
              row.id
              event.id
            ∷ [])

-- What a pending event does where its fingerprint has no issue.
pub record Created {P : Type 0} (event : EventRow P SymbolicationResult)
    (descriptor : IssueDescriptor) (new_id : ℕ) (db db' : Db P SymbolicationResult) : Type 0 where
  pub after : IssueRow
  pub found : find (has_id new_id) db'.issues ≡ some after
  pub project : after.project_id ≡ event.project_id
  pub grouped : after.fingerprint ≡ descriptor.fingerprint
  pub described : after.title ≡ descriptor.title
  pub status : after.status ≡ open_issue
  pub occurrences : after.occurrence_count ≡ 1
  pub sessions : after.affected_session_count ≡ 1
  pub first_seen : after.first_seen_at ≡ event.occurred_at
  pub last_seen : after.last_seen_at ≡ event.occurred_at
  pub others :
      (i : ℕ) → (new_id == i) ≡ false → find (has_id i) db'.issues ≡ find (has_id i) db.issues
  pub activity : db'.activity ≡ db.activity ++ (entry new_id (created event.id) ∷ [])
  pub notifications : db'.notifications ≡ db.notifications
  pub announced :
      db'.notified
      ≡ db.notified ++ (announcement issue_created event.project_id new_id event.id ∷ [])

module _ {P : Type 0} (symbolicate : ℕ → Option Text → P → Option SymbolicationResult)
    (derive : ℕ → Text → P → Option (List NormalizableStackFrame) → Derived)
    (new_id now event_id : ℕ) (db : Db P SymbolicationResult)
    (g : Grouped symbolicate derive event_id db) (c : Consistent db) where
  -- A pending event that is derived the fingerprint of a known issue is one more occurrence of it,
  -- in consistent tables. If the issue was resolved, it is open again, with an entry of activity
  -- and a notification of its assignee, if it has one; otherwise its status stays and nobody is
  -- notified. Other issues stay as they are, and dashboards are told which of the two it was.
  pub process_event_records :
      (row : IssueRow)
      → find (has_fingerprint g.event.project_id g.descriptor.fingerprint) db.issues ≡ some row
      → Recorded g.event g.workspace_id row db
          (process_event symbolicate derive new_id now event_id db).0
  unfolding occurred
  process_event_records row there =
      let patch =
        occurred now g.event.occurred_at g.event.release (is_new_session db.affected row.id g.event)
          (is_status row.status resolved) in
      let known = find-key_of same_id _ db.issues row (==_refl row.id) c.issue_ids there in
      rw (grouped_existing symbolicate derive new_id now event_id db g row there) (record {
        after = patch row;
        found = rw (find-at_same (has_id row.id) patch (λ x. refl) db.issues, known) refl;
        status = refl;
        resolved_at = refl;
        occurrences = refl;
        first_seen = refl;
        last_seen = refl;
        assignee = refl;
        others = λ i other.
            find-at_other (has_id row.id) patch (has_id i) (λ x k. (ground arith, ground arith))
              db.issues;
        activity = refl;
        notifications = refl;
        announced = refl;
      })

  -- The issue that a pending event creates where its fingerprint has none: it has the event's
  -- project and the fingerprint and title that were derived, is open, and is seen once and in one
  -- session, at the event's time. Other issues stay as they are, nobody is notified, and there
  -- is one entry of activity and one announcement, if the id that it gets is unused.
  pub process_event_creates :
      find (has_fingerprint g.event.project_id g.descriptor.fingerprint) db.issues ≡ none
      → any (has_id new_id) db.issues ≡ false
      → Created g.event g.descriptor new_id db
          (process_event symbolicate derive new_id now event_id db).0
  unfolding occurred new_issue
  process_event_creates absent unused =
      let row = new_issue new_id now (candidate g.event g.descriptor) in
      let new_session = is_new_session db.affected new_id g.event in
      let patch = occurred now g.event.occurred_at g.event.release new_session false in
      let nothing = no_occurrences db.issues db.affected new_id unused db.events c.related in
      let first_session : is_new_session db.affected new_id g.event ≡ true = ap not (
        any-weaker (of_issue new_id) (is_relation new_id g.event.telemetry_session_id)
          (λ a k. ground arith) db.affected
          (no_relations new_id db.events db.affected nothing c.caused)) in
      rw (grouped_new symbolicate derive new_id now event_id db g absent) (record {
        after = patch row;
        found =
            rw
              (
                find-at_same (has_id new_id) patch (λ x. refl) (db.issues ++ (row ∷ [])),
                find-append_here (has_id new_id) db.issues row (none-of_any _ _ unused)
                    (==_refl new_id),
              )
              refl;
        project = refl;
        grouped = refl;
        described = refl;
        status = refl;
        occurrences = refl;
        sessions = rw first_session refl;
        first_seen = omega arith;
        last_seen = omega arith;
        others = λ i other.
            find-at_other (has_id new_id) patch (has_id i) (λ x k. (ground arith, ground arith))
              (db.issues ++ (row ∷ []))
            ∙ find-append_skip (has_id i) db.issues row other;
        activity = refl;
        notifications = append-nil db.notifications;
        announced = refl;
      })
