-- ===== src/Issues/Requests.antt =====
-- The requests that change an issue's status or assignee keep the tables consistent
-- (apps/api/src/services/issues.ts).
use replay_bug.Common.{ℕ, ◌==◌, ◌≡◌, refl, inl, inr, Option, List, map, arith, Bool-cases, is_some}
use replay_bug.Common.Rows.{All-imp, All-map}
use replay_bug.Common.RowLaws.{Distinct-map, any-map}
use replay_bug.Errors.{Result, ok, err}
use replay_bug.Authz.Guards.{MembershipView}
use replay_bug.Authz.Policy.{issue_update_status, issue_assign}
use replay_bug.Issues.Store.{
  IssueStatus, resolved, is_status, IssueRow, EventRow, IssueAffectedSessionRow, IssueActivityRow,
  NotificationRow, ProjectUpdateNotification, Db, at_issue,
}
use replay_bug.Issues.Process.{SymbolicationResult}
use replay_bug.Issues.Service.{
  same_user, patched, status_patch, assignee_patch, issue_with_access, update_issue_status,
  update_issue_assignee,
}
use replay_bug.Issues.Consistent.{has_id, same_id, same_key, IssueOk, Related, Consistent}
use replay_bug.Issues.Changes.{update_issue_status_run, status_result}
use replay_bug.Issues.Assignments.{update_issue_assignee_run, assignee_result, may_have}

-- A patch that leaves the keys and the aggregates of an issue.
pub record Harmless (patch : IssueRow → IssueRow) : Type 0 where
  pub id : (i : IssueRow) → (patch i).id ≡ i.id
  pub project : (i : IssueRow) → (patch i).project_id ≡ i.project_id
  pub group : (i : IssueRow) → (patch i).fingerprint ≡ i.fingerprint
  pub occurrences : (i : IssueRow) → (patch i).occurrence_count ≡ i.occurrence_count
  pub sessions : (i : IssueRow) → (patch i).affected_session_count ≡ i.affected_session_count
  pub first : (i : IssueRow) → (patch i).first_seen_at ≡ i.first_seen_at
  pub last : (i : IssueRow) → (patch i).last_seen_at ≡ i.last_seen_at
  pub lifecycle :
      (i : IssueRow)
      → is_some i.resolved_at ≡ is_status i.status resolved
      → is_some (patch i).resolved_at ≡ is_status (patch i).status resolved

module _ {P : Type 0} (patch : IssueRow → IssueRow) (h : Harmless patch) where
  IssueOk-patch :
      (events : List (EventRow P SymbolicationResult)) (affected : List IssueAffectedSessionRow)
      (i : IssueRow)
      → IssueOk events affected i
      → IssueOk events affected (patch i)
  IssueOk-patch events affected i k =
      let t = k.tallied in
      record {
        tallied = record {
          counted = rw (h.id i, h.occurrences i) t.counted;
          sessions = rw (h.id i, h.sessions i) t.sessions;
          seen = rw (h.id i, h.first i, h.last i, h.project i, h.group i) t.seen;
          lifecycle = h.lifecycle i t.lifecycle;
        };
        first = rw (h.id i, h.first i) k.first;
        last = rw (h.id i, h.last i) k.last;
      }

  pub patched-Consistent :
      (db : Db P SymbolicationResult)
      → Consistent db
      → Consistent (record db { issues = map patch db.issues })
  patched-Consistent db c = record {
    event_ids = c.event_ids;
    issue_ids = Distinct-map same_id patch (λ i j. rw (h.id i, h.id j) refl) db.issues c.issue_ids;
    issue_keys =
        Distinct-map same_key patch
          (λ i j. rw (h.project i, h.group i, h.project j, h.group j) refl) db.issues c.issue_keys;
    relation_keys = c.relation_keys;
    issues_ok = All-map _ _ patch (IssueOk-patch db.events db.affected) db.issues c.issues_ok;
    related =
        All-imp (Related db.issues db.affected) _
          (λ e q i k.
            let (a, b) = q i k in
            (rw (any-map (has_id i) patch (λ x. rw (h.id x) refl) db.issues) a, b))
          db.events c.related;
    caused = c.caused;
  }

field_kept :
    {A : Type 0} (field : IssueRow → A) (issue_id : ℕ) (patch : IssueRow → IssueRow)
    → ((i : IssueRow) → field (patch i) ≡ field i)
    → (i : IssueRow) → field (at_issue issue_id patch i) ≡ field i
field_kept field issue_id patch k i = elim (Bool-cases (i.id == issue_id)) [
  | inl e ↦ rw e (k i)
  | inr e ↦ rw e refl
]

-- A harmless patch of one row is harmless.
at_issue-Harmless :
    (issue_id : ℕ) (patch : IssueRow → IssueRow)
    → Harmless patch
    → Harmless (at_issue issue_id patch)
at_issue-Harmless issue_id patch h = record {
  id = field_kept (λ i. IssueRow.id i) issue_id patch h.id;
  project = field_kept (λ i. IssueRow.project_id i) issue_id patch h.project;
  group = field_kept (λ i. IssueRow.fingerprint i) issue_id patch h.group;
  occurrences = field_kept (λ i. IssueRow.occurrence_count i) issue_id patch h.occurrences;
  sessions = field_kept (λ i. IssueRow.affected_session_count i) issue_id patch h.sessions;
  first = field_kept (λ i. IssueRow.first_seen_at i) issue_id patch h.first;
  last = field_kept (λ i. IssueRow.last_seen_at i) issue_id patch h.last;
  lifecycle = λ i k. elim (Bool-cases (i.id == issue_id)) [
    | inl e ↦ rw e (h.lifecycle i k)
    | inr e ↦ rw e k
  ];
}

status-Harmless :
    (now : ℕ) (status : IssueStatus) → Harmless (patched now (status_patch now status))
status-Harmless now status = record {
  id = λ i. refl;
  project = λ i. refl;
  group = λ i. refl;
  occurrences = λ i. refl;
  sessions = λ i. refl;
  first = λ i. refl;
  last = λ i. refl;
  lifecycle = λ i k. ground arith;
}

assignee-Harmless :
    (now : ℕ) (assignee : Option ℕ) → Harmless (patched now (assignee_patch assignee))
assignee-Harmless now assignee = record {
  id = λ i. refl;
  project = λ i. refl;
  group = λ i. refl;
  occurrences = λ i. refl;
  sessions = λ i. refl;
  first = λ i. refl;
  last = λ i. refl;
  lifecycle = λ i k. k;
}

-- Consistency reads neither activities, notifications nor announcements.
Consistent-elsewhere :
    {P : Type 0} (db : Db P SymbolicationResult) (activity : List IssueActivityRow)
    (notifications : List NotificationRow) (notified : List ProjectUpdateNotification)
    → Consistent db
    → Consistent
        (record db { activity = activity; notifications = notifications; notified = notified })
Consistent-elsewhere db activity notifications notified c = record {
  event_ids = c.event_ids;
  issue_ids = c.issue_ids;
  issue_keys = c.issue_keys;
  relation_keys = c.relation_keys;
  issues_ok = c.issues_ok;
  related = c.related;
  caused = c.caused;
}

module _ {P : Type 0} (now actor_id issue_id : ℕ) (db : Db P SymbolicationResult)
    (c : Consistent db) where
  status_result-Consistent :
      (status : IssueStatus) (a : Result (IssueRow × MembershipView))
      → Consistent (status_result now actor_id issue_id status db a).0
  status_result-Consistent status (err e) = c
  status_result-Consistent status (ok (row, m)) = elim (Bool-cases (is_status row.status status)) [
    | inl k ↦ rw k c
    | inr k ↦
        let p = at_issue-Harmless issue_id _ (status-Harmless now status) in
        rw k (Consistent-elsewhere _ _ db.notifications _ (patched-Consistent _ p db c))
  ]

  pub update_issue_status-Consistent :
      (status : IssueStatus) → Consistent (update_issue_status now actor_id issue_id status db).0
  update_issue_status-Consistent status =
      rw (update_issue_status_run now actor_id issue_id status db) (
        status_result-Consistent status
          (issue_with_access db actor_id issue_id issue_update_status))

  assignee_result-Consistent :
      (assignee : Option ℕ) (a : Result (IssueRow × MembershipView))
      → Consistent (assignee_result now actor_id issue_id assignee db a).0
  assignee_result-Consistent assignee (err e) = c
  assignee_result-Consistent assignee (ok (row, m)) =
      elim (Bool-cases (may_have db m.workspace_id assignee)) [
        | inr l ↦ rw l c
        | inl l ↦ elim (Bool-cases (same_user row.assigned_to_user_id assignee)) [
          | inl k ↦ rw (l, k) c
          | inr k ↦
              let p = at_issue-Harmless issue_id _ (assignee-Harmless now assignee) in
              rw (l, k) (Consistent-elsewhere _ _ _ _ (patched-Consistent _ p db c))
        ]
      ]

  pub update_issue_assignee-Consistent :
      (assignee : Option ℕ) → Consistent (update_issue_assignee now actor_id issue_id assignee db).0
  update_issue_assignee-Consistent assignee =
      rw (update_issue_assignee_run now actor_id issue_id assignee db)
        (assignee_result-Consistent assignee (issue_with_access db actor_id issue_id issue_assign))
