-- ===== src/Issues/Requested.antt =====
-- What requests to change an issue's status or assignee come to, written out
-- (apps/api/src/services/issues.ts, packages/db/src/repositories/issues.ts).
use replay_bug.Common.{
  ℕ, not, ◌==◌, ◌≡◌, refl, ap, ◌∙◌, inl, inr, Bool-cases, if◌then◌else◌, Option, none, some, List,
  [], ◌∷◌, ◌++◌, map,
}
use mathlib.Core.Path.{ap₂}
use replay_bug.Errors.{Result, ok, err, forbidden}
use replay_bug.Authz.Policy.{issue_update_status, issue_assign}
use replay_bug.Authz.Guards.{MembershipView}
use replay_bug.Issues.Store.{
  IssueStatus, open_issue, investigating, ignored, at_issue, resolved, is_status, IssueRow,
  status_changed, issue_updated, assignment_changed, Db,
}
use replay_bug.Issues.Service.{
  patched, status_patch, assignee_patch, same_user, issue_with_access, update_issue_status,
  update_issue_assignee,
}
use replay_bug.Issues.Changes.{status_result, after_status, update_issue_status_run}
use replay_bug.Issues.Assignments.{
  assignment, assignment_notice, may_have, after_assignee, assignee_result,
  update_issue_assignee_run,
}

-- Only a resolved issue has a time of resolution.
abbrev pub resolution : ℕ → IssueStatus → Option ℕ
resolution now resolved = some now
resolution now _ = none

-- The issue with another status, or another assignee; the rest of its row stays.
abbrev pub with_status : ℕ → IssueStatus → IssueRow → IssueRow
with_status now status i = record i {
  status = status;
  resolved_at = resolution now status;
  updated_at = now;
}

abbrev pub with_assignee : ℕ → Option ℕ → IssueRow → IssueRow
with_assignee now assignee i = record i { assigned_to_user_id = assignee; updated_at = now }

-- The rows of a table, of which the one with an id is changed.
abbrev pub changing : ℕ → (IssueRow → IssueRow) → List IssueRow → List IssueRow
changing issue_id f [] = []
changing issue_id f (i ∷ is) = (if i.id == issue_id then f i else i) ∷ changing issue_id f is

changing_lem :
    (issue_id : ℕ) (f g : IssueRow → IssueRow)
    → ((i : IssueRow) → f i ≡ g i)
    → (is : List IssueRow) → map (at_issue issue_id f) is ≡ changing issue_id g is
changing_lem issue_id f g h [] = refl
changing_lem issue_id f g h (i ∷ is) = rw (h i, changing_lem issue_id f g h is) refl

status_patch_lem :
    (now : ℕ) (status : IssueStatus) (i : IssueRow)
    → patched now (status_patch now status) i ≡ with_status now status i
status_patch_lem now open_issue i = refl
status_patch_lem now investigating i = refl
status_patch_lem now resolved i = refl
status_patch_lem now ignored i = refl

module _ {P E : Type 0} where
  -- What a request to change the status comes to, by what its access check returns.
  abbrev pub status_answer :
      ℕ
      → ℕ
      → ℕ
      → IssueStatus
      → Db P E
      → Result (IssueRow × MembershipView)
      → Db P E × Result IssueRow
  status_answer now user_id issue_id status db (err e) = (db, err e)
  status_answer now user_id issue_id status db (ok (row, m)) =
      if is_status row.status status then (db, ok row) else (
        record db {
          issues = changing issue_id (with_status now status) db.issues;
          activity =
              db.activity
              ++ (record {
                issue_id = issue_id;
                actor_user_id = some user_id;
                activity = status_changed row.status status;
              }
                  ∷ []);
          notified =
              db.notified
              ++ (record {
                type = issue_updated;
                project_id = row.project_id;
                issue_id = issue_id;
                event_id = none;
              }
                  ∷ []);
        },
        ok (with_status now status row),
      )

  -- What a request to assign an issue comes to, by what its access check returns.
  abbrev pub assignee_answer :
      ℕ → ℕ → ℕ → Option ℕ → Db P E → Result (IssueRow × MembershipView) → Db P E × Result IssueRow
  assignee_answer now actor_id issue_id assignee db (err e) = (db, err e)
  assignee_answer now actor_id issue_id assignee db (ok (row, m)) =
      if not (may_have db m.workspace_id assignee)
      then (db, err (forbidden "Assignee must be a workspace member"))
      else if same_user row.assigned_to_user_id assignee
      then (db, ok row)
      else (
        record db {
          issues = changing issue_id (with_assignee now assignee) db.issues;
          activity =
              db.activity
              ++ (record {
                issue_id = issue_id;
                actor_user_id = some actor_id;
                activity = assignment assignee;
              }
                  ∷ []);
          notifications =
              db.notifications
              ++ assignment_notice actor_id m.workspace_id issue_id assignee row.project_id
                  row.title;
          notified =
              db.notified
              ++ (record {
                type = assignment_changed;
                project_id = row.project_id;
                issue_id = issue_id;
                event_id = none;
              }
                  ∷ []);
        },
        ok (with_assignee now assignee row),
      )

  status_result_lem :
      (now user_id issue_id : ℕ) (status : IssueStatus) (db : Db P E)
      (r : Result (IssueRow × MembershipView))
      → status_result now user_id issue_id status db r
        ≡ status_answer now user_id issue_id status db r
  status_result_lem now user_id issue_id status db (err e) = refl
  status_result_lem now user_id issue_id status db (ok (row, m)) =
      let rows =
        changing_lem issue_id (patched now (status_patch now status)) (with_status now status)
          (status_patch_lem now status) db.issues in
      elim (Bool-cases (is_status row.status status)) [
        | inl k ↦ rw k refl
        | inr k ↦ rw k (
            ap₂
              (λ is r.
                (record (after_status now user_id issue_id status row db) { issues = is }, ok r))
              rows (status_patch_lem now status row))
      ]

  assignee_result_lem :
      (now actor_id issue_id : ℕ) (assignee : Option ℕ) (db : Db P E)
      (r : Result (IssueRow × MembershipView))
      → assignee_result now actor_id issue_id assignee db r
        ≡ assignee_answer now actor_id issue_id assignee db r
  assignee_result_lem now actor_id issue_id assignee db (err e) = refl
  assignee_result_lem now actor_id issue_id assignee db (ok (row, m)) =
      let rows =
        changing_lem issue_id (patched now (assignee_patch assignee)) (with_assignee now assignee)
          (λ i. refl) db.issues in
      elim (Bool-cases (may_have db m.workspace_id assignee)) [
        | inr k ↦ rw k refl
        | inl k ↦ elim (Bool-cases (same_user row.assigned_to_user_id assignee)) [
          | inl l ↦ rw (k, l) refl
          | inr l ↦
              rw (k, l)
                (ap
                  (λ is. (
                    record (after_assignee now actor_id m.workspace_id issue_id assignee row db) {
                      issues = is;
                    },
                    ok (with_assignee now assignee row),
                  ))
                  rows)
        ]
      ]

  -- A request to change an issue's status is answered with the error of its access check, or with
  -- the issue as it is if it has the status already, and then nothing changes. Otherwise the
  -- issue of that id alone gets the status, a time of resolution exactly if the status is
  -- "resolved", one entry of activity with the old and the new status, and one announcement.
  pub update_issue_status_lem :
      (now user_id issue_id : ℕ) (status : IssueStatus) (db : Db P E)
      → update_issue_status now user_id issue_id status db
        ≡ status_answer now user_id issue_id status db
            (issue_with_access db user_id issue_id issue_update_status)
  update_issue_status_lem now user_id issue_id status db =
      update_issue_status_run now user_id issue_id status db
      ∙ status_result_lem now user_id issue_id status db
          (issue_with_access db user_id issue_id issue_update_status)

  -- A request to assign an issue is answered with the error of its access check; with a refusal, if
  -- the assignee is no member of the workspace; or with the issue as it is, if it has the assignee
  -- already; and then nothing changes. Otherwise the issue of that id alone gets the assignee, one
  -- entry of activity, one announcement, and a notification of the assignee unless that is the
  -- actor.
  pub update_issue_assignee_lem :
      (now actor_id issue_id : ℕ) (assignee : Option ℕ) (db : Db P E)
      → update_issue_assignee now actor_id issue_id assignee db
        ≡ assignee_answer now actor_id issue_id assignee db
            (issue_with_access db actor_id issue_id issue_assign)
  update_issue_assignee_lem now actor_id issue_id assignee db =
      update_issue_assignee_run now actor_id issue_id assignee db
      ∙ assignee_result_lem now actor_id issue_id assignee db
          (issue_with_access db actor_id issue_id issue_assign)
