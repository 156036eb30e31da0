-- ===== src/Issues/Assignments.antt =====
-- What an assignment of an issue writes (apps/api/src/services/issues.ts).
use replay_bug.Common.{
  ℕ, Bool, true, false, not, ◌==◌, ◌≡◌, refl, inl, inr, if◌then◌else◌, Option, none, some, List, [],
  ◌∷◌, ◌++◌, map, Bool-cases, append-nil, is_some,
}
use replay_bug.Common.Text.{Text, codes}
use replay_bug.Errors.{Result, ok, err, Result-cases, ensure, forbidden}
use replay_bug.Authz.Policy.{issue_assign}
use replay_bug.Authz.Guards.{MembershipView}
use replay_bug.Issues.Store.{
  IssueRow, Activity, assigned, unassigned, issue_assigned, NotificationRow, assignment_changed, Db,
  at_issue, find_issue_by_id, insert_issue_activity, insert_notification,
  notify_project_issue_update,
}
use replay_bug.Issues.Service.{
  same_user, membership_of, patched, assignee_patch, issue_with_access, require_assignee,
  record_assignment, write_assignee, change_assignee, update_issue_assignee,
}
use replay_bug.Issues.Changes.{access-finds, update_issue_row_lem}

-- The activity of an assignment.
abbrev pub assignment : Option ℕ → Activity
assignment none = unassigned
assignment (some user_id) = assigned user_id

-- The notification of an assignment to another user.
abbrev pub assignment_notice : ℕ → ℕ → ℕ → Option ℕ → ℕ → Text → List NotificationRow
assignment_notice actor_id workspace_id issue_id none project_id issue_title = []
assignment_notice actor_id workspace_id issue_id (some user_id) project_id issue_title =
    let notice : NotificationRow = record {
      user_id = user_id;
      workspace_id = workspace_id;
      project_id = project_id;
      issue_id = issue_id;
      type = issue_assigned;
      title = codes "Assigned: " ++ issue_title;
      body = codes "You were assigned to \"" ++ issue_title ++ codes "\".";
    } in
    if user_id == actor_id then [] else notice ∷ []

module _ {P E : Type 0} where
  abbrev pub may_have : Db P E → ℕ → Option ℕ → Bool
  may_have db workspace_id none = true
  may_have db workspace_id (some user_id) = is_some (membership_of db workspace_id user_id)

  record_assignment_lem :
      (actor_id workspace_id issue_id : ℕ) (assignee : Option ℕ) (row : IssueRow) (db : Db P E)
      → record_assignment actor_id workspace_id issue_id assignee row db ≡ (record db {
        activity =
            db.activity
            ++ (record {
              issue_id = issue_id;
              actor_user_id = some actor_id;
              activity = assignment assignee;
            }
                ∷ []);
        notifications =
            db.notifications
            ++ assignment_notice actor_id workspace_id issue_id assignee row.project_id row.title;
      })
  unfolding record_assignment insert_issue_activity insert_notification
  record_assignment_lem actor_id workspace_id issue_id none row db =
      rw (append-nil db.notifications) refl
  record_assignment_lem actor_id workspace_id issue_id (some user_id) row db =
      elim (Bool-cases (user_id == actor_id)) [
        | inl k ↦ rw (k, append-nil db.notifications) refl
        | inr k ↦ rw k refl
      ]

  -- The tables after an assignment.
  abbrev pub after_assignee : ℕ → ℕ → ℕ → ℕ → Option ℕ → IssueRow → Db P E → Db P E
  after_assignee now actor_id workspace_id issue_id assignee row db = record db {
    issues = map (at_issue issue_id (patched now (assignee_patch assignee))) db.issues;
    activity =
        db.activity
        ++ (record {
          issue_id = issue_id;
          actor_user_id = some actor_id;
          activity = assignment assignee;
        }
            ∷ []);
    notifications =
        db.notifications
        ++ assignment_notice actor_id workspace_id issue_id assignee row.project_id row.title;
    notified =
        db.notified
        ++ (record {
          type = assignment_changed;
          project_id = row.project_id;
          issue_id = issue_id;
          event_id = none;
        }
            ∷ []);
  }

  -- What a request to assign an issue comes to, by what its access check returns.
  abbrev pub assignee_result :
      ℕ → ℕ → ℕ → Option ℕ → Db P E → Result (IssueRow × MembershipView) → Db P E × Result IssueRow
  assignee_result now actor_id issue_id assignee db (err e) = (db, err e)
  assignee_result now actor_id issue_id assignee db (ok (row, m)) =
      if not (may_have db m.workspace_id assignee)
      then (db, err (forbidden "Assignee must be a workspace member"))
      else if same_user row.assigned_to_user_id assignee
      then (db, ok row)
      else (
        after_assignee now actor_id m.workspace_id issue_id assignee row db,
        ok (patched now (assignee_patch assignee) row),
      )

  assignee_granted :
      (now actor_id workspace_id issue_id : ℕ) (assignee : Option ℕ) (db : Db P E) (row : IssueRow)
      → find_issue_by_id db.issues issue_id ≡ some row
      → same_user row.assigned_to_user_id assignee ≡ false
      → change_assignee now actor_id workspace_id issue_id assignee db
        ≡ ok (
          after_assignee now actor_id workspace_id issue_id assignee row db,
          patched now (assignee_patch assignee) row,
        )
  unfolding change_assignee write_assignee notify_project_issue_update
  assignee_granted now actor_id workspace_id issue_id assignee db row there other =
      rw
        (
          there,
          other,
          update_issue_row_lem now issue_id (assignee_patch assignee) db row (λ i. refl) there,
          record_assignment_lem actor_id workspace_id issue_id assignee,
        )
        refl

  may_have_lem :
      (db : Db P E) (workspace_id : ℕ) (assignee : Option ℕ)
      → require_assignee db workspace_id assignee
        ≡ ensure
            (may_have db workspace_id assignee)
            (forbidden "Assignee must be a workspace member")
  may_have_lem db workspace_id none = refl
  may_have_lem db workspace_id (some user_id) = refl

  -- The request by its statements.
  pub update_issue_assignee_run :
      (now actor_id issue_id : ℕ) (assignee : Option ℕ) (db : Db P E)
      → update_issue_assignee now actor_id issue_id assignee db
        ≡ assignee_result now actor_id issue_id assignee db
            (issue_with_access db actor_id issue_id issue_assign)
  unfolding update_issue_assignee
  update_issue_assignee_run now actor_id issue_id assignee db =
      elim (Result-cases (issue_with_access db actor_id issue_id issue_assign)) [
        | inl (e, k) ↦ rw k refl
        | inr ((row, m), k) ↦ elim (Bool-cases (may_have db m.workspace_id assignee)) [
          | inl l ↦ elim (Bool-cases (same_user row.assigned_to_user_id assignee)) [
            | inl same ↦ rw (k, may_have_lem db m.workspace_id assignee, l, same) refl
            | inr other ↦
                rw
                  (
                    k,
                    may_have_lem db m.workspace_id assignee,
                    l,
                    other,
                    assignee_granted now actor_id m.workspace_id issue_id assignee db row
                        (access-finds db actor_id issue_id issue_assign row m k) other,
                  )
                  refl
          ]
          | inr l ↦ rw (k, may_have_lem db m.workspace_id assignee, l) refl
        ]
      ]
