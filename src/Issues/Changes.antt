-- ===== src/Issues/Changes.antt =====
-- What a change of an issue's status writes (apps/api/src/services/issues.ts).
use replay_bug.Common.{
  ℕ, false, ◌==◌, ◌≡◌, refl, inl, inr, if◌then◌else◌, none, some, [], ◌∷◌, ◌++◌, map, arith,
  Bool-cases, Option-cases,
}
use replay_bug.Common.Rows.{find}
use replay_bug.Common.RowLaws.{find-at_same}
use replay_bug.Errors.{Result, ok, err, Result-cases}
use replay_bug.Authz.Policy.{Capability, issue_update_status}
use replay_bug.Authz.Guards.{
  MembershipView, ProjectView, require_workspace_membership, require_workspace_capability,
  require_project_access,
}
use replay_bug.Issues.Store.{
  IssueStatus, is_status, IssueRow, status_changed, issue_updated, Db, at_issue, find_issue_by_id,
  insert_issue_activity, notify_project_issue_update,
}
use replay_bug.Issues.Service.{
  membership_of, patched, status_patch, issue_with_access, update_issue_row, write_status,
  change_status, update_issue_status,
}

module _ {P E : Type 0} where
  -- Who may see an issue sees the row of its id.
  pub access-finds :
      (db : Db P E) (user_id issue_id : ℕ) (capability : Capability) (row : IssueRow)
      (m : MembershipView)
      → issue_with_access db user_id issue_id capability ≡ ok (row, m)
      → find_issue_by_id db.issues issue_id ≡ some row
  unfolding issue_with_access require_workspace_membership require_project_access
      require_workspace_capability
  access-finds db user_id issue_id capability row m h =
      elim (Option-cases (find_issue_by_id db.issues issue_id)) [
        | inl k ↦ absurd (ground arith)
        | inr (r, k) ↦
            elim (Option-cases (find (λ p. ProjectView.id p == r.project_id) db.projects)) [
              | inl l ↦ absurd (ground arith)
              | inr (p, l) ↦ elim (Option-cases (membership_of db p.workspace_id user_id)) [
                | inl n ↦ absurd (ground arith)
                | inr (v, n) ↦ ground arith
              ]
            ]
      ]

  -- The row that an update returns.
  pub update_issue_row_lem :
      (now issue_id : ℕ) (patch : IssueRow → IssueRow) (db : Db P E) (row : IssueRow)
      → ((i : IssueRow) → (patch i).id ≡ i.id)
      → find_issue_by_id db.issues issue_id ≡ some row
      → update_issue_row now issue_id patch db ≡ (
        record db { issues = map (at_issue issue_id (patched now patch)) db.issues },
        some (patched now patch row),
      )
  unfolding update_issue_row find_issue_by_id
  update_issue_row_lem now issue_id patch db row keeps there =
      rw
        (
          find-at_same (λ i. IssueRow.id i == issue_id) (patched now patch) (λ i. rw (keeps i) refl)
              db.issues,
          there,
        )
        refl

  -- The tables after a change of an issue's status.
  abbrev pub after_status : ℕ → ℕ → ℕ → IssueStatus → IssueRow → Db P E → Db P E
  after_status now user_id issue_id status row db = record db {
    issues = map (at_issue issue_id (patched now (status_patch now status))) db.issues;
    activity =
        db.activity
        ++ (record {
          issue_id = issue_id;
          actor_user_id = some user_id;
          activity = status_changed row.status status;
        }
            ∷ []);
    notified =
        db.notified
        ++ (record {
          type = issue_updated;
          project_id = row.project_id;
          issue_id = issue_id;
          event_id = none;
        }
            ∷ []);
  }

  -- What a request to change the status comes to, by what its access check returns.
  abbrev pub status_result :
      ℕ
      → ℕ
      → ℕ
      → IssueStatus
      → Db P E
      → Result (IssueRow × MembershipView)
      → Db P E × Result IssueRow
  status_result now user_id issue_id status db (err e) = (db, err e)
  status_result now user_id issue_id status db (ok (row, m)) =
      if is_status row.status status then (db, ok row) else (
        after_status now user_id issue_id status row db,
        ok (patched now (status_patch now status) row),
      )

  status_granted :
      (now user_id issue_id : ℕ) (status : IssueStatus) (db : Db P E) (row : IssueRow)
      → find_issue_by_id db.issues issue_id ≡ some row
      → is_status row.status status ≡ false
      → change_status now user_id issue_id status db
        ≡ ok (
          after_status now user_id issue_id status row db,
          patched now (status_patch now status) row,
        )
  unfolding change_status write_status insert_issue_activity notify_project_issue_update
  status_granted now user_id issue_id status db row there other =
      rw
        (
          there,
          other,
          update_issue_row_lem now issue_id (status_patch now status) db row (λ i. refl) there,
        )
        refl

  -- The request by its statements.
  pub update_issue_status_run :
      (now user_id issue_id : ℕ) (status : IssueStatus) (db : Db P E)
      → update_issue_status now user_id issue_id status db
        ≡ status_result now user_id issue_id status db
            (issue_with_access db user_id issue_id issue_update_status)
  unfolding update_issue_status
  update_issue_status_run now user_id issue_id status db =
      elim (Result-cases (issue_with_access db user_id issue_id issue_update_status)) [
        | inl (e, k) ↦ rw k refl
        | inr ((row, m), k) ↦ elim (Bool-cases (is_status row.status status)) [
          | inl same ↦ rw (k, same) refl
          | inr other ↦
              rw
                (
                  k,
                  other,
                  status_granted now user_id issue_id status db row
                      (access-finds db user_id issue_id issue_update_status row m k) other,
                )
                refl
        ]
      ]
