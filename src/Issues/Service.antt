-- ===== src/Issues/Service.antt =====
-- The changes of an issue's status and assignee (apps/api/src/services/issues.ts). The row stands
-- for the DTO that is returned.
use replay_bug.Common.{
  ℕ, Bool, true, false, not, ◌==◌, ◌&&◌, if◌then◌else◌, Option, none, some, ◌++◌, map, is_some,
}
use replay_bug.Common.Text.{codes}
use replay_bug.Common.Rows.{find}
use replay_bug.Errors.{Result, ok, err, ◌>>=◌, ◌>>◌, ensure, forbidden}
use replay_bug.Authz.Policy.{Capability, issue_update_status, issue_assign}
use replay_bug.Authz.Guards.{
  MembershipView, ProjectView, require_workspace_membership, require_workspace_capability,
  require_project_access,
}
use replay_bug.Authz.Access.{found}
use replay_bug.Issues.Store.{
  IssueStatus, resolved, is_status, IssueRow, status_changed, assigned, unassigned, issue_assigned,
  ProjectUpdateType, issue_updated, assignment_changed, Db, at_issue, find_issue_by_id,
  insert_issue_activity, insert_notification, notify_project_issue_update,
}

-- `a === b` on ids that may be null.
abbrev pub same_user : Option ℕ → Option ℕ → Bool
same_user none none = true
same_user (some a) (some b) = a == b
same_user _ _ = false

-- `updateIssueRow` with a patch, and with `updatedAt`.
abbrev pub patched : ℕ → (IssueRow → IssueRow) → IssueRow → IssueRow
patched now patch i = record (patch i) { updated_at = now }

-- `{ status, resolvedAt }`
abbrev pub status_patch : ℕ → IssueStatus → IssueRow → IssueRow
status_patch now status i = record i {
  status = status;
  resolved_at = (if is_status status resolved then some now else none);
}

abbrev pub assignee_patch : Option ℕ → IssueRow → IssueRow
assignee_patch assignee i = record i { assigned_to_user_id = assignee }

module _ {P E : Type 0} where
  abbrev pub membership_of : Db P E → ℕ → ℕ → Option MembershipView
  membership_of db workspace_id user_id =
      find (λ m. (MembershipView.workspace_id m == workspace_id) && (m.user_id == user_id))
        db.memberships

  -- What a transaction wrote is dropped if it throws.
  abbrev pub commit : Db P E → Result (Db P E × IssueRow) → Db P E × Result IssueRow
  commit db (ok (db', row)) = (db', ok row)
  commit db (err e) = (db, err e)

  unfoldable pub issue_with_access :
      Db P E → ℕ → ℕ → Capability → Result (IssueRow × MembershipView)
  issue_with_access db user_id issue_id capability = do
    row ← found (find_issue_by_id db.issues issue_id) "Issue"
    project ← found (find (λ p. ProjectView.id p == row.project_id) db.projects) "Issue"
    membership ← require_workspace_membership (membership_of db project.workspace_id user_id)
    checked ← require_project_access (some membership) (some project)
    require_workspace_capability membership capability
    ok (row, membership)

  unfoldable pub update_issue_row :
      ℕ → ℕ → (IssueRow → IssueRow) → Db P E → Db P E × Option IssueRow
  update_issue_row now issue_id patch db =
      let rows = map (at_issue issue_id (patched now patch)) db.issues in
      (record db { issues = rows }, find_issue_by_id rows issue_id)

  abbrev pub notify_issue : ProjectUpdateType → ℕ → ℕ → Db P E → Db P E
  notify_issue type project_id issue_id =
      notify_project_issue_update
        (record { type = type; project_id = project_id; issue_id = issue_id; event_id = none })

  unfoldable pub write_status :
      ℕ → ℕ → ℕ → IssueStatus → IssueRow → Db P E → Result (Db P E × IssueRow)
  write_status now user_id issue_id status locked db =
      let (db1, updated) = update_issue_row now issue_id (status_patch now status) db in
      do
        row ← found updated "Issue"
        let db2 =
            insert_issue_activity issue_id (some user_id) (status_changed locked.status status) db1
        ok (notify_issue issue_updated row.project_id issue_id db2, row)

  -- The transaction of `updateIssueStatus`.
  unfoldable pub change_status : ℕ → ℕ → ℕ → IssueStatus → Db P E → Result (Db P E × IssueRow)
  change_status now user_id issue_id status db = do
    locked ← found (find_issue_by_id db.issues issue_id) "Issue"
    if is_status locked.status status
        then ok (db, locked)
        else write_status now user_id issue_id status locked db

  unfoldable pub update_issue_status : ℕ → ℕ → ℕ → IssueStatus → Db P E → Db P E × Result IssueRow
  update_issue_status now user_id issue_id status db = commit db (do
    (row, membership) ← issue_with_access db user_id issue_id issue_update_status
    if is_status row.status status
        then ok (db, row)
        else change_status now user_id issue_id status db)

  -- The assignee must be a member of the workspace.
  abbrev pub require_assignee : Db P E → ℕ → Option ℕ → Result (Unit {0})
  require_assignee db workspace_id none = ok tt
  require_assignee db workspace_id (some user_id) =
      ensure (is_some (membership_of db workspace_id user_id))
        (forbidden "Assignee must be a workspace member")

  -- The activity of an assignment, and the notification of another user than the actor.
  unfoldable pub record_assignment : ℕ → ℕ → ℕ → Option ℕ → IssueRow → Db P E → Db P E
  record_assignment actor_id workspace_id issue_id none row db =
      insert_issue_activity issue_id (some actor_id) unassigned db
  record_assignment actor_id workspace_id issue_id (some user_id) row db =
      let db1 = insert_issue_activity issue_id (some actor_id) (assigned user_id) db in
      let notice =
        insert_notification
          (record {
            user_id = user_id;
            workspace_id = workspace_id;
            project_id = row.project_id;
            issue_id = issue_id;
            type = issue_assigned;
            title = codes "Assigned: " ++ row.title;
            body = codes "You were assigned to \"" ++ row.title ++ codes "\".";
          })
          db1 in
      if not (user_id == actor_id) then notice else db1

  unfoldable pub write_assignee : ℕ → ℕ → ℕ → ℕ → Option ℕ → Db P E → Result (Db P E × IssueRow)
  write_assignee now actor_id workspace_id issue_id assignee db =
      let (db1, updated) = update_issue_row now issue_id (assignee_patch assignee) db in
      do
        row ← found updated "Issue"
        let db2 = record_assignment actor_id workspace_id issue_id assignee row db1
        ok (notify_issue assignment_changed row.project_id issue_id db2, row)

  -- The transaction of `updateIssueAssignee`.
  unfoldable pub change_assignee : ℕ → ℕ → ℕ → ℕ → Option ℕ → Db P E → Result (Db P E × IssueRow)
  change_assignee now actor_id workspace_id issue_id assignee db = do
    locked ← found (find_issue_by_id db.issues issue_id) "Issue"
    if same_user locked.assigned_to_user_id assignee
        then ok (db, locked)
        else write_assignee now actor_id workspace_id issue_id assignee db

  unfoldable pub update_issue_assignee : ℕ → ℕ → ℕ → Option ℕ → Db P E → Db P E × Result IssueRow
  update_issue_assignee now actor_id issue_id assignee db = commit db (do
    (row, membership) ← issue_with_access db actor_id issue_id issue_assign
    require_assignee db membership.workspace_id assignee
    if same_user row.assigned_to_user_id assignee
        then ok (db, row)
        else change_assignee now actor_id membership.workspace_id issue_id assignee db)
