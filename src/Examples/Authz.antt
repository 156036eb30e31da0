-- ===== src/Examples/Authz.antt =====
-- Roles, controls and access at concrete inputs (apps/api/src/authz/policy.ts, guards.ts, and
-- apps/web/lib/rbac.ts).
use replay_bug.Common.{◌≡◌, refl, [], ◌∷◌}
use replay_bug.Errors.{err, not_found}
use replay_bug.Authz.Roles as Roles
use replay_bug.Authz.Roles.{
  WorkspaceRole, viewer, member, admin, owner, as_viewer, as_member, as_admin, to_role, role_rank,
  is_workspace_role_at_least,
}
use replay_bug.Authz.Policy.{has_capability, issue_assign, issue_comment}
use replay_bug.Authz.Matrix.{rbac_matrix}
use replay_bug.Authz.Guards.{MembershipView, ProjectView}
use replay_bug.Authz.Web as Web
use replay_bug.Authz.Access.{
  IssueRef, Store, find, find_membership, find_project_by_id, find_issue_by_id,
  update_project_access, issue_with_access,
}
use replay_bug.Authz.Laws.{rbac_matrix-eq-has_capability}
use replay_bug.Authz.WebLaws.{Controls, web_controls-eq-has_capability}
use replay_bug.Authz.AccessLaws.{access_messages_differ}

rbac_matrix-eq-has_capability_example :
    rbac_matrix member issue_assign ≡ has_capability member issue_assign
rbac_matrix-eq-has_capability_example = rbac_matrix-eq-has_capability member issue_assign

web_controls-eq-has_capability_example :
    Controls admin (λ a b. a ≡ b)
    × (Web.can_leave_workspace admin ≡ Roles.can_leave_workspace admin)
web_controls-eq-has_capability_example = web_controls-eq-has_capability admin

abbrev member_3 : MembershipView
member_3 = record { workspace_id = 7; user_id = 3; role = member }

abbrev project_20 : ProjectView
project_20 = record { id = 20; workspace_id = 7 }

abbrev issue_30 : IssueRef
issue_30 = record { id = 30; project_id = 20 }

abbrev store : Store
store = record { memberships = member_3 ∷ []; projects = project_20 ∷ []; issues = issue_30 ∷ [] }

access_messages_differ_example :
    (issue_with_access store 9 30 issue_comment ≡ err (not_found "Workspace"))
    × (issue_with_access store 9 31 issue_comment ≡ err (not_found "Issue"))
    × (update_project_access store 9 20 ≡ err (not_found "Workspace"))
    × (update_project_access store 9 31 ≡ err (not_found "Project"))
unfolding find find_project_by_id find_membership find_issue_by_id
access_messages_differ_example =
    access_messages_differ store 9 30 31 issue_comment issue_30 project_20 refl refl refl refl refl
