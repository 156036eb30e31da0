-- ===== src/Authz/Access.antt =====
-- How the services authorize access to a project or an issue: the rows are found first, then the
-- caller's membership, then its capability (apps/api/src/services/projects.ts, ai-analyses.ts).
-- A table is a list of rows, and a `findBy...Id` the first row that has the id.
use Prim.Native.String.{String}
use replay_bug.Common.{ℕ, ◌==◌, ◌&&◌, Option, none, some, List}
unfoldable pub use replay_bug.Common.Rows.{find}
use replay_bug.Errors.{Result, ok, err, ◌>>=◌, ◌>>◌, not_found}
use replay_bug.Authz.Policy.{Capability, project_update}
use replay_bug.Authz.Guards.{
  MembershipView, ProjectView, require_workspace_membership, require_workspace_capability,
  require_project_access,
}

pub record IssueRef : Type 0 where
  pub id : ℕ
  pub project_id : ℕ

pub record Store : Type 0 where
  pub memberships : List MembershipView
  pub projects : List ProjectView
  pub issues : List IssueRef

unfoldable pub find_membership : Store → ℕ → ℕ → Option MembershipView
unfolding find
find_membership db workspace_id user_id =
    find (λ m. (m.workspace_id == workspace_id) && (m.user_id == user_id)) db.memberships

unfoldable pub find_project_by_id : Store → ℕ → Option ProjectView
unfolding find
find_project_by_id db project_id = find (λ p. p.id == project_id) db.projects

unfoldable pub find_issue_by_id : Store → ℕ → Option IssueRef
unfolding find
find_issue_by_id db issue_id = find (λ i. i.id == issue_id) db.issues

unfoldable pub membership_or_throw : Store → ℕ → ℕ → Result MembershipView
unfolding require_workspace_membership
membership_or_throw db workspace_id user_id =
    require_workspace_membership (find_membership db workspace_id user_id)

-- `if (row === undefined) throw notFound(...)`
abbrev pub found {ℓ} : {A : Type ℓ} → Option A → String → Result A
found none resource = err (not_found resource)
found (some row) resource = ok row

-- `getProjectById`; the row stands for its DTO.
unfoldable pub get_project_by_id : Store → ℕ → ℕ → Result ProjectView
unfolding require_project_access
get_project_by_id db user_id project_id = do
  project ← found (find_project_by_id db project_id) "Project"
  membership ←
      require_project_access (find_membership db project.workspace_id user_id) (some project)
  ok project

-- The checks of `updateProject`, before it reads the patch.
unfoldable pub update_project_access : Store → ℕ → ℕ → Result ProjectView
unfolding membership_or_throw require_project_access require_workspace_capability
update_project_access db user_id project_id = do
  project ← found (find_project_by_id db project_id) "Project"
  membership ← membership_or_throw db project.workspace_id user_id
  checked ← require_project_access (some membership) (some project)
  require_workspace_capability membership project_update
  ok project

-- `issueWithAccess`
unfoldable pub issue_with_access : Store → ℕ → ℕ → Capability → Result (IssueRef × MembershipView)
unfolding membership_or_throw require_project_access require_workspace_capability
issue_with_access db user_id issue_id capability = do
  issue ← found (find_issue_by_id db issue_id) "Issue"
  project ← found (find_project_by_id db issue.project_id) "Issue"
  membership ← membership_or_throw db project.workspace_id user_id
  checked ← require_project_access (some membership) (some project)
  require_workspace_capability membership capability
  ok (issue, membership)
