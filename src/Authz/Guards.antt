-- ===== src/Authz/Guards.antt =====
-- Authorization guards (apps/api/src/authz/guards.ts). `null` and `undefined` are both `none`;
-- ids are opaque and compared for equality only, so they are numbers here.
use Prim.Native.String.{String}
use replay_bug.Common.{ℕ, ◌==◌, if◌then◌else◌, Option, none, some, List, any}
use replay_bug.Errors.{Result, ok, err, ensure, auth_required, forbidden, not_found}
use replay_bug.Authz.Roles.{WorkspaceRole, is_role}
use replay_bug.Authz.Policy.{Capability, has_capability}

pub record SessionUser : Type 0 where
  pub id : ℕ
  pub email : String

pub record MembershipView : Type 0 where
  pub workspace_id : ℕ
  pub user_id : ℕ
  pub role : WorkspaceRole

pub record ProjectView : Type 0 where
  pub id : ℕ
  pub workspace_id : ℕ

unfoldable pub require_authenticated_user : Option SessionUser → Result SessionUser
require_authenticated_user none = err auth_required
require_authenticated_user (some user) = ok user

unfoldable pub require_workspace_membership : Option MembershipView → Result MembershipView
require_workspace_membership none = err (not_found "Workspace")
require_workspace_membership (some membership) = ok membership

unfoldable pub require_workspace_capability : MembershipView → Capability → Result (Unit {0})
require_workspace_capability membership capability =
    ensure (has_capability membership.role capability) (forbidden "Insufficient workspace role")

unfoldable pub require_workspace_role : MembershipView → List WorkspaceRole → Result (Unit {0})
require_workspace_role membership allowed =
    ensure (any (is_role membership.role) allowed) (forbidden "Insufficient workspace role")

unfoldable pub require_project_access :
    Option MembershipView → Option ProjectView → Result MembershipView
require_project_access none project = err (not_found "Project")
require_project_access (some membership) none = err (not_found "Project")
require_project_access (some membership) (some project) =
    if membership.workspace_id == project.workspace_id
    then ok membership
    else err (not_found "Project")
