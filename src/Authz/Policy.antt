-- ===== src/Authz/Policy.antt =====
-- Capabilities and the central policy (apps/api/src/authz/policy.ts).
use replay_bug.Common.{Bool, leb}
use replay_bug.Authz.Roles.{WorkspaceRole, viewer, member, admin, owner, role_rank}

pub data Capability : Type 0 where
  workspace_read : Capability
  workspace_update : Capability
  project_create : Capability
  project_read : Capability
  project_update : Capability
  project_delete : Capability
  environment_read : Capability
  environment_write : Capability
  origin_read : Capability
  origin_write : Capability
  key_read : Capability
  key_rotate : Capability
  project_manage_secret_tokens : Capability
  issue_read : Capability
  issue_update_status : Capability
  issue_assign : Capability
  issue_manage_tags : Capability
  issue_comment : Capability
  session_read : Capability
  notification_read_own : Capability
  reproduction_read : Capability
  reproduction_generate : Capability
  ai_analysis_read : Capability
  ai_analysis_request : Capability
  workspace_manage_invitations : Capability
  workspace_manage_members : Capability
  workspace_read_audit : Capability
  workspace_transfer_ownership : Capability
  workspace_delete : Capability
  project_update_retention : Capability

-- `CAPABILITY_MIN_ROLE`
pub capability_min_role : Capability → WorkspaceRole
capability_min_role workspace_read = viewer
capability_min_role workspace_update = owner
capability_min_role project_create = admin
capability_min_role project_read = viewer
capability_min_role project_update = admin
capability_min_role project_delete = admin
capability_min_role environment_read = viewer
capability_min_role environment_write = admin
capability_min_role origin_read = viewer
capability_min_role origin_write = admin
capability_min_role key_read = viewer
capability_min_role key_rotate = admin
capability_min_role project_manage_secret_tokens = admin
capability_min_role issue_read = viewer
capability_min_role issue_update_status = member
capability_min_role issue_assign = member
capability_min_role issue_manage_tags = member
capability_min_role issue_comment = member
capability_min_role session_read = viewer
capability_min_role notification_read_own = viewer
capability_min_role reproduction_read = viewer
capability_min_role reproduction_generate = member
capability_min_role ai_analysis_read = viewer
capability_min_role ai_analysis_request = member
capability_min_role workspace_manage_invitations = admin
capability_min_role workspace_manage_members = admin
capability_min_role workspace_read_audit = admin
capability_min_role workspace_transfer_ownership = owner
capability_min_role workspace_delete = owner
capability_min_role project_update_retention = admin

unfoldable pub has_capability : WorkspaceRole → Capability → Bool
unfolding role_rank capability_min_role
has_capability role capability = leb (role_rank (capability_min_role capability)) (role_rank role)

unfoldable pub can_read : WorkspaceRole → Bool
unfolding has_capability
can_read role = has_capability role workspace_read

unfoldable pub can_manage_projects : WorkspaceRole → Bool
unfolding has_capability
can_manage_projects role = has_capability role project_create

unfoldable pub can_manage_environments : WorkspaceRole → Bool
unfolding has_capability
can_manage_environments role = has_capability role environment_write

unfoldable pub can_manage_origins : WorkspaceRole → Bool
unfolding has_capability
can_manage_origins role = has_capability role origin_write

unfoldable pub can_rotate_keys : WorkspaceRole → Bool
unfolding has_capability
can_rotate_keys role = has_capability role key_rotate

unfoldable pub can_manage_secret_tokens : WorkspaceRole → Bool
unfolding has_capability
can_manage_secret_tokens role = has_capability role project_manage_secret_tokens

unfoldable pub can_read_issues : WorkspaceRole → Bool
unfolding has_capability
can_read_issues role = has_capability role issue_read

unfoldable pub can_update_issue_status : WorkspaceRole → Bool
unfolding has_capability
can_update_issue_status role = has_capability role issue_update_status

unfoldable pub can_assign_issues : WorkspaceRole → Bool
unfolding has_capability
can_assign_issues role = has_capability role issue_assign

unfoldable pub can_manage_issue_tags : WorkspaceRole → Bool
unfolding has_capability
can_manage_issue_tags role = has_capability role issue_manage_tags

unfoldable pub can_comment_on_issues : WorkspaceRole → Bool
unfolding has_capability
can_comment_on_issues role = has_capability role issue_comment

unfoldable pub can_read_sessions : WorkspaceRole → Bool
unfolding has_capability
can_read_sessions role = has_capability role session_read

unfoldable pub can_read_own_notifications : WorkspaceRole → Bool
unfolding has_capability
can_read_own_notifications role = has_capability role notification_read_own

unfoldable pub can_read_reproductions : WorkspaceRole → Bool
unfolding has_capability
can_read_reproductions role = has_capability role reproduction_read

unfoldable pub can_generate_reproductions : WorkspaceRole → Bool
unfolding has_capability
can_generate_reproductions role = has_capability role reproduction_generate

unfoldable pub can_read_ai_analysis : WorkspaceRole → Bool
unfolding has_capability
can_read_ai_analysis role = has_capability role ai_analysis_read

unfoldable pub can_request_ai_analysis : WorkspaceRole → Bool
unfolding has_capability
can_request_ai_analysis role = has_capability role ai_analysis_request

unfoldable pub can_manage_invitations : WorkspaceRole → Bool
unfolding has_capability
can_manage_invitations role = has_capability role workspace_manage_invitations

unfoldable pub can_manage_members : WorkspaceRole → Bool
unfolding has_capability
can_manage_members role = has_capability role workspace_manage_members

unfoldable pub can_read_audit : WorkspaceRole → Bool
unfolding has_capability
can_read_audit role = has_capability role workspace_read_audit

unfoldable pub can_transfer_ownership : WorkspaceRole → Bool
unfolding has_capability
can_transfer_ownership role = has_capability role workspace_transfer_ownership

unfoldable pub can_delete_workspace : WorkspaceRole → Bool
unfolding has_capability
can_delete_workspace role = has_capability role workspace_delete

unfoldable pub can_update_retention : WorkspaceRole → Bool
unfolding has_capability
can_update_retention role = has_capability role project_update_retention

unfoldable pub can_invite_members : WorkspaceRole → Bool
unfolding can_manage_invitations
can_invite_members role = can_manage_invitations role
