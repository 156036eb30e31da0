-- ===== src/Authz/Matrix.antt =====
-- The matrix `RBAC_MATRIX`, written out row by row (apps/api/src/authz/policy.ts).
use replay_bug.Common.{Bool, true, false}
use replay_bug.Authz.Roles.{WorkspaceRole, viewer, member, admin, owner}
use replay_bug.Authz.Policy.{
  Capability, workspace_read, workspace_update, project_create, project_read, project_update,
  project_delete, environment_read, environment_write, origin_read, origin_write, key_read,
  key_rotate, project_manage_secret_tokens, issue_read, issue_update_status, issue_assign,
  issue_manage_tags, issue_comment, session_read, notification_read_own, reproduction_read,
  reproduction_generate, ai_analysis_read, ai_analysis_request, workspace_manage_invitations,
  workspace_manage_members, workspace_read_audit, workspace_transfer_ownership, workspace_delete,
  project_update_retention,
}

owner_row : Capability → Bool
owner_row workspace_read = true
owner_row workspace_update = true
owner_row project_create = true
owner_row project_read = true
owner_row project_update = true
owner_row project_delete = true
owner_row environment_read = true
owner_row environment_write = true
owner_row origin_read = true
owner_row origin_write = true
owner_row key_read = true
owner_row key_rotate = true
owner_row project_manage_secret_tokens = true
owner_row issue_read = true
owner_row issue_update_status = true
owner_row issue_assign = true
owner_row issue_manage_tags = true
owner_row issue_comment = true
owner_row session_read = true
owner_row notification_read_own = true
owner_row reproduction_read = true
owner_row reproduction_generate = true
owner_row ai_analysis_read = true
owner_row ai_analysis_request = true
owner_row workspace_manage_invitations = true
owner_row workspace_manage_members = true
owner_row workspace_read_audit = true
owner_row workspace_transfer_ownership = true
owner_row workspace_delete = true
owner_row project_update_retention = true

admin_row : Capability → Bool
admin_row workspace_read = true
admin_row workspace_update = false
admin_row project_create = true
admin_row project_read = true
admin_row project_update = true
admin_row project_delete = true
admin_row environment_read = true
admin_row environment_write = true
admin_row origin_read = true
admin_row origin_write = true
admin_row key_read = true
admin_row key_rotate = true
admin_row project_manage_secret_tokens = true
admin_row issue_read = true
admin_row issue_update_status = true
admin_row issue_assign = true
admin_row issue_manage_tags = true
admin_row issue_comment = true
admin_row session_read = true
admin_row notification_read_own = true
admin_row reproduction_read = true
admin_row reproduction_generate = true
admin_row ai_analysis_read = true
admin_row ai_analysis_request = true
admin_row workspace_manage_invitations = true
admin_row workspace_manage_members = true
admin_row workspace_read_audit = true
admin_row workspace_transfer_ownership = false
admin_row workspace_delete = false
admin_row project_update_retention = true

member_row : Capability → Bool
member_row workspace_read = true
member_row workspace_update = false
member_row project_create = false
member_row project_read = true
member_row project_update = false
member_row project_delete = false
member_row environment_read = true
member_row environment_write = false
member_row origin_read = true
member_row origin_write = false
member_row key_read = true
member_row key_rotate = false
member_row project_manage_secret_tokens = false
member_row issue_read = true
member_row issue_update_status = true
member_row issue_assign = true
member_row issue_manage_tags = true
member_row issue_comment = true
member_row session_read = true
member_row notification_read_own = true
member_row reproduction_read = true
member_row reproduction_generate = true
member_row ai_analysis_read = true
member_row ai_analysis_request = true
member_row workspace_manage_invitations = false
member_row workspace_manage_members = false
member_row workspace_read_audit = false
member_row workspace_transfer_ownership = false
member_row workspace_delete = false
member_row project_update_retention = false

viewer_row : Capability → Bool
viewer_row workspace_read = true
viewer_row workspace_update = false
viewer_row project_create = false
viewer_row project_read = true
viewer_row project_update = false
viewer_row project_delete = false
viewer_row environment_read = true
viewer_row environment_write = false
viewer_row origin_read = true
viewer_row origin_write = false
viewer_row key_read = true
viewer_row key_rotate = false
viewer_row project_manage_secret_tokens = false
viewer_row issue_read = true
viewer_row issue_update_status = false
viewer_row issue_assign = false
viewer_row issue_manage_tags = false
viewer_row issue_comment = false
viewer_row session_read = true
viewer_row notification_read_own = true
viewer_row reproduction_read = true
viewer_row reproduction_generate = false
viewer_row ai_analysis_read = true
viewer_row ai_analysis_request = false
viewer_row workspace_manage_invitations = false
viewer_row workspace_manage_members = false
viewer_row workspace_read_audit = false
viewer_row workspace_transfer_ownership = false
viewer_row workspace_delete = false
viewer_row project_update_retention = false

unfoldable pub rbac_matrix : WorkspaceRole → Capability → Bool
unfolding owner_row admin_row member_row viewer_row
rbac_matrix owner = owner_row
rbac_matrix admin = admin_row
rbac_matrix member = member_row
rbac_matrix viewer = viewer_row
