-- ===== src/Invitations/Service.antt =====
-- The request that creates an invitation (apps/api/src/services/invitations.ts). Rows stand for
-- their DTOs. Statements after an insert that met a unique violation are modelled as if they ran.
use replay_bug.Common.{
  ℕ, zero, suc, ◌+◌, Bool, true, false, not, ◌==◌, ◌&&◌, ◌||◌, if◌then◌else◌, is_some, Option, none,
  some, List,
}
use replay_bug.Common.Text.{Text}
use replay_bug.Errors.{
  Result, ok, err, ensure, ◌>>=◌, ◌>>◌, transacted, internal_error, forbidden, validation_error,
  conflict, already_workspace_member, active_invitation_exists,
}
use replay_bug.Authz.Roles.{
  WorkspaceRole, owner, admin, is_role, is_member_or_viewer, WorkspaceMemberRole, to_role,
}
use replay_bug.Authz.Policy.{workspace_manage_invitations}
use replay_bug.Authz.Guards.{
  MembershipView, require_workspace_membership, require_workspace_capability,
}
use replay_bug.Governance.Store.{MembershipRow}
use replay_bug.Invitations.Token.{
  generate_invitation_token, GeneratedInvitationToken, normalize_invitation_email,
  validate_invitation_role,
}
use replay_bug.Invitations.Store.{
  InvitationRow, UserRow, invitation_created, InvitationDb, lock_membership, lock_user_by_id,
  find_user_by_email, lock_active_invitation_by_workspace_email, insert_invitation,
  retire_expired_pending_invitations, insert_audit,
}

-- `role === "member" || role === "viewer"` of the actor excludes it.
unfoldable pub can_invite_invitation_role : WorkspaceRole → WorkspaceRole → Bool
can_invite_invitation_role actor invited =
    if is_role invited owner || is_member_or_viewer actor
    then false
    else if is_role actor owner
    then true
    else is_role actor admin && is_member_or_viewer invited

-- `x === undefined` throws.
abbrev pub or_throw {ℓ} : {A : Type ℓ} → Result A → Option A → Result A
or_throw e none = e
or_throw e (some a) = ok a

abbrev pub view_of : Option MembershipRow → Option MembershipView
view_of none = none
view_of (some m) =
    some (record { workspace_id = m.workspace_id; user_id = m.user_id; role = m.role })

unfoldable pub require_invitation_management : InvitationDb → ℕ → ℕ → Result MembershipView
require_invitation_management db workspace_id user_id = do
  membership ← require_workspace_membership (view_of (lock_membership db workspace_id user_id))
  require_workspace_capability membership workspace_manage_invitations
  ok membership

-- The address belongs to no member of the workspace.
abbrev pub require_no_member : InvitationDb → ℕ → Option UserRow → Result (Unit {0})
require_no_member db workspace_id none = ok tt
require_no_member db workspace_id (some user) = do
  target ← or_throw (err already_workspace_member) (lock_user_by_id db user.id)
  ensure (not (is_some (lock_membership db workspace_id target.id))) already_workspace_member

-- What creating an invitation is given from outside: SHA-256, lower case, the random bytes of each
-- attempt, the id that the database gives, and the time.
pub record Sources : Type 0 where
  pub sha256 : Text → Text
  pub lower_case : Text → Text
  pub prefix_bytes : ℕ → List ℕ
  pub secret_bytes : ℕ → List ℕ
  pub new_id : ℕ
  pub now : ℕ

abbrev pub row_of :
    Sources → ℕ → ℕ → Text → WorkspaceMemberRole → GeneratedInvitationToken → Text → InvitationRow
row_of sources actor_id workspace_id email role generated token_hash = record {
  id = sources.new_id;
  workspace_id = workspace_id;
  email = email;
  role = role;
  token_hash = token_hash;
  token_prefix = generated.token_prefix;
  expires_at = generated.expires_at;
  accepted_at = none;
  revoked_at = none;
  created_by_user_id = actor_id;
  created_at = sources.now;
}

-- What follows an insert: the row, or the next attempt.
abbrev pub after_insert :
    (InvitationDb → Result (InvitationDb × (InvitationRow × Text)))
    → ℕ
    → ℕ
    → Text
    → ℕ
    → Text
    → InvitationDb × Option InvitationRow
    → Result (InvitationDb × (InvitationRow × Text))
after_insert again left workspace_id email now token (db, some row) = ok (db, (row, token))
after_insert again left workspace_id email now token (db, none) = do
  ensure (not (lock_active_invitation_by_workspace_email db workspace_id email now))
      active_invitation_exists
  ensure (not (left == 0)) (conflict "Unable to create workspace invitation")
  again db

-- The attempts that are left, from the given one on: a violation by another active invitation, or
-- of the last attempt, is an error.
unfoldable pub insert_attempts :
    Sources
    → ℕ
    → ℕ
    → Text
    → WorkspaceMemberRole
    → ℕ
    → ℕ
    → InvitationDb
    → Result (InvitationDb × (InvitationRow × Text))
insert_attempts sources actor_id workspace_id email role attempt zero db = err internal_error
insert_attempts sources actor_id workspace_id email role attempt (suc left) db =
    let generated =
      generate_invitation_token sources.sha256 (sources.prefix_bytes attempt)
        (sources.secret_bytes attempt) sources.now in
    let again = insert_attempts sources actor_id workspace_id email role (attempt + 1) left in
    do
      token_hash ← or_throw (err internal_error) generated.token_hash
      inserted ←
          insert_invitation sources.lower_case
            (row_of sources actor_id workspace_id email role generated token_hash) db
      after_insert again left workspace_id email sources.now generated.token inserted

-- The transaction of `createWorkspaceInvitation`.
unfoldable pub create_body :
    Sources
    → (ℕ → Bool)
    → ℕ
    → ℕ
    → Text
    → WorkspaceMemberRole
    → InvitationDb
    → Result (InvitationDb × (InvitationRow × Text))
create_body sources locked actor_id workspace_id email role db = do
  actor ← require_invitation_management db workspace_id actor_id
  (db1, retired) ←
      retire_expired_pending_invitations locked
        (record {
          workspace_id = some workspace_id;
          email = some email;
          now = sources.now;
          limit = 20;
        })
        db
  require_no_member db1 workspace_id (find_user_by_email db1 email)
  ensure (not (lock_active_invitation_by_workspace_email db1 workspace_id email sources.now))
      active_invitation_exists
  (db2, (row, token)) ← insert_attempts sources actor_id workspace_id email role 0 3 db1
  ok (insert_audit actor_id invitation_created row db2, (row, token))

-- Neither an address nor a role that is invalid is accepted. The row and the token are returned.
unfoldable pub create_workspace_invitation :
    Sources
    → (ℕ → Bool)
    → ℕ
    → ℕ
    → Text
    → Text
    → InvitationDb
    → InvitationDb × Result (InvitationRow × Text)
create_workspace_invitation sources locked actor_id workspace_id email role db = transacted db (do
  actor ← require_invitation_management db workspace_id actor_id
  address ←
      or_throw (err (validation_error "Invitation email has an invalid format"))
        (normalize_invitation_email sources.lower_case email)
  granted ←
      or_throw (err (validation_error "Invitation role must be admin, member, or viewer"))
        (validate_invitation_role role)
  ensure (can_invite_invitation_role actor.role (to_role granted))
      (forbidden "Insufficient workspace role")
  create_body sources locked actor_id workspace_id address granted db)
