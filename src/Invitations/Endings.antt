-- ===== src/Invitations/Endings.antt =====
-- How invitations end: the requests that revoke and accept them, and the sweep of those that have
-- expired (apps/api/src/services/invitations.ts, apps/worker/src/cleanup/invitations.ts).
use replay_bug.Common.{
  ℕ, Bool, not, ◌==◌, ◌||◌, leb, if◌then◌else◌, is_some, Option, none, some, List, [], ◌∷◌, any,
}
use replay_bug.Common.Text.{Text, text_eq}
use replay_bug.Errors.{
  Result, ok, err, ensure, ◌>>=◌, ◌>>◌, transacted, not_found, conflict, already_workspace_member,
  invitation_invalid, invitation_already_used,
}
use replay_bug.Authz.Roles.{to_role}
use replay_bug.Governance.Store.{MembershipRow}
use replay_bug.Invitations.Token.{
  ParsedInvitationToken, parse_invitation_token, verify_invitation_token,
  normalize_invitation_email,
}
use replay_bug.Invitations.Store.{
  InvitationRow, invitation_revoked, invitation_accepted, InvitationDb, lock_membership,
  lock_user_by_id, lock_invitation_by_id, lock_invitation_candidates_by_token_prefix,
  mark_invitation_accepted, mark_invitation_revoked, retire_expired_pending_invitations,
  insert_membership, insert_audit,
}
use replay_bug.Invitations.Service.{or_throw, require_invitation_management}

abbrev pub after_revoke :
    ℕ
    → InvitationRow
    → InvitationDb
    → InvitationDb × Option InvitationRow
    → InvitationDb × InvitationRow
after_revoke actor_id invitation db (db', none) = (db, invitation)
after_revoke actor_id invitation db (db', some revoked) =
    (insert_audit actor_id invitation_revoked revoked db', revoked)

-- The transaction of `revokeWorkspaceInvitation`.
unfoldable pub revoke_body : ℕ → ℕ → ℕ → ℕ → InvitationDb → Result (InvitationDb × InvitationRow)
revoke_body now actor_id workspace_id invitation_id db = do
  invitation ← or_throw (err (not_found "Invitation")) (lock_invitation_by_id db invitation_id)
  ensure (invitation.workspace_id == workspace_id) (not_found "Invitation")
  ensure (not (is_some invitation.accepted_at)) (conflict "Accepted invitations cannot be revoked")
  if is_some invitation.revoked_at || leb invitation.expires_at now
      then ok (db, invitation)
      else ok (after_revoke actor_id invitation db (mark_invitation_revoked invitation.id now db))

unfoldable pub revoke_workspace_invitation :
    ℕ → ℕ → ℕ → ℕ → InvitationDb → InvitationDb × Result InvitationRow
revoke_workspace_invitation now actor_id workspace_id invitation_id db = transacted db (do
  actor ← require_invitation_management db workspace_id actor_id
  revoke_body now actor_id workspace_id invitation_id db)

-- The later candidate wins.
abbrev pub or_last : Option InvitationRow → Bool → InvitationRow → Option InvitationRow
or_last (some later) verified c = some later
or_last none verified c = if verified then some c else none

-- The last of the candidates that the token is verified for.
abbrev pub last_verified : (Text → Text) → Text → List InvitationRow → Option InvitationRow
last_verified sha256 token [] = none
last_verified sha256 token (c ∷ cs) =
    or_last (last_verified sha256 token cs) (verify_invitation_token sha256 token c.token_hash) c

-- The membership that the acceptance inserts, its audit entry, and what is returned.
unfoldable pub admit :
    ℕ
    → ℕ
    → ℕ
    → InvitationRow
    → InvitationDb
    → Result (InvitationDb × (InvitationRow × MembershipRow))
admit new_id now actor_id matched db =
    let (db1, inserted) =
      insert_membership
        (record {
          id = new_id;
          workspace_id = matched.workspace_id;
          user_id = actor_id;
          role = to_role matched.role;
        })
        db in
    let (db2, marked) = mark_invitation_accepted matched.id now db1 in
    do
      membership ← or_throw (err already_workspace_member) inserted
      accepted ← or_throw (err invitation_already_used) marked
      ok (insert_audit actor_id invitation_accepted accepted db2, (accepted, membership))

-- The transaction of `acceptWorkspaceInvitation`, for a token that was parsed and an address that
-- was normalized.
unfoldable pub accept_body :
    (Text → Text)
    → (Text → Text)
    → ℕ
    → ℕ
    → ℕ
    → Text
    → ParsedInvitationToken
    → InvitationDb
    → Result (InvitationDb × (InvitationRow × MembershipRow))
accept_body sha256 lower_case new_id now actor_id email parsed db = do
  candidates ← lock_invitation_candidates_by_token_prefix db parsed.token_prefix
  matched ← or_throw (err invitation_invalid) (last_verified sha256 parsed.token candidates)
  ensure (not (is_some matched.accepted_at)) invitation_already_used
  ensure
      (not (
        is_some matched.revoked_at
        || leb matched.expires_at now
        || not (text_eq email matched.email)))
      invitation_invalid
  ensure (any (λ w. w == matched.workspace_id) db.workspaces) invitation_invalid
  user ← or_throw (err invitation_invalid) (lock_user_by_id db actor_id)
  own ← or_throw (err invitation_invalid) (normalize_invitation_email lower_case user.email)
  ensure (text_eq own email) invitation_invalid
  ensure (not (is_some (lock_membership db matched.workspace_id actor_id))) already_workspace_member
  admit new_id now actor_id matched db

unfoldable pub accept_workspace_invitation :
    (Text → Text)
    → (Text → Text)
    → ℕ
    → ℕ
    → ℕ
    → Text
    → Text
    → InvitationDb
    → InvitationDb × Result (InvitationRow × MembershipRow)
accept_workspace_invitation sha256 lower_case new_id now actor_id actor_email token db =
    transacted db (do
      parsed ← or_throw (err invitation_invalid) (parse_invitation_token token)
      email ← or_throw (err invitation_invalid) (normalize_invitation_email lower_case actor_email)
      accept_body sha256 lower_case new_id now actor_id email parsed db)

-- `runExpiredInvitationCleanup`: one batch of any workspace and address.
unfoldable pub run_expired_invitation_cleanup :
    (ℕ → Bool) → ℕ → ℕ → InvitationDb → InvitationDb × Result (List InvitationRow)
run_expired_invitation_cleanup locked batch_size now db = transacted db (
    retire_expired_pending_invitations locked
      (record { workspace_id = none; email = none; now = now; limit = batch_size }) db)
