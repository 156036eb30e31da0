-- ===== src/Invitations/Store.antt =====
-- The tables that invitations read and write, and the queries on them
-- (packages/db/src/repositories/invitations.ts, memberships.ts, users.ts, audit.ts). Times are
-- milliseconds; ids are only compared.
use replay_bug.Common.{
  ℕ, Bool, true, false, not, ◌==◌, ◌&&◌, ◌||◌, ltb, leb, if◌then◌else◌, is_some, Option, none, some,
  List, [], ◌∷◌, ◌++◌, map, any, filter, take, length,
}
use mathlib.Core.Option
use replay_bug.Common.Text.{Text, text_eq, trim}
use replay_bug.Common.Rows.{find, at}
use replay_bug.Common.Sort.{sort_by}
use replay_bug.Errors.{Result, ok, ensure, ◌>>=◌, ◌>>◌, internal_error}
use replay_bug.Authz.Roles.{WorkspaceMemberRole}
use replay_bug.Governance.Store.{MembershipRow, is_key}
use replay_bug.Invitations.Token.{
  is_address, validate_invitation_token_hash, validate_invitation_token_prefix,
}

pub record InvitationRow : Type 0 where
  pub id : ℕ
  pub workspace_id : ℕ
  pub email : Text
  pub role : WorkspaceMemberRole
  pub token_hash : Text
  pub token_prefix : Text
  pub expires_at : ℕ
  pub accepted_at : Option ℕ
  pub revoked_at : Option ℕ
  pub created_by_user_id : ℕ
  pub created_at : ℕ

pub record UserRow : Type 0 where
  pub id : ℕ
  pub email : Text

pub data InvitationAction : Type 0 where
  invitation_created : InvitationAction
  invitation_revoked : InvitationAction
  invitation_accepted : InvitationAction

-- An audit row with what `auditMetadata` makes.
pub record InvitationAuditRow : Type 0 where
  pub workspace_id : ℕ
  pub actor_user_id : ℕ
  pub action : InvitationAction
  pub invitation_id : ℕ
  pub email : Text
  pub role : WorkspaceMemberRole

pub record InvitationDb : Type 0 where
  pub workspaces : List ℕ
  pub users : List UserRow
  pub memberships : List MembershipRow
  pub invitations : List InvitationRow
  pub audit : List InvitationAuditRow

-- `isNull(acceptedAt)` and `isNull(revokedAt)`
abbrev pub is_open : InvitationRow → Bool
is_open i = not (is_some i.accepted_at) && not (is_some i.revoked_at)

abbrev pub is_for : ℕ → Text → InvitationRow → Bool
is_for workspace_id email i = (i.workspace_id == workspace_id) && text_eq i.email email

abbrev pub is_invitation : ℕ → InvitationRow → Bool
is_invitation id i = i.id == id

-- A pending invitation of an id that is valid at a time.
abbrev pub is_valid : ℕ → ℕ → InvitationRow → Bool
is_valid id now i = is_invitation id i && is_open i && ltb now i.expires_at

unfoldable pub lock_membership : InvitationDb → ℕ → ℕ → Option MembershipRow
lock_membership db workspace_id user_id = find (is_key workspace_id user_id) db.memberships

unfoldable pub lock_user_by_id : InvitationDb → ℕ → Option UserRow
lock_user_by_id db id = find (λ u. UserRow.id u == id) db.users

unfoldable pub find_user_by_email : InvitationDb → Text → Option UserRow
find_user_by_email db email = find (λ u. text_eq (UserRow.email u) email) db.users

unfoldable pub lock_invitation_by_id : InvitationDb → ℕ → Option InvitationRow
lock_invitation_by_id db id = find (is_invitation id) db.invitations

-- `orderBy(desc(createdAt), asc(id))`
abbrev pub newest_first : InvitationRow → InvitationRow → Bool
newest_first a b =
    ltb b.created_at a.created_at || ((a.created_at == b.created_at) && leb a.id b.id)

abbrev pub max_invitation_token_candidates : ℕ
max_invitation_token_candidates = 20

unfoldable pub lock_invitation_candidates_by_token_prefix :
    InvitationDb → Text → Result (List InvitationRow)
lock_invitation_candidates_by_token_prefix db token_prefix = do
  ensure (validate_invitation_token_prefix token_prefix) internal_error
  ok (
      take max_invitation_token_candidates
        (sort_by newest_first (filter (λ i. text_eq i.token_prefix token_prefix) db.invitations)))

-- Whether there is a row: the callers test nothing else. The assertion on the address is left out:
-- `insertInvitation` makes it as well.
unfoldable pub lock_active_invitation_by_workspace_email : InvitationDb → ℕ → Text → ℕ → Bool
lock_active_invitation_by_workspace_email db workspace_id email now =
    any (λ i. is_for workspace_id email i && is_open i && ltb now i.expires_at) db.invitations

-- `assertNormalizedInvitationEmail`
unfoldable pub is_normalized_email : (Text → Text) → Text → Bool
is_normalized_email lower_case email =
    not (ltb (length email) 3)
    && not (ltb 320 (length email))
    && text_eq email (trim email)
    && text_eq email (lower_case email)
    && is_address false email

-- The unique hash, and the unique index on the workspace and the address of open invitations.
abbrev pub conflicts : InvitationRow → InvitationRow → Bool
conflicts row i =
    text_eq i.token_hash row.token_hash || (is_open i && is_for row.workspace_id row.email i)

-- No row is a unique violation.
unfoldable pub insert_invitation :
    (Text → Text) → InvitationRow → InvitationDb → Result (InvitationDb × Option InvitationRow)
insert_invitation lower_case row db = do
  ensure (is_normalized_email lower_case row.email) internal_error
  ensure (validate_invitation_token_hash row.token_hash) internal_error
  ensure (validate_invitation_token_prefix row.token_prefix) internal_error
  ok (
      if any (conflicts row) db.invitations
      then (db, none)
      else (record db { invitations = db.invitations ++ (row ∷ []) }, some row))

abbrev pub accepted_row : ℕ → InvitationRow → InvitationRow
accepted_row now i = record i { accepted_at = some now }

abbrev pub revoked_row : ℕ → InvitationRow → InvitationRow
revoked_row now i = record i { revoked_at = some now }

unfoldable pub mark_invitation_accepted : ℕ → ℕ → InvitationDb → InvitationDb × Option InvitationRow
mark_invitation_accepted id now db = (
  record db { invitations = map (at (is_valid id now) (accepted_row now)) db.invitations },
  Option.map (accepted_row now) (find (is_valid id now) db.invitations),
)

unfoldable pub mark_invitation_revoked : ℕ → ℕ → InvitationDb → InvitationDb × Option InvitationRow
mark_invitation_revoked id now db = (
  record db { invitations = map (at (is_valid id now) (revoked_row now)) db.invitations },
  Option.map (revoked_row now) (find (is_valid id now) db.invitations),
)

-- `ExpiredInvitationCleanupOptions`, with the time.
pub record ExpiredInvitationCleanupOptions : Type 0 where
  pub workspace_id : Option ℕ
  pub email : Option Text
  pub now : ℕ
  pub limit : ℕ

abbrev pub max_expired_invitation_retire_limit : ℕ
max_expired_invitation_retire_limit = 100

-- `lte(expiresAt, now)` of an open invitation.
abbrev pub is_expired : ℕ → InvitationRow → Bool
is_expired now i = is_open i && leb i.expires_at now

abbrev pub in_scope : Option ℕ → Option Text → InvitationRow → Bool
in_scope none none i = true
in_scope (some workspace_id) none i = i.workspace_id == workspace_id
in_scope none (some email) i = text_eq i.email email
in_scope (some workspace_id) (some email) i = is_for workspace_id email i

-- `orderBy(asc(expiresAt), asc(id))`
abbrev pub expired_first : InvitationRow → InvitationRow → Bool
expired_first a b =
    ltb a.expires_at b.expires_at || ((a.expires_at == b.expires_at) && leb a.id b.id)

-- `locked` says which rows other transactions hold: they are skipped.
unfoldable pub lock_expired_pending_invitations :
    (ℕ → Bool) → ExpiredInvitationCleanupOptions → InvitationDb → Result (List InvitationRow)
lock_expired_pending_invitations locked options db = do
  ensure (leb 1 options.limit && leb options.limit max_expired_invitation_retire_limit)
      internal_error
  ok (
      take options.limit (
        sort_by expired_first (
          filter
            (λ i.
              is_expired options.now i
              && in_scope options.workspace_id options.email i
              && not (locked i.id))
            db.invitations)))

-- The condition of the update of one candidate.
abbrev pub to_retire : ℕ → InvitationRow → InvitationRow → Bool
to_retire now c i = is_invitation c.id i && is_expired now i

abbrev pub with_retired : ℕ → Option InvitationRow → List InvitationRow → List InvitationRow
with_retired now none retired = retired
with_retired now (some row) retired = revoked_row now row ∷ retired

-- The loop over the candidates; the rows that were updated are returned.
unfoldable pub retire_each :
    ℕ → List InvitationRow → List InvitationRow → List InvitationRow × List InvitationRow
retire_each now [] rows = (rows, [])
retire_each now (c ∷ cs) rows =
    let (rows', retired) = retire_each now cs (map (at (to_retire now c) (revoked_row now)) rows) in
    (rows', with_retired now (find (to_retire now c) rows) retired)

unfoldable pub retire_expired_pending_invitations :
    (ℕ → Bool)
    → ExpiredInvitationCleanupOptions
    → InvitationDb
    → Result (InvitationDb × List InvitationRow)
retire_expired_pending_invitations locked options db = do
  candidates ← lock_expired_pending_invitations locked options db
  let (rows, retired) = retire_each options.now candidates db.invitations
  ok (record db { invitations = rows }, retired)

-- The unique key on workspace and user is a violation: no row.
unfoldable pub insert_membership :
    MembershipRow → InvitationDb → InvitationDb × Option MembershipRow
insert_membership row db =
    if any (is_key row.workspace_id row.user_id) db.memberships
    then (db, none)
    else (record db { memberships = db.memberships ++ (row ∷ []) }, some row)

unfoldable pub insert_audit : ℕ → InvitationAction → InvitationRow → InvitationDb → InvitationDb
insert_audit actor_user_id action i db =
    let row : InvitationAuditRow = record {
      workspace_id = i.workspace_id;
      actor_user_id = actor_user_id;
      action = action;
      invitation_id = i.id;
      email = i.email;
      role = i.role;
    } in
    record db { audit = db.audit ++ (row ∷ []) }
