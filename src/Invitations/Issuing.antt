-- ===== src/Invitations/Issuing.antt =====
-- What a successful creation of an invitation means, for the invitation and the tables
-- (apps/api/src/services/invitations.ts).
use replay_bug.Common.{
  ℕ, ◌+◌, Bool, true, ltb, ◌≡◌, refl, ap, ◌∙◌, sym, subst, inl, inr, none, some, any, arith,
  Option-cases, List, [], ◌∷◌, ◌++◌,
}
use replay_bug.Common.Text.{Text}
use replay_bug.Common.Rows.{find}
use replay_bug.Errors.{ok, ensure, ensure-eq-ok, ◌>>=◌, ◌>>◌, forbidden, through}
use replay_bug.Authz.Roles.{WorkspaceRole, WorkspaceMemberRole, to_role, role_rank}
use replay_bug.Authz.Policy.{workspace_manage_invitations, has_capability}
use replay_bug.Authz.Guards.{
  MembershipView, require_workspace_membership, require_workspace_capability,
}
use replay_bug.Governance.Store.{MembershipRow, is_key}
use replay_bug.Invitations.Token.{
  hash_invitation_token, normalize_invitation_email, validate_invitation_role,
  generate_invitation_token, invitation_ttl_ms, default_invitation_expiry,
}
use replay_bug.Invitations.Store.{
  InvitationRow, InvitationDb, is_invitation, lock_membership, InvitationAuditRow,
  invitation_created, insert_audit,
}
use replay_bug.Invitations.Service.{
  Sources, view_of, can_invite_invitation_role, require_invitation_management,
  create_workspace_invitation,
}
use replay_bug.Invitations.Insertion.{attempted}
use replay_bug.Invitations.Creation.{Creating, retiring, retired-any}
use replay_bug.Invitations.Admission.{Creating-last}
use replay_bug.Invitations.Invite.{create_workspace_invitation-Requested}
use replay_bug.Invitations.Retiring.{OrRetired, retired_rest}

abbrev pub invitation_entry : ℕ → InvitationRow → InvitationAuditRow
invitation_entry actor_id i = record {
  workspace_id = i.workspace_id;
  actor_user_id = actor_id;
  action = invitation_created;
  invitation_id = i.id;
  email = i.email;
  role = i.role;
}

-- What an invitation that was created is, and who may create it.
pub record Issued (sources : Sources) (actor_id workspace_id : ℕ) (email role : Text)
    (db db' : InvitationDb) (out : InvitationRow × Text) : Type 0 where
  pub actor : MembershipRow
  pub actor_found : find (is_key workspace_id actor_id) db.memberships ≡ some actor
  pub capable : has_capability actor.role workspace_manage_invitations ≡ true
  pub outranked : ltb (role_rank (to_role (out.0).role)) (role_rank actor.role) ≡ true
  pub address : normalize_invitation_email sources.lower_case email ≡ some (out.0).email
  pub asked : validate_invitation_role role ≡ some (out.0).role
  pub workspace : (out.0).workspace_id ≡ workspace_id
  pub hashed : hash_invitation_token sources.sha256 out.1 ≡ some (out.0).token_hash
  pub expires : (out.0).expires_at ≡ sources.now + invitation_ttl_ms
  pub pending : ((out.0).accepted_at ≡ none) × ((out.0).revoked_at ≡ none)
  pub rows : List InvitationRow
  pub stored : db'.invitations ≡ rows ++ (out.0 ∷ [])
  pub others :
      (id : ℕ) (i : InvitationRow)
      → find (is_invitation id) db.invitations ≡ some i
      → OrRetired sources.now id rows i
  pub none_added : (id : ℕ) → any (is_invitation id) rows ≡ any (is_invitation id) db.invitations
  pub members : db'.memberships ≡ db.memberships
  pub logged : db'.audit ≡ db.audit ++ (invitation_entry actor_id out.0 ∷ [])

tables_of :
    (sources : Sources) (locked : ℕ → Bool) (actor_id workspace_id : ℕ) (email : Text)
    (role : WorkspaceMemberRole) (db db' : InvitationDb) (out : InvitationRow × Text)
    → (c : Creating sources locked actor_id workspace_id email role db db' out)
    → (db'.memberships ≡ c.swept.memberships)
      × (db'.audit ≡ c.swept.audit ++ (invitation_entry actor_id out.0 ∷ []))
unfolding insert_audit
tables_of sources locked actor_id workspace_id email role db db' out c = (
  ap InvitationDb.memberships c.last ∙ ap InvitationDb.memberships c.attempts.last,
  ap InvitationDb.audit c.last
      ∙ ap (λ d. InvitationDb.audit d ++ (invitation_entry actor_id out.0 ∷ [])) c.attempts.last,
)

outranks :
    (a : WorkspaceRole) (r : WorkspaceMemberRole)
    → can_invite_invitation_role a (to_role r) ≡ true
    → ltb (role_rank (to_role r)) (role_rank a) ≡ true
unfolding can_invite_invitation_role role_rank
outranks a r h = ground arith

require_invitation_management_lem :
    (db : InvitationDb) (workspace_id actor_id : ℕ) (v : MembershipView)
    → require_invitation_management db workspace_id actor_id ≡ ok v
    → (m : MembershipRow) × (find (is_key workspace_id actor_id) db.memberships ≡ some m)
      × (m.role ≡ v.role)
      × (has_capability v.role workspace_manage_invitations ≡ true)
unfolding require_invitation_management require_workspace_membership require_workspace_capability
    lock_membership
require_invitation_management_lem db workspace_id actor_id v h =
    elim (Option-cases (find (is_key workspace_id actor_id) db.memberships)) [
      | inl missing ↦ absurd (ground arith)
      | inr (m, there) ↦
          let answer : (ensure (has_capability m.role workspace_manage_invitations)
                  (forbidden "Insufficient workspace role")
                >> ok
                    (record { workspace_id = m.workspace_id; user_id = m.user_id; role = m.role }))
              ≡ ok v =
            subst
              (λ o.
                (require_workspace_membership (view_of o) >>= λ w.
                require_workspace_capability w workspace_manage_invitations >> ok w)
                ≡ ok v)
              there h in
          through
            (ensure (has_capability m.role workspace_manage_invitations)
              (forbidden "Insufficient workspace role"))
            _ answer
            λ _ e1 h1.
              let same : m.role ≡ v.role = ground arith in
              (
                m,
                there,
                same,
                subst (λ r. has_capability r workspace_manage_invitations ≡ true) same
                    (ensure-eq-ok _ _ e1),
              )
    ]

hashed_of :
    (sources : Sources) (k : ℕ) (token_hash : Text)
    → (attempted sources k).token_hash ≡ some token_hash
    → hash_invitation_token sources.sha256 (attempted sources k).token ≡ some token_hash
unfolding generate_invitation_token
hashed_of sources k token_hash h = h

expiry_of :
    (sources : Sources) (k : ℕ) → (attempted sources k).expires_at ≡ sources.now + invitation_ttl_ms
unfolding generate_invitation_token default_invitation_expiry
expiry_of sources k = refl

-- Where an invitation is created, the actor is a member of the workspace that may manage its
-- invitations and outranks the invited role. The invitation has the normalized address and the role
-- that were asked for and the hash of the token, expires after seven days, and is neither accepted
-- nor revoked. It is stored as one new row; every other row stays as it is, or is retired if it was
-- open and had expired; no membership changes, and one audit entry is added.
pub create_workspace_invitation-Issued :
    (sources : Sources) (locked : ℕ → Bool) (actor_id workspace_id : ℕ) (email role : Text)
    (db db' : InvitationDb) (out : InvitationRow × Text)
    → create_workspace_invitation sources locked actor_id workspace_id email role db ≡ (db', ok out)
    → Issued sources actor_id workspace_id email role db db' out
create_workspace_invitation-Issued sources locked actor_id workspace_id email role db db' out h =
    let q =
      create_workspace_invitation-Requested sources locked actor_id workspace_id email role db db'
        out h in
    let i = q.creating.attempts in
    let (m, there, same, capable) =
      require_invitation_management_lem db workspace_id actor_id q.actor q.managed in
    let c = q.creating in
    let (members, audit, others) =
      retired_rest locked (retiring sources workspace_id q.address) db c.swept c.retired
        c.retires in
    let (members_kept, logged) =
      tables_of sources locked actor_id workspace_id q.address q.chosen db db' out c in
    let role_same : (out.0).role ≡ q.chosen = ap InvitationRow.role i.row in
    record {
      actor = m;
      actor_found = there;
      capable =
          subst (λ r. has_capability r workspace_manage_invitations ≡ true) (sym same) capable;
      outranked =
          subst (λ r. ltb (role_rank (to_role (out.0).role)) (role_rank r) ≡ true) (sym same)
            (subst (λ c. ltb (role_rank (to_role c)) (role_rank q.actor.role) ≡ true)
              (sym role_same) (outranks q.actor.role q.chosen q.allowed));
      address = q.address_of ∙ sym (ap (λ w. some (InvitationRow.email w)) i.row);
      asked = q.role_of ∙ ap some (sym role_same);
      workspace = ap InvitationRow.workspace_id i.row;
      hashed =
          ap (hash_invitation_token sources.sha256) i.token
          ∙ (hashed_of sources i.attempt i.token_hash i.hashed
              ∙ sym (ap (λ w. some (InvitationRow.token_hash w)) i.row));
      expires = ap InvitationRow.expires_at i.row ∙ expiry_of sources i.attempt;
      pending = (ap InvitationRow.accepted_at i.row, ap InvitationRow.revoked_at i.row);
      rows = c.swept.invitations;
      stored = Creating-last sources locked actor_id workspace_id q.address q.chosen db db' out c;
      others = others;
      none_added = λ id.
          retired-any (is_invitation id) locked (retiring sources workspace_id q.address) db c.swept
            c.retired (λ i. refl) c.retires;
      members = members_kept ∙ members;
      logged = logged ∙ ap (λ a. a ++ (invitation_entry actor_id out.0 ∷ [])) audit;
    }
