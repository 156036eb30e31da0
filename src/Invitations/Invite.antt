-- ===== src/Invitations/Invite.antt =====
-- What a successful creation of an invitation means, and that its token is accepted
-- (apps/api/src/services/invitations.ts).
use replay_bug.Common.{ℕ, ◌+◌, Bool, true, false, ltb, ◌≡◌, some, any}
use replay_bug.Common.Text.{Text, text_eq}
use replay_bug.Errors.{ok, err, ensure, ensure-eq-ok, forbidden, validation_error, through}
use replay_bug.Authz.Roles.{WorkspaceMemberRole, to_role}
use replay_bug.Authz.Guards.{MembershipView}
use replay_bug.Invitations.Token.{
  normalize_invitation_email, validate_invitation_role, invitation_ttl_ms,
}
use replay_bug.Invitations.Store.{InvitationRow, InvitationDb, is_invitation, accepted_row}
use replay_bug.Invitations.Service.{
  Sources, or_throw, can_invite_invitation_role, require_invitation_management,
  create_workspace_invitation,
}
use replay_bug.Invitations.Endings.{accept_workspace_invitation}
use replay_bug.Invitations.Acceptance.{or_throw-eq-ok}
use replay_bug.Invitations.Accepted.{granted, transacted-eq-ok}
use replay_bug.Invitations.Creation.{Creating, create_body-Creating}
use replay_bug.Invitations.Admission.{
  Invited, Offered-accept, RandomBytes, Creating-Offered, Creating-last,
}

-- The checks before the transaction, and the transaction.
pub record Requested (sources : Sources) (locked : ℕ → Bool) (actor_id workspace_id : ℕ)
    (email role : Text) (db db' : InvitationDb) (out : InvitationRow × Text) : Type 0 where
  pub actor : MembershipView
  pub address : Text
  pub chosen : WorkspaceMemberRole
  pub managed : require_invitation_management db workspace_id actor_id ≡ ok actor
  pub address_of : normalize_invitation_email sources.lower_case email ≡ some address
  pub role_of : validate_invitation_role role ≡ some chosen
  pub allowed : can_invite_invitation_role actor.role (to_role chosen) ≡ true
  pub creating : Creating sources locked actor_id workspace_id address chosen db db' out

pub create_workspace_invitation-Requested :
    (sources : Sources) (locked : ℕ → Bool) (actor_id workspace_id : ℕ) (email role : Text)
    (db db' : InvitationDb) (out : InvitationRow × Text)
    → create_workspace_invitation sources locked actor_id workspace_id email role db ≡ (db', ok out)
    → Requested sources locked actor_id workspace_id email role db db' out
unfolding create_workspace_invitation
create_workspace_invitation-Requested sources locked actor_id workspace_id email role db db' out h =
    through (require_invitation_management db workspace_id actor_id) _ (transacted-eq-ok db _ h)
      λ actor e1 h1.
        through
          (or_throw (err (validation_error "Invitation email has an invalid format"))
            (normalize_invitation_email sources.lower_case email))
          _ h1
          λ address e2 h2.
            through
              (or_throw (err (validation_error "Invitation role must be admin, member, or viewer"))
                (validate_invitation_role role))
              _ h2
              λ chosen e3 h3.
                through
                  (ensure (can_invite_invitation_role actor.role (to_role chosen))
                    (forbidden "Insufficient workspace role"))
                  _ h3
                  λ _ e4 h4. record {
                    actor = actor;
                    address = address;
                    chosen = chosen;
                    managed = e1;
                    address_of = or_throw-eq-ok _ _ e2;
                    role_of = or_throw-eq-ok _ _ e3;
                    allowed = ensure-eq-ok _ _ e4;
                    creating =
                        create_body-Creating sources locked actor_id workspace_id address chosen db
                          db' out h4;
                  }

-- Where an invitation was created of random bytes, with an id and a prefix that no other has, its
-- token is accepted before seven days have passed: for a user whose session and stored addresses
-- are the invited one and who is no member of the workspace, the answer is the invitation with the
-- time of acceptance, and the membership with its role.
pub create_workspace_invitation-accept :
    (sources : Sources) (locked : ℕ → Bool) (actor_id workspace_id : ℕ) (email role : Text)
    (db db' : InvitationDb) (out : InvitationRow × Text) (new_id now user_id : ℕ)
    (user_email : Text)
    → RandomBytes sources
    → any (is_invitation sources.new_id) db.invitations ≡ false
    → create_workspace_invitation sources locked actor_id workspace_id email role db ≡ (db', ok out)
    → any (λ i. text_eq (InvitationRow.token_prefix i) out.0.token_prefix) db.invitations ≡ false
    → ltb now (sources.now + invitation_ttl_ms) ≡ true
    → Invited sources.lower_case user_id (out.0).workspace_id user_email (out.0).email db'
    → (accept_workspace_invitation sources.sha256 sources.lower_case new_id now user_id user_email
        out.1 db').1
      ≡ ok (accepted_row now out.0, granted new_id user_id out.0)
create_workspace_invitation-accept sources locked actor_id workspace_id email role db db' out new_id
      now user_id user_email bytes unused h alone soon invited =
    let q =
      create_workspace_invitation-Requested sources locked actor_id workspace_id email role db db'
        out h in
    let c = q.creating in
    Offered-accept sources.sha256 sources.lower_case new_id now user_id user_email out.1
      c.swept.invitations out.0 db'
      (Creating-last sources locked actor_id workspace_id q.address q.chosen db db' out c)
      (Creating-Offered sources locked actor_id workspace_id now q.address q.chosen db db' out bytes
        soon unused alone c)
      invited
