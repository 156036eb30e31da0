-- ===== src/Invitations/Accepted.antt =====
-- What a successful acceptance means: the invitation that it found, and what it wrote
-- (apps/api/src/services/invitations.ts).
use replay_bug.Common.{
  ℕ, true, false, not, ◌||◌, leb, ◌≡◌, refl, ap, ◌∙◌, inl, inr, is_some, Option, none, some, [],
  ◌∷◌, ◌++◌, map, any, arith, Bool-cases, ==_refl,
}
use replay_bug.Common.Text.{Text, text_eq, text_eq_sound}
use replay_bug.Common.Rows.{find, at}
use replay_bug.Common.RowSearch.{find_narrow}
use replay_bug.Errors.{Result, ok, err, invitation_invalid, through, transacted}
use replay_bug.Authz.Roles.{WorkspaceMemberRole, to_role, owner, is_role}
use replay_bug.Governance.Store.{MembershipRow, is_key}
use replay_bug.Invitations.Token.{
  ParsedInvitationToken, parse_invitation_token, verify_invitation_token,
  normalize_invitation_email,
}
use replay_bug.Invitations.Store.{
  InvitationRow, UserRow, InvitationDb, InvitationAuditRow, invitation_accepted, is_invitation,
  is_valid, lock_membership, lock_user_by_id, insert_membership, mark_invitation_accepted,
  insert_audit,
}
use replay_bug.Invitations.Service.{or_throw}
use replay_bug.Invitations.Endings.{admit, accept_workspace_invitation}
use replay_bug.Invitations.Invariant.{Inv}
use replay_bug.Invitations.Acceptance.{
  Accepting, accept_body-Accepting, last_verified_sound, candidates-found, or_throw-eq-ok,
}

-- The membership that an invitation gives.
abbrev pub granted : ℕ → ℕ → InvitationRow → MembershipRow
granted new_id actor_id i = record {
  id = new_id;
  workspace_id = i.workspace_id;
  user_id = actor_id;
  role = to_role i.role;
}

abbrev pub acceptance : ℕ → InvitationRow → InvitationAuditRow
acceptance actor_id i = record {
  workspace_id = i.workspace_id;
  actor_user_id = actor_id;
  action = invitation_accepted;
  invitation_id = i.id;
  email = i.email;
  role = i.role;
}

-- What an admission writes: the membership, the time of acceptance and the audit entry.
abbrev pub Admitted : ℕ → ℕ → ℕ → InvitationRow → InvitationDb → InvitationDb → Type 0
Admitted new_id now actor_id i db db' =
    (db'.memberships ≡ db.memberships ++ (granted new_id actor_id i ∷ []))
    × (db'.invitations
        ≡ map (at (is_valid i.id now) (λ r. record r { accepted_at = some now })) db.invitations)
    × (db'.audit ≡ db.audit ++ (acceptance actor_id i ∷ []))

pub admit-Admitted :
    (new_id now actor_id : ℕ) (i : InvitationRow) (db db' : InvitationDb)
    (out : InvitationRow × MembershipRow)
    → find (is_valid i.id now) db.invitations ≡ some i
    → admit new_id now actor_id i db ≡ ok (db', out)
    → (out ≡ (record i { accepted_at = some now }, granted new_id actor_id i))
      × Admitted new_id now actor_id i db db'
unfolding admit insert_membership mark_invitation_accepted insert_audit
admit-Admitted new_id now actor_id i db db' out there h =
    elim (Bool-cases (any (is_key i.workspace_id actor_id) db.memberships)) [
      | inl k ↦ absurd (ground arith)
      | inr k ↦ ground (arith, there)
    ]

-- What the invitation was that an acceptance found.
pub record Found (sha256 : Text → Text) (now actor_id : ℕ) (token : Text) (db : InvitationDb)
    (i : InvitationRow) : Type 0 where
  pub here : find (is_invitation i.id) db.invitations ≡ some i
  pub verified : verify_invitation_token sha256 token i.token_hash ≡ true
  pub valid : is_valid i.id now i ≡ true
  pub stranger : find (is_key i.workspace_id actor_id) db.memberships ≡ none

valid_of :
    (email : Text) (now : ℕ) (i : InvitationRow)
    → is_some i.accepted_at ≡ false
    → (is_some i.revoked_at || leb i.expires_at now || not (text_eq email i.email)) ≡ false
    → (is_valid i.id now i ≡ true) × (text_eq email i.email ≡ true)
valid_of email now i h k = ground (arith, ==_refl i.id)

none_of {ℓ} : {A : Type ℓ} (o : Option A) → is_some o ≡ false → o ≡ none
none_of none h = refl
none_of (some a) h = absurd (cc)

pub Accepting-Found :
    (sha256 lower_case : Text → Text) (new_id now actor_id : ℕ) (email : Text)
    (parsed : ParsedInvitationToken) (db : InvitationDb)
    (result : InvitationDb × (InvitationRow × MembershipRow))
    → Inv db
    → (a : Accepting sha256 lower_case new_id now actor_id email parsed db result)
    → Found sha256 now actor_id parsed.token db a.matched × (email ≡ a.matched.email)
unfolding lock_membership
Accepting-Found sha256 lower_case new_id now actor_id email parsed db result v a =
    let m = a.matched in
    let (here, verified) =
      last_verified_sound sha256 parsed.token
        (λ c. find (is_invitation (InvitationRow.id c)) db.invitations ≡ some c) a.candidates m
        (candidates-found db parsed.token_prefix a.candidates v.ids a.listed) a.verified in
    let (valid, address) = valid_of email now m a.unused a.usable in
    (
      record { here = here; verified = verified; valid = valid; stranger = none_of _ a.stranger },
      text_eq_sound email m.email address,
    )

-- What a successful acceptance means, for the invitation that it found.
pub record Accepted (sha256 lower_case : Text → Text) (new_id now actor_id : ℕ)
    (actor_email token : Text) (db db' : InvitationDb) (out : InvitationRow × MembershipRow)
    : Type 0 where
  pub parsed : ParsedInvitationToken
  pub i : InvitationRow
  pub user : UserRow
  pub token_parsed : parse_invitation_token token ≡ some parsed
  pub session_email : normalize_invitation_email lower_case actor_email ≡ some i.email
  pub stored_user : lock_user_by_id db actor_id ≡ some user
  pub stored_email : normalize_invitation_email lower_case user.email ≡ some i.email
  pub found : Found sha256 now actor_id parsed.token db i
  pub result : out ≡ (record i { accepted_at = some now }, granted new_id actor_id i)
  pub plain : is_role (to_role i.role) owner ≡ false
  pub written : Admitted new_id now actor_id i db db'

no_owner : (r : WorkspaceMemberRole) → is_role (to_role r) owner ≡ false
no_owner r = ground arith

pub transacted-eq-ok {ℓ κ} :
    {D : Type ℓ} {A : Type κ} (db : D) (r : Result (D × A)) {db' : D} {a : A}
    → transacted db r ≡ (db', ok a)
    → r ≡ ok (db', a)
transacted-eq-ok db (ok (d, b)) h = ground arith
transacted-eq-ok db (err e) h = absurd (ground arith)

-- Where an acceptance succeeds, the token is well-formed and verified for an invitation of the
-- table that is open and has not expired, its address is that of the session and of the stored
-- user, and the user was no member of its workspace; then exactly that invitation gets the time of
-- acceptance, one membership is added with the role of the invitation, which is never owner, and
-- one audit entry is.
pub accept_workspace_invitation_sound :
    (sha256 lower_case : Text → Text) (new_id now actor_id : ℕ) (actor_email token : Text)
    (db db' : InvitationDb) (out : InvitationRow × MembershipRow)
    → Inv db
    → accept_workspace_invitation sha256 lower_case new_id now actor_id actor_email token db
      ≡ (db', ok out)
    → Accepted sha256 lower_case new_id now actor_id actor_email token db db' out
unfolding accept_workspace_invitation
accept_workspace_invitation_sound sha256 lower_case new_id now actor_id actor_email token db db' out
      v h =
    through (or_throw (err invitation_invalid) (parse_invitation_token token)) _
      (transacted-eq-ok db _ h)
      λ parsed e1 h1.
        through
          (or_throw (err invitation_invalid) (normalize_invitation_email lower_case actor_email)) _
          h1
          λ email e2 h2.
            let a =
              accept_body-Accepting sha256 lower_case new_id now actor_id email parsed db (db', out)
                h2 in
            let (f, address_same) =
              Accepting-Found sha256 lower_case new_id now actor_id email parsed db (db', out) v
                a in
            let valid =
              find_narrow (is_invitation a.matched.id) (is_valid a.matched.id now)
                (λ y k. ground arith) db.invitations a.matched f.here f.valid in
            let (result, written) =
              admit-Admitted new_id now actor_id a.matched db db' out valid a.admitted in
            record {
              parsed = parsed;
              i = a.matched;
              user = a.user;
              token_parsed = or_throw-eq-ok _ _ e1;
              session_email = or_throw-eq-ok _ _ e2 ∙ ap some address_same;
              stored_user = a.own;
              stored_email = a.own_email ∙ ap some address_same;
              found = f;
              result = result;
              plain = no_owner a.matched.role;
              written = written;
            }
