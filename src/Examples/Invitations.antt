-- ===== src/Examples/Invitations.antt =====
-- Runs of requests on invitations, and the theorems about them at concrete inputs.
use replay_bug.Common.{
  ℕ, true, false, ◌≡◌, refl, ap, none, some, List, [], ◌∷◌, ◌++◌, ltb, All, arith,
}
use replay_bug.Common.Text.{Text, every, codes, trim_end, skip_spaces}
use replay_bug.Common.Rows.{find}
use replay_bug.Errors.{Result, ok}
use replay_bug.Authz.Roles.{owner, as_viewer, role_rank}
use replay_bug.Authz.Policy.{has_capability}
use replay_bug.Authz.Guards.{require_workspace_membership, require_workspace_capability}
use replay_bug.Invitations.Token.{
  parse_invitation_token, hash_invitation_token, normalize_invitation_email,
  validate_invitation_role, validate_invitation_token_hash, validate_invitation_token_prefix,
  generate_invitation_token, default_invitation_expiry, to_base64url,
}
use replay_bug.Invitations.TokenLaws.{IsByte, parse-generate}
use replay_bug.Invitations.Store.{
  InvitationRow, InvitationDb, UserRow, lock_membership, lock_user_by_id, find_user_by_email,
  lock_active_invitation_by_workspace_email, is_normalized_email, insert_invitation,
  lock_expired_pending_invitations, retire_each, retire_expired_pending_invitations, insert_audit,
  accepted_row,
}
use replay_bug.Invitations.Service.{
  Sources, can_invite_invitation_role, require_invitation_management, insert_attempts, create_body,
  create_workspace_invitation,
}
use replay_bug.Invitations.Endings.{accept_workspace_invitation, run_expired_invitation_cleanup}
use replay_bug.Invitations.Invariant.{Inv, Final, SameOwners}
use replay_bug.Invitations.Accepted.{granted, Accepted, accept_workspace_invitation_sound}
use replay_bug.Invitations.Reuse.{Refused, accept_workspace_invitation-again}
use replay_bug.Invitations.Admission.{Invited, RandomBytes}
use replay_bug.Invitations.Invite.{create_workspace_invitation-accept}
use replay_bug.Invitations.Issuing.{Issued, create_workspace_invitation-Issued}
use replay_bug.Invitations.Steps.{Reach, here, next, created, accepted, swept, reach-Advances}

abbrev digest : Text
digest = codes "0123456789abcdef0123456789abcdef0123456789abcdef0123456789abcdef"

abbrev hashing : Text → Text
hashing t = digest

abbrev lowered : Text → Text
lowered t = t

abbrev four : List ℕ
four = 18 ∷ 52 ∷ 171 ∷ 205 ∷ []

abbrev eight : List ℕ
eight = 0 ∷ 255 ∷ 16 ∷ 32 ∷ 64 ∷ 128 ∷ 7 ∷ 9 ∷ []

abbrev many : List ℕ
many = eight ++ (eight ++ (eight ++ eight))

abbrev sources : Sources
sources = record {
  sha256 = hashing;
  lower_case = lowered;
  prefix_bytes = λ k. four;
  secret_bytes = λ k. many;
  new_id = 70;
  now = 1000;
}

every-IsByte : (bs : List ℕ) → every (λ b. ltb b 256) bs ≡ true → All IsByte bs
every-IsByte [] h = tt
every-IsByte (b ∷ bs) h = (ground arith, every-IsByte bs (ground arith))

parse-generate_example :
    let g = generate_invitation_token hashing four many 1000 in
    parse_invitation_token g.token
    ≡ some (record { token = g.token; token_prefix = g.token_prefix; secret = to_base64url many })
parse-generate_example =
    parse-generate hashing four many 1000 (every-IsByte four refl) (every-IsByte many refl) refl
      refl

abbrev guest : UserRow
guest = record { id = 5; email = codes "new@x.io" }

abbrev start : InvitationDb
start = record {
  workspaces = 9 ∷ [];
  users = record { id = 4; email = codes "boss@x.io" } ∷ guest ∷ [];
  memberships = record { id = 1; workspace_id = 9; user_id = 4; role = owner } ∷ [];
  invitations = [];
  audit = [];
}

start-Inv : Inv start
start-Inv = record { ids = tt; hashes = tt; pending = tt; settled = tt; members = (tt, tt) }

abbrev invited : InvitationDb × Result (InvitationRow × Text)
invited =
    create_workspace_invitation sources (λ i. false) 4 9 (codes " new@x.io") (codes "viewer") start

abbrev token : Text
token = (generate_invitation_token hashing four many 1000).token

abbrev offer : InvitationRow
offer = record {
  id = 70;
  workspace_id = 9;
  email = codes "new@x.io";
  role = as_viewer;
  token_hash = digest;
  token_prefix = codes "1234abcd";
  expires_at = 604801000;
  accepted_at = none;
  revoked_at = none;
  created_by_user_id = 4;
  created_at = 1000;
}

invited_lem : invited ≡ (invited.0, ok (offer, token))
unfolding create_workspace_invitation require_invitation_management require_workspace_membership
    lock_membership find require_workspace_capability has_capability normalize_invitation_email
    trim_end skip_spaces validate_invitation_role can_invite_invitation_role create_body
    retire_expired_pending_invitations lock_expired_pending_invitations find_user_by_email
    lock_user_by_id lock_active_invitation_by_workspace_email role_rank insert_attempts insert_audit
    insert_invitation is_normalized_email retire_each default_invitation_expiry
    generate_invitation_token hash_invitation_token parse_invitation_token
    validate_invitation_token_hash validate_invitation_token_prefix
invited_lem = refl

random : RandomBytes sources
random = record {
  prefix_of_bytes = λ k. every-IsByte four refl;
  secret_of_bytes = λ k. every-IsByte many refl;
  prefix_size = λ k. refl;
  secret_size = λ k. refl;
}

create_workspace_invitation-Issued_example :
    Issued sources 4 9 (codes " new@x.io") (codes "viewer") start invited.0 (offer, token)
create_workspace_invitation-Issued_example =
    create_workspace_invitation-Issued sources (λ i. false) 4 9 (codes " new@x.io") (codes "viewer")
      start invited.0 (offer, token) invited_lem

guest-Invited : Invited lowered 5 9 (codes "new@x.io") (codes "new@x.io") invited.0
unfolding create_workspace_invitation require_invitation_management require_workspace_membership
    lock_membership find require_workspace_capability has_capability normalize_invitation_email
    trim_end skip_spaces validate_invitation_role can_invite_invitation_role create_body
    retire_expired_pending_invitations lock_expired_pending_invitations find_user_by_email
    lock_user_by_id lock_active_invitation_by_workspace_email role_rank insert_attempts insert_audit
    insert_invitation is_normalized_email retire_each default_invitation_expiry
    generate_invitation_token hash_invitation_token parse_invitation_token
    validate_invitation_token_hash validate_invitation_token_prefix
guest-Invited = record {
  user = guest;
  stored = refl;
  stored_email = refl;
  session_email = refl;
  workspace = refl;
  stranger = refl;
}

create_workspace_invitation-accept_example :
    (accept_workspace_invitation hashing lowered 71 2000 5 (codes "new@x.io") token invited.0).1
    ≡ ok (accepted_row 2000 offer, granted 71 5 offer)
create_workspace_invitation-accept_example =
    create_workspace_invitation-accept sources (λ i. false) 4 9 (codes " new@x.io") (codes "viewer")
      start invited.0 (offer, token) 71 2000 5 (codes "new@x.io") random refl invited_lem refl refl
      guest-Invited

abbrev admitted : InvitationDb
admitted =
    (accept_workspace_invitation hashing lowered 71 2000 5 (codes "new@x.io") token invited.0).0

to_admitted : Reach hashing lowered start admitted
to_admitted =
    next (next here (created sources (λ i. false) 4 9 (codes " new@x.io") (codes "viewer") refl))
      (accepted 71 2000 5 (codes "new@x.io") token)

reach-Advances_example : Inv admitted × Final start admitted × SameOwners start admitted
reach-Advances_example = reach-Advances hashing lowered start-Inv to_admitted

invited-Inv : Inv invited.0
invited-Inv =
    (reach-Advances hashing lowered start-Inv
      (next here (created sources (λ i. false) 4 9 (codes " new@x.io") (codes "viewer") refl))).0

guest_admitted :
    (accept_workspace_invitation hashing lowered 71 2000 5 (codes "new@x.io") token invited.0).1
    ≡ ok (accepted_row 2000 offer, granted 71 5 offer)
guest_admitted =
    create_workspace_invitation-accept sources (λ i. false) 4 9 (codes " new@x.io") (codes "viewer")
      start invited.0 (offer, token) 71 2000 5 (codes "new@x.io") random refl invited_lem refl refl
      guest-Invited

admitted_lem :
    accept_workspace_invitation hashing lowered 71 2000 5 (codes "new@x.io") token invited.0
    ≡ (admitted, ok (accepted_row 2000 offer, granted 71 5 offer))
admitted_lem = ap (λ r. (admitted, r)) guest_admitted

accept_workspace_invitation_sound_example :
    Accepted hashing lowered 71 2000 5
      (codes "new@x.io")
      token
      invited.0
      admitted
      (accepted_row 2000 offer, granted 71 5 offer)
accept_workspace_invitation_sound_example =
    accept_workspace_invitation_sound hashing lowered 71 2000 5 (codes "new@x.io") token invited.0
      admitted (accepted_row 2000 offer, granted 71 5 offer) invited-Inv admitted_lem

boss_email : normalize_invitation_email lowered (codes "boss@x.io") ≡ some (codes "boss@x.io")
unfolding normalize_invitation_email trim_end skip_spaces
boss_email = refl

abbrev later : InvitationDb
later = (run_expired_invitation_cleanup (λ i. false) 50 700000000 admitted).0

to_later : Reach hashing lowered admitted later
to_later = next here (swept (λ i. false) 50 700000000)

accept_workspace_invitation-again_example :
    Refused later
      (accept_workspace_invitation hashing lowered 72 700000001 4 (codes "boss@x.io") token later)
accept_workspace_invitation-again_example =
    accept_workspace_invitation-again hashing lowered 71 2000 5 (codes "new@x.io") token invited.0
      admitted later (accepted_row 2000 offer, granted 71 5 offer) 72 700000001 4
      (codes "boss@x.io") (codes "boss@x.io") invited-Inv admitted_lem to_later boss_email
