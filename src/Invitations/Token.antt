-- ===== src/Invitations/Token.antt =====
-- Invitation tokens, addresses and roles (packages/db/src/invitations.ts). A text is the list of
-- its UTF-16 code units. SHA-256, lower case and random bytes are parameters.
use replay_bug.Common.{
  ℕ, ◌+◌, ◌-◌, ◌*◌, ◌/◌, ◌%◌, Bool, true, false, not, ◌==◌, ◌&&◌, ◌||◌, ltb, leb, if◌then◌else◌,
  Option, none, some, List, [], ◌∷◌, ◌++◌, take, drop, length,
}
use replay_bug.Common.Text.{Text, codes, text_eq, is_space, trim, every, strip_prefix}
use replay_bug.Authz.Roles.{WorkspaceMemberRole, as_admin, as_member, as_viewer}

abbrev pub invitation_token_prefix : Text
invitation_token_prefix = codes "rb_inv_"

-- Seven days in milliseconds.
abbrev pub invitation_ttl_ms : ℕ
invitation_ttl_ms = 7 * 24 * 60 * 60 * 1000

-- `[0-9a-f]`
abbrev pub is_hex : ℕ → Bool
is_hex c = (leb 48 c && leb c 57) || (leb 97 c && leb c 102)

-- `[A-Za-z0-9_-]`
abbrev pub is_base64url : ℕ → Bool
is_base64url c =
    (leb 65 c && leb c 90)
    || (leb 97 c && leb c 122)
    || (leb 48 c && leb c 57)
    || (c == 95)
    || (c == 45)

pub record ParsedInvitationToken : Type 0 where
  pub token : Text
  pub token_prefix : Text
  pub secret : Text

-- What is left of the pattern after the lookup prefix: `_`, the secret and the end.
abbrev pub parse_secret : Text → Text → Text → Option ParsedInvitationToken
parse_secret token prefix [] = none
parse_secret token prefix (c ∷ secret) =
    if (c == 95) && (length secret == 43) && every is_base64url secret
    then some (record { token = token; token_prefix = prefix; secret = secret })
    else none

abbrev pub parse_body : Text → Option Text → Option ParsedInvitationToken
parse_body token none = none
parse_body token (some body) =
    let prefix = take 8 body in
    if (length prefix == 8) && every is_hex prefix
    then parse_secret token prefix (drop 8 body)
    else none

-- No token is an `InvitationTokenError`.
unfoldable pub parse_invitation_token : Text → Option ParsedInvitationToken
parse_invitation_token input =
    let token = trim input in parse_body token (strip_prefix invitation_token_prefix token)

unfoldable pub validate_invitation_token_prefix : Text → Bool
validate_invitation_token_prefix input = (length input == 8) && every is_hex input

unfoldable pub validate_invitation_token_hash : Text → Bool
validate_invitation_token_hash input = (length input == 64) && every is_hex input

unfoldable pub default_invitation_expiry : ℕ → ℕ
default_invitation_expiry now = now + invitation_ttl_ms

module _ (sha256 : Text → Text) where
  abbrev pub hash_parsed : Option ParsedInvitationToken → Option Text
  hash_parsed none = none
  hash_parsed (some parsed) = some (sha256 parsed.token)

  unfoldable pub hash_invitation_token : Text → Option Text
  unfolding parse_invitation_token
  hash_invitation_token token = hash_parsed (parse_invitation_token token)

  abbrev pub same_hash : Option Text → Text → Bool
  same_hash none stored = false
  same_hash (some candidate) stored =
      validate_invitation_token_hash stored && text_eq candidate stored

  unfoldable pub verify_invitation_token : Text → Text → Bool
  unfolding hash_invitation_token validate_invitation_token_hash
  verify_invitation_token token stored = same_hash (hash_invitation_token token) stored

-- `toString("hex")` and `toString("base64url")` of bytes.
abbrev pub hex_digit : ℕ → ℕ
hex_digit n = if ltb n 10 then 48 + n else 87 + n

abbrev pub to_hex : List ℕ → Text
to_hex [] = []
to_hex (b ∷ bs) = hex_digit (b / 16) ∷ hex_digit (b % 16) ∷ to_hex bs

abbrev pub base64_digit : ℕ → ℕ
base64_digit n =
    if ltb n 26
    then 65 + n
    else if ltb n 52
    then 71 + n
    else if ltb n 62
    then n - 4
    else if n == 62
    then 45
    else 95

abbrev pub to_base64url : List ℕ → Text
to_base64url [] = []
to_base64url (a ∷ []) = base64_digit (a / 4) ∷ base64_digit (a % 4 * 16) ∷ []
to_base64url (a ∷ b ∷ []) =
    base64_digit (a / 4) ∷ base64_digit (a % 4 * 16 + b / 16) ∷ base64_digit (b % 16 * 4) ∷ []
to_base64url (a ∷ b ∷ c ∷ bs) =
    base64_digit (a / 4)
    ∷ base64_digit (a % 4 * 16 + b / 16)
    ∷ base64_digit (b % 16 * 4 + c / 64)
    ∷ base64_digit (c % 64)
    ∷ to_base64url bs

pub record GeneratedInvitationToken : Type 0 where
  pub token : Text
  pub token_prefix : Text
  pub token_hash : Option Text
  pub expires_at : ℕ

-- The random bytes are the arguments. A hash that is missing is an error that is thrown.
unfoldable pub generate_invitation_token :
    (Text → Text) → List ℕ → List ℕ → ℕ → GeneratedInvitationToken
unfolding hash_invitation_token default_invitation_expiry
generate_invitation_token sha256 prefix_bytes secret_bytes now =
    let token_prefix = to_hex prefix_bytes in
    let secret = to_base64url secret_bytes in
    let token = invitation_token_prefix ++ (token_prefix ++ (codes "_" ++ secret)) in
    record {
      token = token;
      token_prefix = token_prefix;
      token_hash = hash_invitation_token sha256 token;
      expires_at = default_invitation_expiry now;
    }

-- `/^[^\s@]+@[^\s@]+\.[^\s@]+$/u`: a part without spaces and at signs, an at sign, and a rest of
-- such characters with a dot that is neither its first nor its last.
abbrev pub is_plain : ℕ → Bool
is_plain c = not (is_space c) && not (c == 64)

-- The rest after the at sign; the Boolean says whether a character stands before.
abbrev pub has_inner_dot : Bool → Text → Bool
has_inner_dot started [] = false
has_inner_dot started (c ∷ cs) =
    let rest = has_inner_dot true cs in
    if started && (c == 46) && ltb 0 (length cs) then true else rest

abbrev pub is_address : Bool → Text → Bool
is_address started [] = false
is_address started (c ∷ cs) =
    let rest = is_address true cs in
    if c == 64 then started && every is_plain cs && has_inner_dot false cs else is_plain c && rest

-- `trim().toLowerCase()`, and no address is an `InvitationEmailError`.
unfoldable pub normalize_invitation_email : (Text → Text) → Text → Option Text
normalize_invitation_email lower_case input =
    let normalized = lower_case (trim input) in
    if ltb (length normalized) 3 || ltb 320 (length normalized) || not (is_address false normalized)
    then none
    else some normalized

-- No role is an `InvitationRoleError`.
unfoldable pub validate_invitation_role : Text → Option WorkspaceMemberRole
validate_invitation_role input =
    if text_eq input (codes "admin")
    then some as_admin
    else if text_eq input (codes "member")
    then some as_member
    else if text_eq input (codes "viewer")
    then some as_viewer
    else none
