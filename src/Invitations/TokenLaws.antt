-- ===== src/Invitations/TokenLaws.antt =====
-- A generated token is read back, and addresses and tokens are kept in one form
-- (packages/db/src/invitations.ts).
use replay_bug.Common.{
  ℕ, zero, suc, ◌+◌, ◌*◌, ◌/◌, ◌%◌, ◌<◌, Bool, true, not, ◌≡◌, refl, ap, inl, inr, some, List, [],
  ◌∷◌, ◌++◌, take, drop, length, All, arith, Bool-cases,
}
use replay_bug.Common.Text.{Text, codes, is_space, skip_spaces, trim_end, trim, every}
use replay_bug.Invitations.Token.{
  invitation_token_prefix, is_hex, is_base64url, parse_invitation_token, hex_digit, to_hex,
  base64_digit, to_base64url, generate_invitation_token,
}

hex_digit-is_hex : (n : ℕ) → n < 16 → is_hex (hex_digit n) ≡ true
hex_digit-is_hex n h = ground arith

base64_digit-is_base64url : (n : ℕ) → n < 64 → is_base64url (base64_digit n) ≡ true
base64_digit-is_base64url n h = ground arith

abbrev pub IsByte : ℕ → Type 0
IsByte b = b < 256

to_hex-is_hex : (bs : List ℕ) → All IsByte bs → every is_hex (to_hex bs) ≡ true
to_hex-is_hex [] h = refl
to_hex-is_hex (b ∷ bs) (k, h) =
    rw
      (
        hex_digit-is_hex (b / 16) (omega arith),
        hex_digit-is_hex (b % 16) (omega arith),
        to_hex-is_hex bs h,
      )
      refl

length-to_hex : (bs : List ℕ) → length (to_hex bs) ≡ 2 * length bs
length-to_hex [] = refl
length-to_hex (b ∷ bs) = omega (arith, length-to_hex bs)

to_base64url-is_base64url :
    (bs : List ℕ) → All IsByte bs → every is_base64url (to_base64url bs) ≡ true
to_base64url-is_base64url [] h = refl
to_base64url-is_base64url (a ∷ []) (k, h) =
    rw
      (
        base64_digit-is_base64url (a / 4) (omega arith),
        base64_digit-is_base64url (a % 4 * 16) (omega arith),
      )
      refl
to_base64url-is_base64url (a ∷ b ∷ []) (k, (l, h)) =
    rw
      (
        base64_digit-is_base64url (a / 4) (omega arith),
        base64_digit-is_base64url (a % 4 * 16 + b / 16) (omega arith),
        base64_digit-is_base64url (b % 16 * 4) (omega arith),
      )
      refl
to_base64url-is_base64url (a ∷ b ∷ c ∷ bs) (k, (l, (m, h))) =
    rw
      (
        base64_digit-is_base64url (a / 4) (omega arith),
        base64_digit-is_base64url (a % 4 * 16 + b / 16) (omega arith),
        base64_digit-is_base64url (b % 16 * 4 + c / 64) (omega arith),
        base64_digit-is_base64url (c % 64) (omega arith),
        to_base64url-is_base64url bs h,
      )
      refl

-- Three bytes are four characters, and two that are left are three.
length-to_base64url :
    (k : ℕ) (bs : List ℕ) → length bs ≡ 3 * k + 2 → length (to_base64url bs) ≡ 4 * k + 3
length-to_base64url k [] h = absurd (omega (arith, h))
length-to_base64url k (a ∷ []) h = absurd (omega (arith, h))
length-to_base64url k (a ∷ b ∷ []) h = omega (arith, h)
length-to_base64url zero (a ∷ b ∷ c ∷ bs) h = absurd (omega (arith, h))
length-to_base64url (suc k) (a ∷ b ∷ c ∷ bs) h =
    omega (arith, length-to_base64url k bs (omega (arith, h)))

-- A text without white space is trimmed to itself.
abbrev is_mark : ℕ → Bool
is_mark c = not (is_space c)

trim_end-marks : (t : Text) → every is_mark t ≡ true → trim_end t ≡ t
unfolding trim_end
trim_end-marks [] h = refl
trim_end-marks (c ∷ cs) h = elim (Bool-cases (is_space c)) [
  | inl k ↦ absurd (ground arith)
  | inr k ↦ rw (k, trim_end-marks cs (ground arith)) refl
]

trim-marks : (t : Text) → every is_mark t ≡ true → trim t ≡ t
unfolding skip_spaces
trim-marks [] h = trim_end-marks [] h
trim-marks (c ∷ cs) h = elim (Bool-cases (is_space c)) [
  | inl k ↦ absurd (ground arith)
  | inr k ↦ rw k (trim_end-marks (c ∷ cs) h)
]

every-append :
    (p : ℕ → Bool) (s t : Text) → every p s ≡ true → every p t ≡ true → every p (s ++ t) ≡ true
every-append p [] t h k = k
every-append p (c ∷ cs) t h k = ground (arith, every-append p cs t)

every-weaker :
    (p q : ℕ → Bool)
    → ((c : ℕ) → p c ≡ true → q c ≡ true)
    → (t : Text) → every p t ≡ true
    → every q t ≡ true
every-weaker p q h [] k = refl
every-weaker p q h (c ∷ cs) k = elim (Bool-cases (p c)) [
  | inl l ↦ rw (h c l) (every-weaker p q h cs (ground arith))
  | inr l ↦ absurd (ground arith)
]

hex_mark : (c : ℕ) → is_hex c ≡ true → is_mark c ≡ true
hex_mark c h = ground arith

base64_mark : (c : ℕ) → is_base64url c ≡ true → is_mark c ≡ true
base64_mark c h = ground arith

take-append_all : (s t : Text) (n : ℕ) → length s ≡ n → take n (s ++ t) ≡ s
take-append_all [] t zero h = refl
take-append_all [] t (suc n) h = absurd (omega (arith, h))
take-append_all (c ∷ cs) t zero h = absurd (omega (arith, h))
take-append_all (c ∷ cs) t (suc n) h = ap (λ r. c ∷ r) (take-append_all cs t n (omega (arith, h)))

drop-append_all : (s t : Text) (n : ℕ) → length s ≡ n → drop n (s ++ t) ≡ t
drop-append_all [] t zero h = refl
drop-append_all [] t (suc n) h = absurd (omega (arith, h))
drop-append_all (c ∷ cs) t zero h = absurd (omega (arith, h))
drop-append_all (c ∷ cs) t (suc n) h = drop-append_all cs t n (omega (arith, h))

-- A token that is generated of 4 and 32 random bytes is parsed to its prefix and its secret: the
-- pattern accepts it, whatever the bytes are.
pub parse-generate :
    (sha256 : Text → Text) (prefix_bytes secret_bytes : List ℕ) (now : ℕ)
    → All IsByte prefix_bytes
    → All IsByte secret_bytes
    → length prefix_bytes ≡ 4
    → length secret_bytes ≡ 32
    → let g = generate_invitation_token sha256 prefix_bytes secret_bytes now in
      parse_invitation_token g.token
      ≡ some (record {
        token = g.token;
        token_prefix = g.token_prefix;
        secret = to_base64url secret_bytes;
      })
unfolding parse_invitation_token generate_invitation_token
parse-generate sha256 prefix_bytes secret_bytes now p s lp ls =
    let hex = to_hex prefix_bytes in
    let secret = to_base64url secret_bytes in
    let body = hex ++ (codes "_" ++ secret) in
    let token = invitation_token_prefix ++ body in
    let hex_ok = to_hex-is_hex prefix_bytes p in
    let secret_ok = to_base64url-is_base64url secret_bytes s in
    let marks = every-append is_mark invitation_token_prefix body refl (
      every-append is_mark hex (codes "_" ++ secret)
        (every-weaker is_hex is_mark hex_mark hex hex_ok)
        (every-weaker is_base64url is_mark base64_mark secret secret_ok)) in
    let eight : length hex ≡ 8 = omega (arith, length-to_hex prefix_bytes, lp) in
    let many : length secret ≡ 43 =
      omega (arith, length-to_base64url 10 secret_bytes (omega (arith, ls))) in
    rw
      (
        trim-marks token marks,
        take-append_all hex (codes "_" ++ secret) 8 eight,
        drop-append_all hex (codes "_" ++ secret) 8 eight,
        eight,
        hex_ok,
        many,
        secret_ok,
      )
      refl
