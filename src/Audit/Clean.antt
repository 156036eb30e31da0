-- ===== src/Audit/Clean.antt =====
-- What sanitized metadata can hold (packages/db/src/repositories/audit.ts).
use replay_bug.Common.{
  ℕ, zero, suc, ◌≤◌, Bool, true, false, not, ◌&&◌, ◌||◌, ltb, leb, if◌then◌else◌, ◌≡◌, refl, ap,
  ◌∙◌, [], ◌∷◌, ◌++◌, length, take, drop, length-take, length-append, ltb→lt, ◌<◌, arith,
  Bool-cases, inl, inr,
}
use replay_bug.Common.Text.{Text, codes, text_eq}
use replay_bug.Audit.Value.{
  Value, null, bool, number, str, arr, obj, other, Items, nil, cons, Fields, end, field,
  count_fields, set_field,
}
use replay_bug.Audit.Sanitize.{
  sanitize_audit_metadata, has_sensitive_key, includes, object_or_empty, max_metadata_string_length,
  max_metadata_keys, max_metadata_items, redacted, truncated_key, starts_with, all_units, is_word,
  is_prefixed_word, looks_like_secret, sanitize_string, is_hidden, unless_hidden, finish_fields,
  sanitize_audit_value, sanitize_items, sanitize_fields,
}

abbrev is_nil : Items → Bool
is_nil nil = true
is_nil (cons v vs) = false

abbrev is_text : Text → Value → Bool
is_text t (str s) = text_eq s t
is_text t _ = false

-- The mark on an object with too many keys.
abbrev is_mark : Text → Value → Bool
is_mark key (bool b) = text_eq key truncated_key && b
is_mark key _ = false

abbrev pub is_plain : Text → Bool
is_plain t = not (looks_like_secret t) && leb (length t) max_metadata_string_length

all_units-last :
    (p : ℕ → Bool) (xs : Text) (c : ℕ) → p c ≡ false → all_units p (xs ++ (c ∷ [])) ≡ false
unfolding all_units
all_units-last p [] c h = ground arith
all_units-last p (x ∷ xs) c h = ground (arith, all_units-last p xs c h)

drop-append_left : (n : ℕ) (xs ys : Text) → n ≤ length xs → drop n (xs ++ ys) ≡ drop n xs ++ ys
drop-append_left zero xs ys h = refl
drop-append_left (suc n) [] ys h = absurd (omega (arith, h))
drop-append_left (suc n) (x ∷ xs) ys h = drop-append_left n xs ys (omega arith)

is_prefixed_word-last :
    (prefix xs : Text)
    → length prefix ≤ length xs
    → is_prefixed_word prefix (xs ++ (8230 ∷ [])) ≡ false
unfolding is_prefixed_word
is_prefixed_word-last prefix xs h =
    let rest : all_units is_word (drop (length prefix) (xs ++ (8230 ∷ []))) ≡ false =
      ap (all_units is_word) (drop-append_left (length prefix) xs (8230 ∷ []) h)
      ∙ all_units-last is_word (drop (length prefix) xs) 8230 refl in
    ground (arith, rest)

length-cut : (t : Text) → max_metadata_string_length < length t → length (take 2047 t) ≡ 2047
length-cut t h = omega (arith, length-take 2047 t)

-- A string that was cut off ends in no unit that a secret has.
cut-is_plain :
    (t : Text)
    → max_metadata_string_length < length t
    → is_plain (take 2047 t ++ (8230 ∷ [])) ≡ true
unfolding looks_like_secret
cut-is_plain t h =
    let xs = take 2047 t in
    let n : length xs ≡ 2047 = length-cut t h in
    let m : length (xs ++ (8230 ∷ [])) ≡ 2048 = omega (arith, length-append xs (8230 ∷ []), n) in
    let a = is_prefixed_word-last (codes "rb_sk_") xs (omega (arith, n)) in
    let b = is_prefixed_word-last (codes "rb_inv_") xs (omega (arith, n)) in rw (a, b, m) refl

module _ (to_lower : Text → Text) where
  -- A clean value: under a sensitive key or too deep it is the redaction; else it is JSON, its
  -- strings are short and look like no secret, an array has at most 50 items and the mark of what
  -- was left out, an object at most 50 keys and the mark, and what they hold is clean.
  unfoldable mutual
    pub is_clean : Value → Text → ℕ → Bool
    is_clean null key depth = not (is_hidden to_lower key depth)
    is_clean (bool b) key depth = not (is_hidden to_lower key depth)
    is_clean (number finite) key depth = not (is_hidden to_lower key depth) && finite
    is_clean (str t) key depth =
        if is_hidden to_lower key depth then text_eq t (codes "[REDACTED]") else is_plain t
    is_clean (arr items) key depth =
        not (is_hidden to_lower key depth) && are_clean_items max_metadata_items items (suc depth)
    is_clean (obj fields) key depth =
        not (is_hidden to_lower key depth)
        && (are_clean_fields fields (suc depth) && leb (count_fields fields) 51)
    is_clean other key depth = false

    pub are_clean_items : ℕ → Items → ℕ → Bool
    are_clean_items left nil depth = true
    are_clean_items zero (cons v vs) depth = is_text (codes "[TRUNCATED]") v && is_nil vs
    are_clean_items (suc left) (cons v vs) depth =
        is_clean v [] depth && are_clean_items left vs depth

    pub are_clean_fields : Fields → ℕ → Bool
    are_clean_fields end depth = true
    are_clean_fields (field k v fs) depth =
        (is_clean v k depth || is_mark k v) && are_clean_fields fs depth

  redacted-is_clean :
      (key : Text) (depth : ℕ)
      → is_hidden to_lower key depth ≡ true
      → is_clean redacted key depth ≡ true
  unfolding is_clean
  redacted-is_clean key depth h = rw h refl

  redacted_visible :
      (key : Text) (depth : ℕ)
      → is_hidden to_lower key depth ≡ false
      → is_clean redacted key depth ≡ true
  unfolding is_clean looks_like_secret is_prefixed_word starts_with all_units
  redacted_visible key depth h = rw h refl

  unless_hidden-is_clean :
      (v : Value) (key : Text) (depth : ℕ)
      → (is_hidden to_lower key depth ≡ false → is_clean v key depth ≡ true)
      → is_clean (unless_hidden to_lower key depth v) key depth ≡ true
  unless_hidden-is_clean v key depth f = elim (Bool-cases (is_hidden to_lower key depth)) [
    | inl h ↦ rw h (redacted-is_clean key depth h)
    | inr o ↦ rw o (f o)
  ]

  sanitize_string-is_clean :
      (t key : Text) (depth : ℕ)
      → is_hidden to_lower key depth ≡ false
      → is_clean (sanitize_string t) key depth ≡ true
  unfolding is_clean sanitize_string
  sanitize_string-is_clean t key depth h = elim (Bool-cases (looks_like_secret t)) [
    | inl secret ↦ rw secret (redacted_visible key depth h)
    | inr plain ↦ elim (Bool-cases (ltb max_metadata_string_length (length t))) [
      | inl long ↦ rw (plain, long) (ground (arith, h, cut-is_plain t (ltb→lt _ _ long)))
      | inr short ↦ rw (plain, short) (ground (arith, h, plain, short))
    ]
  ]

  set_field-clean :
      (fs : Fields) (depth : ℕ)
      → are_clean_fields fs depth ≡ true
      → are_clean_fields (set_field truncated_key (bool true) fs) depth ≡ true
  unfolding are_clean_fields set_field
  set_field-clean end depth h = ground arith
  set_field-clean (field k v fs) depth h = elim (Bool-cases (text_eq k truncated_key)) [
    | inl same ↦ rw same (ground (arith, same, h))
    | inr another ↦ rw another (ground (arith, h, set_field-clean fs depth (ground arith)))
  ]

  count-set_field :
      (key : Text) (v : Value) (fs : Fields)
      → count_fields (set_field key v fs) ≤ suc (count_fields fs)
  unfolding count_fields set_field
  count-set_field key v end = omega arith
  count-set_field key v (field k w fs) = ground (arith, count-set_field key v fs)

  count-sanitize_fields :
      (left : ℕ) (fs : Fields) (depth : ℕ)
      → count_fields (sanitize_fields to_lower left fs depth) ≤ left
  unfolding count_fields sanitize_fields
  count-sanitize_fields left end depth = omega arith
  count-sanitize_fields zero (field k v fs) depth = omega arith
  count-sanitize_fields (suc left) (field k v fs) depth =
      omega (arith, count-sanitize_fields left fs depth)

  finish_fields-clean :
      (count : ℕ) (out : Fields) (depth : ℕ)
      → are_clean_fields out depth ≡ true
      → count_fields out ≤ max_metadata_keys
      → (are_clean_fields (finish_fields to_lower count out) depth
          && leb (count_fields (finish_fields to_lower count out)) 51)
        ≡ true
  finish_fields-clean count out depth h k = elim (Bool-cases (ltb max_metadata_keys count)) [
    | inl more ↦
        rw more (
          ground
            (arith, set_field-clean out depth h, count-set_field truncated_key (bool true) out))
    | inr few ↦ rw few (ground (arith, h, k))
  ]

  mutual
    unfolding is_clean are_clean_items are_clean_fields sanitize_audit_value sanitize_items
        sanitize_fields

    sanitized :
        (v : Value) (key : Text) (depth : ℕ)
        → is_clean (sanitize_audit_value to_lower v key depth) key depth ≡ true
    sanitized null key depth = unless_hidden-is_clean null key depth (λ o. rw o refl)
    sanitized (bool b) key depth = unless_hidden-is_clean (bool b) key depth (λ o. rw o refl)
    sanitized (number true) key depth =
        unless_hidden-is_clean (number true) key depth (λ o. rw o refl)
    sanitized (number false) key depth =
        unless_hidden-is_clean redacted key depth (λ o. redacted_visible key depth o)
    sanitized (str t) key depth =
        unless_hidden-is_clean (sanitize_string t) key depth (sanitize_string-is_clean t key depth)
    sanitized (arr items) key depth =
        unless_hidden-is_clean _ key depth (λ o. rw o (sanitized_items 50 items (suc depth)))
    sanitized (obj fields) key depth = unless_hidden-is_clean _ key depth (λ o. rw o (
        finish_fields-clean (count_fields fields) _ (suc depth)
          (sanitized_fields 50 fields (suc depth)) (count-sanitize_fields 50 fields (suc depth))))
    sanitized other key depth =
        unless_hidden-is_clean redacted key depth (λ o. redacted_visible key depth o)

    sanitized_items :
        (left : ℕ) (vs : Items) (depth : ℕ)
        → are_clean_items left (sanitize_items to_lower left vs depth) depth ≡ true
    sanitized_items zero nil depth = refl
    sanitized_items (suc left) nil depth = refl
    sanitized_items zero (cons v vs) depth = refl
    sanitized_items (suc left) (cons v vs) depth =
        ground (arith, sanitized v [] depth, sanitized_items left vs depth)

    sanitized_fields :
        (left : ℕ) (fs : Fields) (depth : ℕ)
        → are_clean_fields (sanitize_fields to_lower left fs depth) depth ≡ true
    sanitized_fields zero end depth = refl
    sanitized_fields (suc left) end depth = refl
    sanitized_fields zero (field k v fs) depth = refl
    sanitized_fields (suc left) (field k v fs) depth =
        ground (arith, sanitized v k depth, sanitized_fields left fs depth)

  module _ (empty_lower : to_lower [] ≡ []) where
    top_visible : is_hidden to_lower [] 0 ≡ false
    unfolding has_sensitive_key includes starts_with
    top_visible = rw empty_lower refl

    empty-is_clean : is_clean (obj end) [] 0 ≡ true
    unfolding is_clean are_clean_fields count_fields
    empty-is_clean = rw top_visible refl

    object_or_empty-is_clean :
        (v : Value) → is_clean v [] 0 ≡ true → is_clean (object_or_empty to_lower v) [] 0 ≡ true
    object_or_empty-is_clean (obj fields) h = h
    object_or_empty-is_clean null h = empty-is_clean
    object_or_empty-is_clean (bool b) h = empty-is_clean
    object_or_empty-is_clean (number n) h = empty-is_clean
    object_or_empty-is_clean (str t) h = empty-is_clean
    object_or_empty-is_clean (arr items) h = empty-is_clean
    object_or_empty-is_clean other h = empty-is_clean

    -- Given that the empty text has no other lower case, sanitized metadata is clean whatever it
    -- was made from: a value under a sensitive key or below the fourth level is "[REDACTED]", a
    -- value that is a string has at most 2048 units and has not the form of a secret, an array has
    -- at most 50 items and a mark, and an object at most 50 keys and a mark. The form and the
    -- length of the keys themselves are not limited.
    pub sanitize_audit_metadata-is_clean :
        (v : Value) → is_clean (sanitize_audit_metadata to_lower v) [] 0 ≡ true
    unfolding sanitize_audit_metadata
    sanitize_audit_metadata-is_clean (obj fields) =
        object_or_empty-is_clean _ (sanitized (obj fields) [] 0)
    sanitize_audit_metadata-is_clean null = empty-is_clean
    sanitize_audit_metadata-is_clean (bool b) = empty-is_clean
    sanitize_audit_metadata-is_clean (number n) = empty-is_clean
    sanitize_audit_metadata-is_clean (str t) = empty-is_clean
    sanitize_audit_metadata-is_clean (arr items) = empty-is_clean
    sanitize_audit_metadata-is_clean other = empty-is_clean
