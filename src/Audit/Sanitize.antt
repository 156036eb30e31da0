-- ===== src/Audit/Sanitize.antt =====
-- `sanitizeAuditValue` (packages/db/src/repositories/audit.ts).
-- A text is a list of UTF-16 units. `toLowerCase` follows Unicode's tables, so it is a parameter.
-- The object that is built has the entries' keys, which are different.
use replay_bug.Common.{
  ℕ, zero, suc, Bool, true, false, ◌&&◌, ◌||◌, ltb, leb, ◌==◌, if◌then◌else◌, List, [], ◌∷◌, ◌++◌,
  any, length, take, drop,
}
use replay_bug.Common.Text.{Text, codes}
use replay_bug.Audit.Value.{
  Value, null, bool, number, str, arr, obj, other, Items, nil, cons, Fields, end, field,
  count_fields, set_field,
}

abbrev pub sensitive_keys : List Text
sensitive_keys =
    codes "password"
    ∷ codes "secret"
    ∷ codes "token"
    ∷ codes "cookie"
    ∷ codes "authorization"
    ∷ codes "key"
    ∷ codes "credential"
    ∷ codes "credentials"
    ∷ codes "hash"
    ∷ codes "error"
    ∷ codes "stack"
    ∷ codes "sql"
    ∷ codes "query"
    ∷ codes "connection"
    ∷ []

abbrev pub max_metadata_depth : ℕ
max_metadata_depth = 4

abbrev pub max_metadata_keys : ℕ
max_metadata_keys = 50

abbrev pub max_metadata_items : ℕ
max_metadata_items = 50

abbrev pub max_metadata_string_length : ℕ
max_metadata_string_length = 2048

abbrev pub redacted : Value
redacted = str (codes "[REDACTED]")

abbrev pub truncated : Value
truncated = str (codes "[TRUNCATED]")

abbrev pub truncated_key : Text
truncated_key = codes "_truncated"

unfoldable pub starts_with : Text → Text → Bool
starts_with [] t = true
starts_with (c ∷ cs) [] = false
starts_with (c ∷ cs) (d ∷ ds) = let rest = starts_with cs ds in (c == d) && rest

-- `text.includes(part)`
unfoldable pub includes : Text → Text → Bool
unfolding starts_with
includes part [] = starts_with part []
includes part (c ∷ cs) = let rest = includes part cs in starts_with part (c ∷ cs) || rest

unfoldable pub all_units : (ℕ → Bool) → Text → Bool
all_units p [] = true
all_units p (c ∷ cs) = let rest = all_units p cs in p c && rest

abbrev pub is_lower_hex : ℕ → Bool
is_lower_hex c = (leb b'0' c && leb c b'9') || (leb b'a' c && leb c b'f')

-- `[A-Za-z0-9_-]`
abbrev pub is_word : ℕ → Bool
is_word c =
    (leb b'A' c && leb c b'Z')
    || (leb b'a' c && leb c b'z')
    || (leb b'0' c && leb c b'9')
    || (c == b'_')
    || (c == b'-')

-- A prefix, and at least one unit of a word after it.
unfoldable pub is_prefixed_word : Text → Text → Bool
is_prefixed_word prefix t =
    starts_with prefix t
    && (ltb (length prefix) (length t) && all_units is_word (drop (length prefix) t))

unfoldable pub looks_like_secret : Text → Bool
looks_like_secret t =
    (is_prefixed_word (codes "rb_sk_") t || is_prefixed_word (codes "rb_inv_") t)
    || ((length t == 64) && all_units is_lower_hex t)

-- The branch of the strings.
unfoldable pub sanitize_string : Text → Value
sanitize_string t =
    if looks_like_secret t
    then redacted
    else if ltb max_metadata_string_length (length t)
    then str (take 2047 t ++ (8230 ∷ []))
    else str t

module _ (to_lower : Text → Text) where
  unfoldable pub has_sensitive_key : Text → Bool
  unfolding includes
  has_sensitive_key key = any (λ sensitive. includes sensitive (to_lower key)) sensitive_keys

  -- The two tests at the start, that of the key and that of the depth.
  abbrev pub is_hidden : Text → ℕ → Bool
  is_hidden key depth = has_sensitive_key key || ltb max_metadata_depth depth

  abbrev pub unless_hidden : Text → ℕ → Value → Value
  unless_hidden key depth value = if is_hidden key depth then redacted else value

  abbrev pub finish_fields : ℕ → Fields → Fields
  finish_fields count out =
      if ltb max_metadata_keys count then set_field truncated_key (bool true) out else out

  unfoldable mutual
    pub sanitize_audit_value : Value → Text → ℕ → Value
    sanitize_audit_value null key depth = unless_hidden key depth null
    sanitize_audit_value (bool b) key depth = unless_hidden key depth (bool b)
    sanitize_audit_value (number finite) key depth =
        unless_hidden key depth (if finite then number finite else redacted)
    sanitize_audit_value (str t) key depth = unless_hidden key depth (sanitize_string t)
    sanitize_audit_value (arr items) key depth =
        unless_hidden key depth (arr (sanitize_items max_metadata_items items (suc depth)))
    sanitize_audit_value (obj fields) key depth = unless_hidden key depth (
        obj (
          finish_fields (count_fields fields)
            (sanitize_fields max_metadata_keys fields (suc depth))))
    sanitize_audit_value other key depth = unless_hidden key depth redacted

    -- `slice`, `map`, and the mark of what was left out.
    pub sanitize_items : ℕ → Items → ℕ → Items
    sanitize_items left nil depth = nil
    sanitize_items zero (cons v vs) depth = cons truncated nil
    sanitize_items (suc left) (cons v vs) depth =
        cons (sanitize_audit_value v [] depth) (sanitize_items left vs depth)

    pub sanitize_fields : ℕ → Fields → ℕ → Fields
    sanitize_fields left end depth = end
    sanitize_fields zero (field k v fs) depth = end
    sanitize_fields (suc left) (field k v fs) depth =
        field k (sanitize_audit_value v k depth) (sanitize_fields left fs depth)

  abbrev pub object_or_empty : Value → Value
  object_or_empty (obj fields) = obj fields
  object_or_empty _ = obj end

  unfoldable pub sanitize_audit_metadata : Value → Value
  sanitize_audit_metadata (obj fields) = object_or_empty (sanitize_audit_value (obj fields) [] 0)
  sanitize_audit_metadata _ = obj end
