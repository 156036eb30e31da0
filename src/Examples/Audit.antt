-- ===== src/Examples/Audit.antt =====
-- Sanitized metadata at a concrete input (packages/db/src/repositories/audit.ts).
use replay_bug.Common.{true, ◌≡◌, refl, []}
use replay_bug.Common.Text.{Text, codes}
use replay_bug.Audit.Value.{Value, str, obj, end, field, count_fields}
use replay_bug.Audit.Sanitize.{
  redacted, sanitize_audit_metadata, sanitize_audit_value, sanitize_items, sanitize_fields,
  sanitize_string, looks_like_secret, is_prefixed_word, starts_with, includes, all_units,
  has_sensitive_key,
}
use replay_bug.Audit.Clean.{is_clean, sanitize_audit_metadata-is_clean}

-- On texts without capitals.
abbrev same_text : Text → Text
same_text t = t

abbrev metadata : Value
metadata = obj (
    field (codes "reason") (str (codes "left")) (
      field (codes "api_key") (str (codes "abc"))
        (field (codes "note") (str (codes "rb_sk_4f")) end)))

sanitize_audit_metadata-is_clean_example :
    is_clean same_text (sanitize_audit_metadata same_text metadata) [] 0 ≡ true
sanitize_audit_metadata-is_clean_example = sanitize_audit_metadata-is_clean same_text refl metadata

metadata_sanitized :
    sanitize_audit_metadata same_text metadata
    ≡ obj (
        field
          (codes "reason")
          (str (codes "left"))
          (field (codes "api_key") redacted (field (codes "note") redacted end)))
unfolding sanitize_audit_metadata sanitize_audit_value sanitize_items sanitize_fields
    sanitize_string looks_like_secret is_prefixed_word starts_with includes all_units
    has_sensitive_key count_fields
metadata_sanitized = refl
