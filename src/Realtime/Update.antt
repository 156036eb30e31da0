-- ===== src/Realtime/Update.antt =====
-- The validation of a LISTEN payload (apps/api/src/realtime/broker.ts). A parsed payload is an
-- object, read field by field, or something else; what is no number and no text is `other`.
use Prim.Native.String.{String}
use replay_bug.Common.{
  ℕ, zero, suc, Bool, true, false, ◌&&◌, ◌||◌, leb, ◌==◌, if◌then◌else◌, Option, none, some, List,
  [], ◌∷◌, any,
}
use replay_bug.Common.Text.{Text, codes, text_eq}

pub data Value : Type 0 where
  undefined : Value
  number : ℕ → Value
  text : Text → Value
  other : Value

pub data Payload : Type 0 where
  object : (String → Value) → Payload
  not_object : Payload

pub record ValidatedProjectUpdate : Type 0 where
  pub update_type : Text
  pub project_id : Text
  pub issue_id : Text
  pub event_id : Option Text
  pub reproduction_id : Option Text
  pub analysis_id : Option Text

abbrev pub known_types : List Text
known_types =
    codes "issue.created"
    ∷ codes "issue.updated"
    ∷ codes "issue.regressed"
    ∷ codes "comment.created"
    ∷ codes "assignment.changed"
    ∷ codes "tags.changed"
    ∷ codes "reproduction.ready"
    ∷ codes "reproduction.failed"
    ∷ codes "ai_analysis.ready"
    ∷ codes "ai_analysis.failed"
    ∷ []

abbrev pub is_hex : ℕ → Bool
is_hex c = (leb b'0' c && leb c b'9') || (leb b'a' c && leb c b'f') || (leb b'A' c && leb c b'F')

-- `[0-9a-f]{n}`, and what follows it.
unfoldable pub hex_run : ℕ → Text → Option Text
hex_run zero cs = some cs
hex_run (suc n) [] = none
hex_run (suc n) (c ∷ cs) = let rest = hex_run n cs in if is_hex c then rest else none

-- A run of hexadecimal digits and a dash.
unfoldable pub hex_dash : ℕ → Text → Option Text
hex_dash n cs = elim (hex_run n cs) [
  | none ↦ none
  | some [] ↦ none
  | some (d ∷ ds) ↦ if d == b'-' then some ds else none
]

infixl 5 ◌>>=◌
abbrev ◌>>=◌ {ℓ κ} : {A : Type ℓ} {B : Type κ} → Option A → (A → Option B) → Option B
none >>= k = none
some a >>= k = k a

abbrev at_end : Option Text → Bool
at_end (some []) = true
at_end _ = false

-- `UUID_RE`
unfoldable pub is_uuid : Text → Bool
unfolding hex_run hex_dash
is_uuid cs =
    at_end
      (do a ← hex_dash 8 cs; b ← hex_dash 4 a; c ← hex_dash 4 b; d ← hex_dash 4 c; hex_run 12 d)

-- `isUuid(value)`, with the text.
unfoldable pub uuid_of : Value → Option Text
uuid_of (text t) = if is_uuid t then some t else none
uuid_of _ = none

unfoldable pub known_type : Value → Option Text
known_type (text t) = if any (λ k. text_eq t k) known_types then some t else none
known_type _ = none

-- An id that may be left out, but is no other value.
unfoldable pub optional_uuid : Value → Option (Option Text)
unfolding uuid_of
optional_uuid undefined = some none
optional_uuid v = elim (uuid_of v) [ none ↦ none | some t ↦ some (some t) ]

-- `record["version"] !== 1`
abbrev version_1 : Value → Option (Unit {0})
version_1 (number n) = if n == 1 then some tt else none
version_1 _ = none

unfoldable pub validate_project_update : Payload → Option ValidatedProjectUpdate
unfolding uuid_of known_type optional_uuid
validate_project_update not_object = none
validate_project_update (object field) = do
  version ← version_1 (field "version")
  update_type ← known_type (field "type")
  project_id ← uuid_of (field "projectId")
  issue_id ← uuid_of (field "issueId")
  event_id ← optional_uuid (field "eventId")
  reproduction_id ← optional_uuid (field "reproductionId")
  analysis_id ← optional_uuid (field "analysisId")
  some (record {
    update_type = update_type;
    project_id = project_id;
    issue_id = issue_id;
    event_id = event_id;
    reproduction_id = reproduction_id;
    analysis_id = analysis_id;
  })
