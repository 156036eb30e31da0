-- ===== src/Realtime/Notification.antt =====
-- What the database layer announces on the channel
-- (packages/db/src/repositories/project-updates.ts). `JSON.stringify` and `JSON.parse` hand the
-- fields over as they are, and leave out the undefined.
use package.text.Mathlib.Text.{◌==◌ as str_eq}
use replay_bug.Common.{true, if◌then◌else◌, Option, none, some, ◌≡◌, refl, arith}
use replay_bug.Common.Text.{Text, codes}
use replay_bug.Realtime.Update.{
  Value, undefined, number, text, Payload, object, ValidatedProjectUpdate, is_uuid, known_type,
  optional_uuid, validate_project_update,
}

pub data ProjectUpdateType : Type 0 where
  issue_created issue_updated issue_regressed comment_created assignment_changed : ProjectUpdateType
  tags_changed reproduction_ready reproduction_failed : ProjectUpdateType
  ai_analysis_ready ai_analysis_failed : ProjectUpdateType

unfoldable pub type_text : ProjectUpdateType → Text
type_text issue_created = codes "issue.created"
type_text issue_updated = codes "issue.updated"
type_text issue_regressed = codes "issue.regressed"
type_text comment_created = codes "comment.created"
type_text assignment_changed = codes "assignment.changed"
type_text tags_changed = codes "tags.changed"
type_text reproduction_ready = codes "reproduction.ready"
type_text reproduction_failed = codes "reproduction.failed"
type_text ai_analysis_ready = codes "ai_analysis.ready"
type_text ai_analysis_failed = codes "ai_analysis.failed"

pub record ProjectUpdateNotification : Type 0 where
  pub update_type : ProjectUpdateType
  pub project_id : Text
  pub issue_id : Text
  pub event_id : Option Text
  pub reproduction_id : Option Text
  pub analysis_id : Option Text

abbrev pub optional_text : Option Text → Value
optional_text none = undefined
optional_text (some t) = text t

-- The payload of `notifyProjectIssueUpdate`, field by field.
unfoldable pub payload_of : ProjectUpdateNotification → Payload
unfolding type_text
payload_of n = object (λ key.
    if str_eq key "version"
    then number 1
    else if str_eq key "type"
    then text (type_text n.update_type)
    else if str_eq key "projectId"
    then text n.project_id
    else if str_eq key "issueId"
    then text n.issue_id
    else if str_eq key "eventId"
    then optional_text n.event_id
    else if str_eq key "reproductionId"
    then optional_text n.reproduction_id
    else if str_eq key "analysisId"
    then optional_text n.analysis_id
    else undefined)

known_type_text : (k : ProjectUpdateType) → known_type (text (type_text k)) ≡ some (type_text k)
unfolding known_type type_text
known_type_text issue_created = refl
known_type_text _ = refl

abbrev pub AnId : Option Text → Type 0
AnId none = Unit
AnId (some t) = is_uuid t ≡ true

optional_uuid_text : (o : Option Text) → AnId o → optional_uuid (optional_text o) ≡ some o
unfolding optional_uuid
optional_uuid_text none h = refl
optional_uuid_text (some t) h = ground arith

-- The fields of an announced update, as the broker hands them on.
abbrev pub announced : ProjectUpdateNotification → ValidatedProjectUpdate
announced n = record {
  update_type = type_text n.update_type;
  project_id = n.project_id;
  issue_id = n.issue_id;
  event_id = n.event_id;
  reproduction_id = n.reproduction_id;
  analysis_id = n.analysis_id;
}

-- Every update that the database layer announces, of any type and with UUIDs for its ids, passes
-- the broker's validation unchanged.
pub validate-payload_of :
    (n : ProjectUpdateNotification)
    → is_uuid n.project_id ≡ true
    → is_uuid n.issue_id ≡ true
    → AnId n.event_id
    → AnId n.reproduction_id
    → AnId n.analysis_id
    → validate_project_update (payload_of n) ≡ some (announced n)
unfolding validate_project_update payload_of
validate-payload_of n p i e r a = ground (
  arith,
  known_type_text n.update_type,
  optional_uuid_text n.event_id e,
  optional_uuid_text n.reproduction_id r,
  optional_uuid_text n.analysis_id a,
)
