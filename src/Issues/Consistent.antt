-- ===== src/Issues/Consistent.antt =====
-- What the aggregates of issues say of the events (packages/db/src/repositories/issues.ts,
-- issue-affected-sessions.ts).
use replay_bug.Common.{
  ℕ, ◌≤◌, Bool, true, false, ◌==◌, ◌&&◌, ◌≡◌, Option, none, some, List, any, All, is_some,
}
use replay_bug.Common.Rows.{count, Distinct}
use replay_bug.Issues.Store.{
  resolved, is_status, IssueRow, EventProcessingState, pending, processed, rejected, EventRow,
  IssueAffectedSessionRow, Db, has_fingerprint, is_relation,
}
use replay_bug.Issues.Process.{SymbolicationResult}

abbrev pub is_processed : EventProcessingState → Bool
is_processed processed = true
is_processed pending = false
is_processed rejected = false

abbrev pub is_issue : ℕ → Option ℕ → Bool
is_issue i none = false
is_issue i (some j) = j == i

abbrev pub has_id : ℕ → IssueRow → Bool
has_id i row = row.id == i

abbrev pub same_id : IssueRow → IssueRow → Bool
same_id a b = a.id == b.id

abbrev pub same_key : IssueRow → IssueRow → Bool
same_key a b = has_fingerprint a.project_id a.fingerprint b

abbrev pub same_relation : IssueAffectedSessionRow → IssueAffectedSessionRow → Bool
same_relation a b = is_relation a.issue_id a.telemetry_session_id b

abbrev pub of_issue : ℕ → IssueAffectedSessionRow → Bool
of_issue i a = a.issue_id == i

module _ {P : Type 0} where
  abbrev pub same_event : EventRow P SymbolicationResult → EventRow P SymbolicationResult → Bool
  same_event a b = a.id == b.id

  -- Whether an event is an occurrence of an issue.
  abbrev pub counts : ℕ → EventRow P SymbolicationResult → Bool
  counts i e = is_processed e.processing_state && is_issue i e.issue_id

  -- An occurrence lies between first and last seen, in the issue's project and group.
  abbrev pub Seen : IssueRow → EventRow P SymbolicationResult → Type 0
  Seen i e =
      counts i.id e ≡ true
      → (i.first_seen_at ≤ e.occurred_at)
        × (e.occurred_at ≤ i.last_seen_at)
        × (e.project_id ≡ i.project_id)
        × (e.fingerprint ≡ some i.fingerprint)

  -- An occurrence at a time.
  abbrev pub seen_at : ℕ → ℕ → EventRow P SymbolicationResult → Bool
  seen_at i t e = counts i e && (e.occurred_at == t)

  -- An occurrence in a session.
  abbrev pub caused_by : IssueAffectedSessionRow → EventRow P SymbolicationResult → Bool
  caused_by a e = counts a.issue_id e && (e.telemetry_session_id == a.telemetry_session_id)

  -- The row of an issue agrees with its occurrences, but for the ends of the time that they span.
  pub record Tallied (events : List (EventRow P SymbolicationResult))
      (affected : List IssueAffectedSessionRow) (i : IssueRow) : Type 0 where
    pub counted : i.occurrence_count ≡ count (counts i.id) events
    pub sessions : i.affected_session_count ≡ count (of_issue i.id) affected
    pub seen : All (Seen i) events
    pub lifecycle : is_some i.resolved_at ≡ is_status i.status resolved

  pub record IssueOk (events : List (EventRow P SymbolicationResult))
      (affected : List IssueAffectedSessionRow) (i : IssueRow) : Type 0 where
    pub tallied : Tallied events affected i
    pub first : any (seen_at i.id i.first_seen_at) events ≡ true
    pub last : any (seen_at i.id i.last_seen_at) events ≡ true

  -- The issue of an event is there, and so is the relation of its session to it.
  abbrev pub Related :
      List IssueRow → List IssueAffectedSessionRow → EventRow P SymbolicationResult → Type 0
  Related issues affected e =
      (i : ℕ)
      → counts i e ≡ true
      → (any (has_id i) issues ≡ true)
        × (any (is_relation i e.telemetry_session_id) affected ≡ true)

  abbrev pub Caused : List (EventRow P SymbolicationResult) → IssueAffectedSessionRow → Type 0
  Caused events a = any (caused_by a) events ≡ true

  -- Ids and keys are unique, each issue agrees with its occurrences, and the relations are exactly
  -- those of the occurrences' sessions.
  pub record Consistent (db : Db P SymbolicationResult) : Type 0 where
    pub event_ids : Distinct same_event db.events
    pub issue_ids : Distinct same_id db.issues
    pub issue_keys : Distinct same_key db.issues
    pub relation_keys : Distinct same_relation db.affected
    pub issues_ok : All (IssueOk db.events db.affected) db.issues
    pub related : All (Related db.issues db.affected) db.events
    pub caused : All (Caused db.events) db.affected
