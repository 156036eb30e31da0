-- ===== src/Issues/Steps.antt =====
-- The events, deliveries and requests that change the tables of issues, in any order
-- (apps/worker/src/processors/process-event.ts, apps/api/src/services/issues.ts,
-- packages/db/src/repositories/telemetry.ts).
use replay_bug.Common.{ℕ, false, ◌≡◌, inl, inr, Option, List, [], ◌∷◌, ◌++◌, any, arith, Bool-cases}
use replay_bug.Common.Text.{Text}
use replay_bug.Common.Rows.{All-imp}
use replay_bug.Common.RowLaws.{Distinct-append, All-of_any, count-append_one}
use replay_bug.Common.RowUpdates.{All-append_one}
use replay_bug.Issues.Store.{
  IssueStatus, IssueRow, NewEvent, Db, new_event, same_client_event, insert_event,
}
use replay_bug.Issues.Process.{SymbolicationResult, NormalizableStackFrame, Derived, process_event}
use replay_bug.Issues.Service.{update_issue_status, update_issue_assignee}
use replay_bug.Issues.Tables.{is_event}
use replay_bug.Issues.Consistent.{
  has_id, same_event, counts, Seen, seen_at, caused_by, IssueOk, Related, Caused, Consistent,
}
use replay_bug.Issues.Occurrence.{any-append_left}
use replay_bug.Issues.Delivery.{process_event-Consistent}
use replay_bug.Issues.Requests.{update_issue_status-Consistent, update_issue_assignee-Consistent}

module _ {P : Type 0} (db : Db P SymbolicationResult) (new_id : ℕ) (v : NewEvent P)
    (unused : any (is_event new_id) db.events ≡ false) (c : Consistent db) where
  -- A new event counts for no issue.
  IssueOk-insert :
      (i : IssueRow)
      → IssueOk db.events db.affected i
      → IssueOk (db.events ++ (new_event new_id v ∷ [])) db.affected i
  IssueOk-insert i k =
      let t = k.tallied in
      record {
        tallied = record {
          counted =
              omega
                (arith, t.counted, count-append_one (counts i.id) db.events (new_event new_id v));
          sessions = t.sessions;
          seen = All-append_one (Seen i) db.events (new_event new_id v) t.seen (λ e. absurd (cc));
          lifecycle = t.lifecycle;
        };
        first = any-append_left (seen_at i.id i.first_seen_at) db.events _ k.first;
        last = any-append_left (seen_at i.id i.last_seen_at) db.events _ k.last;
      }

  pub insert_event-Consistent : Consistent (insert_event new_id v db).0
  unfolding insert_event
  insert_event-Consistent =
      elim (Bool-cases (any (same_client_event v.project_id v.client_event_id) db.events)) [
        | inl k ↦ rw k c
        | inr k ↦ rw k (record {
          event_ids =
              Distinct-append same_event db.events (new_event new_id v) c.event_ids
                (All-of_any _ _ unused);
          issue_ids = c.issue_ids;
          issue_keys = c.issue_keys;
          relation_keys = c.relation_keys;
          issues_ok = All-imp _ _ IssueOk-insert db.issues c.issues_ok;
          related =
              All-append_one (Related db.issues db.affected) db.events (new_event new_id v)
                c.related (λ i e. absurd (cc));
          caused =
              All-imp (Caused db.events) _ (λ a q. any-append_left (caused_by a) db.events _ q)
                db.affected c.caused;
        })
      ]

module _ {P : Type 0} where
  -- What can happen to the tables: an event is ingested, a job delivers one, again or for the first
  -- time, and a user changes a status or an assignee. Ids that the database gives are unused.
  pub data Step : Db P SymbolicationResult → Db P SymbolicationResult → Type 0 where
    ingested :
        {db : Db P SymbolicationResult} (new_id : ℕ) (v : NewEvent P)
        → any (is_event new_id) db.events ≡ false
        → Step db (insert_event new_id v db).0
    delivered :
        {db : Db P SymbolicationResult}
        (symbolicate : ℕ → Option Text → P → Option SymbolicationResult)
        (derive : ℕ → Text → P → Option (List NormalizableStackFrame) → Derived)
        (new_id now event_id : ℕ)
        → any (has_id new_id) db.issues ≡ false
        → Step db (process_event symbolicate derive new_id now event_id db).0
    status_set :
        {db : Db P SymbolicationResult} (now user_id issue_id : ℕ) (status : IssueStatus)
        → Step db (update_issue_status now user_id issue_id status db).0
    assignee_set :
        {db : Db P SymbolicationResult} (now user_id issue_id : ℕ) (assignee : Option ℕ)
        → Step db (update_issue_assignee now user_id issue_id assignee db).0

  pub data Reach (start : Db P SymbolicationResult) : Db P SymbolicationResult → Type 0 where
    here : Reach start start
    next : {db db' : Db P SymbolicationResult} → Reach start db → Step db db' → Reach start db'

  step-Consistent :
      (db db' : Db P SymbolicationResult) → Step db db' → Consistent db → Consistent db'
  step-Consistent db _ (ingested new_id v unused) c = insert_event-Consistent db new_id v unused c
  step-Consistent db _ (delivered symbolicate derive new_id now event_id unused) c =
      process_event-Consistent symbolicate derive new_id now event_id db c unused
  step-Consistent db _ (status_set now user_id issue_id status) c =
      update_issue_status-Consistent now user_id issue_id db c status
  step-Consistent db _ (assignee_set now user_id issue_id assignee) c =
      update_issue_assignee-Consistent now user_id issue_id db c assignee

  -- From consistent tables, such as empty ones, any sequence of ingested events, deliveries, of any
  -- event and any number of times, and changes of status and assignee by any user leads to
  -- consistent tables: each issue counts as many occurrences and sessions as it has, is first and
  -- last seen at the first and the last of them, has a time of resolution exactly if it is
  -- resolved, and is the only one of its project and fingerprint.
  pub reach-Consistent :
      (start db : Db P SymbolicationResult) → Reach start db → Consistent start → Consistent db
  reach-Consistent start _ here c = c
  reach-Consistent start _ (next {db} {db'} r s) c =
      step-Consistent db db' s (reach-Consistent start db r c)
