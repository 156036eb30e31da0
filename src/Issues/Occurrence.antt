-- ===== src/Issues/Occurrence.antt =====
-- An occurrence keeps the tables consistent (apps/worker/src/processors/process-event.ts).
use replay_bug.Common.{
  ℕ, Bool, true, false, ◌==◌, ◌≡◌, refl, subst, inl, inr, Option, some, List, [], ◌∷◌, ◌++◌, map,
  any, All, arith, Bool-cases, append-nil,
}
use replay_bug.Common.Text.{Text}
use replay_bug.Common.Rows.{find, Distinct, at, All-imp}
use replay_bug.Common.RowLaws.{
  Only-of_distinct, any-of_find, All-of_any, any-append_one, any-map, Distinct-map, Distinct-append,
}
use replay_bug.Common.RowUpdates.{All-at, any-at_here, any-at_keep, All-append_one}
use replay_bug.Issues.Store.{
  IssueRow, EventRow, IssueAffectedSessionRow, Db, occurred, at_issue, is_relation,
}
use replay_bug.Issues.Process.{SymbolicationResult, LockOrCreateResult, reopens}
use replay_bug.Issues.Tables.{is_event, settle, relation, is_new_session, after_occurrence}
use replay_bug.Issues.Consistent.{
  has_id, same_id, same_key, same_relation, same_event, caused_by, Tallied, IssueOk, Related,
  Caused, Consistent,
}
use replay_bug.Issues.Tallies.{
  events_after, affected_after, pending-counts, Pending, Ends, IssueOk-other, IssueOk-target,
}

-- The issue of an event as it was locked or created, in tables that are consistent but for it.
pub record Found {P : Type 0} (db : Db P SymbolicationResult)
    (event : EventRow P SymbolicationResult) (fingerprint : ℕ) (row : IssueRow) : Type 0 where
  pub event_ids : Distinct same_event db.events
  pub issue_ids : Distinct same_id db.issues
  pub issue_keys : Distinct same_key db.issues
  pub relation_keys : Distinct same_relation db.affected
  pub here : find (has_id row.id) db.issues ≡ some row
  pub project : row.project_id ≡ event.project_id
  pub group : row.fingerprint ≡ fingerprint
  pub tallied : Tallied db.events db.affected row
  pub ends : Ends db.events event row.id row
  pub others : All (λ i. has_id row.id i ≡ false → IssueOk db.events db.affected i) db.issues
  pub related : All (Related db.issues db.affected) db.events
  pub caused : All (Caused db.events) db.affected

-- An occurrence keeps the keys of an issue.
keys_kept :
    (now time : ℕ) (r : Option Text) (new_session reopen : Bool) (target : ℕ) (i : IssueRow)
    → let j = at_issue target (occurred now time r new_session reopen) i in
      (j.id ≡ i.id) × (j.project_id ≡ i.project_id) × (j.fingerprint ≡ i.fingerprint)
unfolding occurred
keys_kept now time r new_session reopen target i = elim (Bool-cases (i.id == target)) [
  | inl k ↦ simp k (refl, refl, refl)
  | inr k ↦ simp k (refl, refl, refl)
]

same_id_kept :
    (now time : ℕ) (r : Option Text) (new_session reopen : Bool) (target : ℕ) (i j : IssueRow)
    → let f = at_issue target (occurred now time r new_session reopen) in
      same_id (f i) (f j) ≡ same_id i j
same_id_kept now time r new_session reopen target i j =
    rw
      (
        (keys_kept now time r new_session reopen target i).0,
        (keys_kept now time r new_session reopen target j).0,
      )
      refl

same_key_kept :
    (now time : ℕ) (r : Option Text) (new_session reopen : Bool) (target : ℕ) (i j : IssueRow)
    → let f = at_issue target (occurred now time r new_session reopen) in
      same_key (f i) (f j) ≡ same_key i j
same_key_kept now time r new_session reopen target i j =
    let (_, a, b) = keys_kept now time r new_session reopen target i in
    let (_, c, d) = keys_kept now time r new_session reopen target j in rw (a, b, c, d) refl

event_id_kept :
    {P : Type 0} (p : EventRow P SymbolicationResult → Bool)
    (f : EventRow P SymbolicationResult → EventRow P SymbolicationResult)
    → ((x : EventRow P SymbolicationResult) → (f x).id ≡ x.id)
    → (x : EventRow P SymbolicationResult) → (at p f x).id ≡ x.id
event_id_kept p f keeps x = elim (Bool-cases (p x)) [
  | inl k ↦ simp k (keeps x)
  | inr k ↦ simp k refl
]

pub same_event_kept :
    {P : Type 0} (p : EventRow P SymbolicationResult → Bool)
    (f : EventRow P SymbolicationResult → EventRow P SymbolicationResult)
    → ((x : EventRow P SymbolicationResult) → (f x).id ≡ x.id)
    → (x y : EventRow P SymbolicationResult) → same_event (at p f x) (at p f y) ≡ same_event x y
same_event_kept p f keeps x y = rw (event_id_kept p f keeps x, event_id_kept p f keeps y) refl

pub any-append_left :
    {A : Type 0} (p : A → Bool) (xs ys : List A) → any p xs ≡ true → any p (xs ++ ys) ≡ true
any-append_left p [] ys h = cc
any-append_left p (x ∷ xs) ys h = ground (arith, any-append_left p xs ys)

module _ {P : Type 0} (affected : List IssueAffectedSessionRow)
    (event : EventRow P SymbolicationResult) (target : ℕ) where
  -- The event's session is related to its issue afterwards.
  relation_there :
      any (is_relation target event.telemetry_session_id) (affected_after affected event target)
      ≡ true
  relation_there =
      elim (Bool-cases (any (is_relation target event.telemetry_session_id) affected)) [
        | inl k ↦ rw (k, append-nil affected, k)
        | inr k ↦ rw k (
            ground (
              arith,
              any-append_one (is_relation target event.telemetry_session_id) affected
                  (relation target event),
            ))
      ]

  relation_keys_kept :
      Distinct same_relation affected
      → Distinct same_relation (affected_after affected event target)
  relation_keys_kept d =
      elim (Bool-cases (any (is_relation target event.telemetry_session_id) affected)) [
        | inl k ↦ rw (k, append-nil affected) d
        | inr k ↦ rw k (
            Distinct-append same_relation affected (relation target event) d (
              All-imp (λ a. is_relation target event.telemetry_session_id a ≡ false)
                (λ a. same_relation a (relation target event) ≡ false) (λ a q. ground arith)
                affected (All-of_any _ affected k)))
      ]

  All-affected_after :
      (Q : IssueAffectedSessionRow → Type 0)
      → All Q affected
      → Q (relation target event)
      → All Q (affected_after affected event target)
  All-affected_after Q t here =
      elim (Bool-cases (any (is_relation target event.telemetry_session_id) affected)) [
        | inl k ↦ rw (k, append-nil affected) t
        | inr k ↦ rw k (All-append_one Q affected (relation target event) t here)
      ]

module _ {P : Type 0} {db : Db P SymbolicationResult} {event : EventRow P SymbolicationResult}
    {fingerprint : ℕ} {row : IssueRow} (now workspace_id : ℕ) (symbolication : SymbolicationResult)
    (is_new : Bool) (h : Pending db.events event) (f : Found db event fingerprint row) where
  issues_ok_after :
      (reopen : Bool)
      → let new_session = is_new_session db.affected row.id event in
        let patch = occurred now event.occurred_at event.release new_session reopen in
        All
          (IssueOk
            (events_after db.events event symbolication fingerprint row.id)
            (affected_after db.affected event row.id))
          (map (at_issue row.id patch) db.issues)
  issues_ok_after reopen =
      All-at (has_id row.id) _ row (λ i. has_id row.id i ≡ false → IssueOk db.events db.affected i)
        _ db.issues
        (Only-of_distinct (has_id row.id) same_id (λ x y a b. ground arith) db.issues f.issue_ids)
        f.here f.others
        (λ i other q.
          IssueOk-other symbolication fingerprint row.id h db.affected i other (q other))
        (IssueOk-target symbolication fingerprint row.id h db.affected row now reopen refl f.project
          f.group f.tallied f.ends)

  Related-after :
      (issues : List IssueRow)
      → ((i : ℕ) → any (has_id i) issues ≡ any (has_id i) db.issues)
      → All
          (Related issues (affected_after db.affected event row.id))
          (events_after db.events event symbolication fingerprint row.id)
  Related-after issues same =
      All-at (is_event event.id) (settle symbolication (some fingerprint) (some row.id)) event
        (Related db.issues db.affected) _ db.events h.only h.there f.related
        (λ e _ q i c.
          let (a, b) = q i c in
          (rw (same i) a, any-append_left (is_relation i e.telemetry_session_id) db.affected _ b))
        (λ i c.
          let e : row.id ≡ i = ground arith in
          (
            rw (same i) (
                any-of_find (has_id i) db.issues row
                  (subst (λ z. find (has_id z) db.issues ≡ some row) e f.here)),
            subst
                (λ z.
                  any (is_relation z event.telemetry_session_id)
                    (affected_after db.affected event row.id)
                  ≡ true)
                e (relation_there db.affected event row.id),
          ))

  Caused-after :
      All
        (Caused (events_after db.events event symbolication fingerprint row.id))
        (affected_after db.affected event row.id)
  Caused-after =
      let update = settle symbolication (some fingerprint) (some row.id) in
      All-affected_after db.affected event row.id _
        (All-imp (Caused db.events) _
          (λ a q.
            any-at_keep (is_event event.id) update event (caused_by a) db.events h.only h.there
              (rw (pending-counts a.issue_id event h.is_pending) refl) q)
          db.affected f.caused)
        (any-at_here (is_event event.id) update event (caused_by (relation row.id event)) db.events
          h.there (ground arith))

  pub after_occurrence-Consistent :
      let found : LockOrCreateResult = record { row = row; created = is_new } in
      Consistent (after_occurrence now event workspace_id symbolication fingerprint found db)
  after_occurrence-Consistent =
      let found : LockOrCreateResult = record { row = row; created = is_new } in
      let new_session = is_new_session db.affected row.id event in
      let reopen = reopens found in
      let patch =
        at_issue row.id (occurred now event.occurred_at event.release new_session reopen) in
      record {
        event_ids =
            Distinct-map same_event _
              (same_event_kept (is_event event.id)
                (settle symbolication (some fingerprint) (some row.id)) (λ x. refl))
              db.events f.event_ids;
        issue_ids =
            Distinct-map same_id patch
              (same_id_kept now event.occurred_at event.release new_session reopen row.id) db.issues
              f.issue_ids;
        issue_keys =
            Distinct-map same_key patch
              (same_key_kept now event.occurred_at event.release new_session reopen row.id)
              db.issues f.issue_keys;
        relation_keys = relation_keys_kept db.affected event row.id f.relation_keys;
        issues_ok = issues_ok_after reopen;
        related = Related-after _ (λ i.
            any-map (has_id i) patch
              (λ x.
                rw (keys_kept now event.occurred_at event.release new_session reopen row.id x).0
                  refl)
              db.issues);
        caused = Caused-after;
      }
