-- ===== src/Issues/Settled.antt =====
-- An event that is settled without an issue, and the issue that an event finds or creates
-- (apps/worker/src/processors/process-event.ts).
use replay_bug.Common.{
  ℕ, false, ◌≡◌, refl, ap, inl, inr, List, [], ◌∷◌, map, any, All, arith, Bool-cases,
}
use replay_bug.Common.Rows.{weight, at, All-imp}
use replay_bug.Common.RowLaws.{count-at, Distinct-map}
use replay_bug.Common.RowUpdates.{All-at, any-at_keep}
use replay_bug.Issues.Store.{IssueRow, EventRow, IssueAffectedSessionRow, Db}
use replay_bug.Issues.Process.{SymbolicationResult}
use replay_bug.Issues.Tables.{is_event}
use replay_bug.Issues.Consistent.{
  has_id, same_event, counts, Seen, seen_at, caused_by, of_issue, IssueOk, Related, Caused,
  Consistent,
}
use replay_bug.Issues.Tallies.{Pending, pending-counts}
use replay_bug.Issues.Occurrence.{same_event_kept}

module _ {P : Type 0} (db : Db P SymbolicationResult) {event : EventRow P SymbolicationResult}
    (f : EventRow P SymbolicationResult → EventRow P SymbolicationResult)
    (keeps : (x : EventRow P SymbolicationResult) → (f x).id ≡ x.id)
    (uncounted : (i : ℕ) → counts i (f event) ≡ false) (h : Pending db.events event) where
  IssueOk-settled :
      (i : IssueRow)
      → IssueOk db.events db.affected i
      → IssueOk (map (at (is_event event.id) f) db.events) db.affected i
  IssueOk-settled i k =
      let t = k.tallied in
      let none_before = pending-counts i.id event h.is_pending in
      let moved = count-at (is_event event.id) f (counts i.id) db.events event h.only h.there in
      let not_at : (s : ℕ) → seen_at i.id s event ≡ false = λ s. rw none_before refl in
      record {
        tallied = record {
          counted =
              omega (arith, t.counted, moved, ap weight none_before, ap weight (uncounted i.id));
          sessions = t.sessions;
          seen =
              All-at (is_event event.id) f event (Seen i) (Seen i) db.events h.only h.there t.seen
                (λ e _ q. q) (λ c. absurd (ground (arith, uncounted i.id)));
          lifecycle = t.lifecycle;
        };
        first =
            any-at_keep (is_event event.id) f event (seen_at i.id i.first_seen_at) db.events h.only
              h.there (not_at i.first_seen_at) k.first;
        last =
            any-at_keep (is_event event.id) f event (seen_at i.id i.last_seen_at) db.events h.only
              h.there (not_at i.last_seen_at) k.last;
      }

  pub settled-Consistent :
      Consistent db → Consistent (record db { events = map (at (is_event event.id) f) db.events })
  settled-Consistent c = record {
    event_ids =
        Distinct-map same_event _ (same_event_kept (is_event event.id) f keeps) db.events
          c.event_ids;
    issue_ids = c.issue_ids;
    issue_keys = c.issue_keys;
    relation_keys = c.relation_keys;
    issues_ok = All-imp _ _ IssueOk-settled db.issues c.issues_ok;
    related =
        All-at (is_event event.id) f event (Related db.issues db.affected)
          (Related db.issues db.affected) db.events h.only h.there c.related (λ e _ q. q)
          (λ i k. absurd (ground (arith, uncounted i)));
    caused =
        All-imp (Caused db.events) _
          (λ a q.
            any-at_keep (is_event event.id) f event (caused_by a) db.events h.only h.there
              (rw (pending-counts a.issue_id event h.is_pending) refl) q)
          db.affected c.caused;
  }

-- Nothing refers to an id that no issue has.
module _ {P : Type 0} (issues : List IssueRow) (affected : List IssueAffectedSessionRow) (n : ℕ)
    (unused : any (has_id n) issues ≡ false) where
  pub no_occurrences :
      (events : List (EventRow P SymbolicationResult))
      → All (Related issues affected) events
      → any (counts n) events ≡ false
  no_occurrences [] t = refl
  no_occurrences (e ∷ es) (q, t) = elim (Bool-cases (counts n e)) [
    | inl k ↦ absurd (ground (arith, q n k))
    | inr k ↦ rw k (no_occurrences es t)
  ]

no_cause :
    {P : Type 0} (n : ℕ) (a : IssueAffectedSessionRow)
    (events : List (EventRow P SymbolicationResult))
    → any (counts n) events ≡ false
    → a.issue_id ≡ n
    → any (caused_by a) events ≡ false
no_cause n a [] h e = refl
no_cause n a (x ∷ xs) h e = rw e (ground (arith, no_cause n a xs))

pub no_relations :
    {P : Type 0} (n : ℕ) (events : List (EventRow P SymbolicationResult))
    (affected : List IssueAffectedSessionRow)
    → any (counts n) events ≡ false
    → All (Caused events) affected
    → any (of_issue n) affected ≡ false
no_relations n events [] h t = refl
no_relations n events (a ∷ as') h (q, t) = elim (Bool-cases (of_issue n a)) [
  | inl k ↦ absurd (ground (arith, no_cause n a events h))
  | inr k ↦ rw k (no_relations n events as' h t)
]
