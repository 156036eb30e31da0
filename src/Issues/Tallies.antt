-- ===== src/Issues/Tallies.antt =====
-- An occurrence keeps every issue in agreement with its events
-- (apps/worker/src/processors/process-event.ts, packages/db/src/repositories/issues.ts).
use replay_bug.Common.{
  ℕ, ◌+◌, min, max, Bool, true, false, ◌==◌, ◌&&◌, ◌≡◌, refl, ap, subst, sym, ◌⊎◌, inl, inr,
  if◌then◌else◌, some, List, [], ◌∷◌, ◌++◌, map, any, arith, Bool-cases, append-nil, leb,
}
use replay_bug.Common.Rows.{find, weight, count, at}
use replay_bug.Common.RowLaws.{Only, count-at, count-append_one}
use replay_bug.Common.RowUpdates.{All-at, any-at_here, any-at_keep}
use replay_bug.Issues.Store.{
  IssueRow, pending, EventRow, IssueAffectedSessionRow, occurred, is_relation,
}
use replay_bug.Issues.Process.{SymbolicationResult}
use replay_bug.Issues.Tables.{is_event, settle, relation, is_new_session}
use replay_bug.Issues.Consistent.{has_id, of_issue, counts, Seen, seen_at, Tallied, IssueOk}

abbrev pub events_after :
    {P : Type 0}
    → List (EventRow P SymbolicationResult)
    → EventRow P SymbolicationResult
    → SymbolicationResult
    → ℕ
    → ℕ
    → List (EventRow P SymbolicationResult)
events_after events event symbolication fingerprint target =
    map (at (is_event event.id) (settle symbolication (some fingerprint) (some target))) events

abbrev pub affected_after :
    {P : Type 0}
    → List IssueAffectedSessionRow
    → EventRow P SymbolicationResult
    → ℕ
    → List IssueAffectedSessionRow
affected_after affected event target =
    affected ++ (if is_new_session affected target event then relation target event ∷ [] else [])

pub pending-counts :
    {P : Type 0} (i : ℕ) (e : EventRow P SymbolicationResult)
    → e.processing_state ≡ pending
    → counts i e ≡ false
pending-counts i e h = rw h refl

-- The pending event that is processed is the one row of its id.
pub record Pending {P : Type 0} (events : List (EventRow P SymbolicationResult))
    (event : EventRow P SymbolicationResult) : Type 0 where
  pub only : Only (is_event event.id) events
  pub there : find (is_event event.id) events ≡ some event
  pub is_pending : event.processing_state ≡ pending

-- The ends of an issue's time: of an occurrence each, or both at the event's own time.
abbrev pub Ends :
    {P : Type 0}
    → List (EventRow P SymbolicationResult)
    → EventRow P SymbolicationResult
    → ℕ
    → IssueRow
    → Type 0
Ends events event target i =
    ((any (seen_at target i.first_seen_at) events ≡ true)
      × (any (seen_at target i.last_seen_at) events ≡ true))
    ⊎ ((i.first_seen_at ≡ event.occurred_at) × (i.last_seen_at ≡ event.occurred_at))

one_of_min : (a b : ℕ) → (min a b ≡ a) ⊎ (b ≡ min a b)
one_of_min a b = elim (Bool-cases (leb a b)) [
  | inl k ↦ inl (ground arith)
  | inr k ↦ inr (ground arith)
]

one_of_max : (a b : ℕ) → (max a b ≡ a) ⊎ (b ≡ max a b)
one_of_max a b = elim (Bool-cases (leb b a)) [
  | inl k ↦ inl (ground arith)
  | inr k ↦ inr (ground arith)
]

-- The relations of an issue after the event: one more for its own if the session is new to it.
sessions_after :
    {P : Type 0} (affected : List IssueAffectedSessionRow) (event : EventRow P SymbolicationResult)
    (target i : ℕ)
    → count (of_issue i) (affected_after affected event target)
      ≡ count (of_issue i) affected + weight ((target == i) && is_new_session affected target event)
sessions_after affected event target i =
    elim (Bool-cases (any (is_relation target event.telemetry_session_id) affected)) [
      | inl k ↦ rw (k, append-nil affected) (ground arith)
      | inr k ↦
          rw k (ground (arith, count-append_one (of_issue i) affected (relation target event)))
    ]

module _ {P : Type 0} {events : List (EventRow P SymbolicationResult)}
    {event : EventRow P SymbolicationResult} (symbolication : SymbolicationResult)
    (fingerprint target : ℕ) (h : Pending events event) where
  -- The occurrences of an issue after the event: one more for its own.
  occurrences_after :
      (i : ℕ)
      → count (counts i) (events_after events event symbolication fingerprint target)
        ≡ count (counts i) events + weight (target == i)
  occurrences_after i =
      let moved =
        count-at (is_event event.id) (settle symbolication (some fingerprint) (some target))
          (counts i) events event h.only h.there in
      let none_before : weight (counts i event) ≡ 0 =
        ap weight (pending-counts i event h.is_pending) in
      omega (arith, moved, none_before)

  -- An issue that the event is not counted for.
  pub IssueOk-other :
      (affected : List IssueAffectedSessionRow) (i : IssueRow)
      → has_id target i ≡ false
      → IssueOk events affected i
      → IssueOk
          (events_after events event symbolication fingerprint target)
          (affected_after affected event target)
          i
  IssueOk-other affected i other k =
      let t = k.tallied in
      let apart : (target == i.id) ≡ false = ground arith in
      let not_counted = pending-counts i.id event h.is_pending in
      let not_at : (s : ℕ) → seen_at i.id s event ≡ false = λ s. rw not_counted refl in
      let update = settle symbolication (some fingerprint) (some target) in
      record {
        tallied = record {
          counted = omega (arith, t.counted, occurrences_after i.id, ap weight apart);
          sessions = ground (arith, t.sessions, sessions_after affected event target i.id, apart);
          seen =
              All-at (is_event event.id) update event (Seen i) (Seen i) events h.only h.there t.seen
                (λ e _ q. q) (λ same. absurd (ground arith));
          lifecycle = t.lifecycle;
        };
        first =
            any-at_keep (is_event event.id) update event (seen_at i.id i.first_seen_at) events
              h.only h.there (not_at i.first_seen_at) k.first;
        last =
            any-at_keep (is_event event.id) update event (seen_at i.id i.last_seen_at) events h.only
              h.there (not_at i.last_seen_at) k.last;
      }

  -- A time at which an occurrence is seen after the event: its own, or one before it.
  seen_after :
      (s : ℕ)
      → (any (seen_at target s) events ≡ true) ⊎ (event.occurred_at ≡ s)
      → any (seen_at target s) (events_after events event symbolication fingerprint target) ≡ true
  seen_after s (inl before) =
      let not_counted = pending-counts target event h.is_pending in
      any-at_keep (is_event event.id) (settle symbolication (some fingerprint) (some target)) event
        (seen_at target s) events h.only h.there (rw not_counted refl) before
  seen_after s (inr own) =
      any-at_here (is_event event.id) (settle symbolication (some fingerprint) (some target)) event
        (seen_at target s) events h.there (ground arith)

  earliest :
      (i : IssueRow)
      → Ends events event target i
      → (any (seen_at target (min i.first_seen_at event.occurred_at)) events ≡ true)
        ⊎ (event.occurred_at ≡ min i.first_seen_at event.occurred_at)
  earliest i (inr own) = inr (omega (arith, own.0))
  earliest i (inl before) = elim (one_of_min i.first_seen_at event.occurred_at) [
    | inl k ↦ inl (rw k before.0)
    | inr k ↦ inr k
  ]

  latest :
      (i : IssueRow)
      → Ends events event target i
      → (any (seen_at target (max i.last_seen_at event.occurred_at)) events ≡ true)
        ⊎ (event.occurred_at ≡ max i.last_seen_at event.occurred_at)
  latest i (inr own) = inr (omega (arith, own.1))
  latest i (inl before) = elim (one_of_max i.last_seen_at event.occurred_at) [
    | inl k ↦ inl (rw k before.1)
    | inr k ↦ inr k
  ]

  -- The issue that the event is counted for: one that agrees with its events, or a new one.
  pub IssueOk-target :
      (affected : List IssueAffectedSessionRow) (i : IssueRow) (now : ℕ) (reopen : Bool)
      → i.id ≡ target
      → i.project_id ≡ event.project_id
      → i.fingerprint ≡ fingerprint
      → Tallied events affected i
      → Ends events event target i
      → IssueOk
          (events_after events event symbolication fingerprint target)
          (affected_after affected event target)
          (occurred now event.occurred_at event.release
            (is_new_session affected target event)
            reopen
            i)
  unfolding occurred
  IssueOk-target affected i now reopen e project group t ends =
      let here : (target == i.id) ≡ true = ground arith in
      let after = events_after events event symbolication fingerprint target in
      let update = settle symbolication (some fingerprint) (some target) in
      record {
        tallied = record {
          counted = omega (arith, t.counted, occurrences_after i.id, ap weight here);
          sessions = ground (arith, t.sessions, sessions_after affected event target i.id, here);
          seen =
              All-at (is_event event.id) update event (Seen i) _ events h.only h.there t.seen
                (λ x _ q c. let (a, b, r, g) = q c in (omega (arith, a), omega (arith, b), r, g))
                (λ _. (omega arith, omega arith, sym project, ap some (sym group)));
          lifecycle = ground (arith, t.lifecycle);
        };
        first =
            subst (λ z. any (seen_at z (min i.first_seen_at event.occurred_at)) after ≡ true)
              (sym e) (seen_after _ (earliest i ends));
        last =
            subst (λ z. any (seen_at z (max i.last_seen_at event.occurred_at)) after ≡ true) (sym e)
              (seen_after _ (latest i ends));
      }
