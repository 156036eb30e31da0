-- ===== src/Sdk/QueueEvents.antt =====
-- The event queue: which events are kept, which may be dropped, and how often one is sent
-- (packages/sdk/src/queue.ts).
use replay_bug.Common.{
  ℕ, ◌≤◌, ◌<◌, Bool, true, false, leb, ◌≡◌, refl, sym, ap, ◌∙◌, subst, ◌⊎◌, inl, inr, none, some,
  List, [], ◌∷◌, ◌++◌, map, length, filter, arith, Bool-cases, Option-cases, leb→le, append_assoc,
  take-append-drop, filter-append, filter-reject, All,
}
use replay_bug.Sdk.Queue.{
  ClientEvent, QueuedEvent, QueueConfig, EventQueue, is_critical, drop_oldest, flush_begin,
  make_room, push, enqueue, flush_end, bump, flush_failed,
}
use replay_bug.Sdk.QueueLaws.{Inv, survives, requeue-reverse, enqueue-accepts, enqueue-refuses}

-- The events that the queue still answers for, oldest first.
abbrev pub pending : EventQueue → List QueuedEvent
pending s = s.in_flight ++ s.queue

abbrev pub fresh : ClientEvent → ℕ → QueuedEvent
fresh event now = record { event = event; attempts = 0; added_at = now }

-- The oldest event that is not critical, and what stands on both sides of it.
pub record Dropped (config : QueueConfig) (qs qs' : List QueuedEvent) : Type 0 where
  pub before : List QueuedEvent
  pub victim : QueuedEvent
  pub after : List QueuedEvent
  pub whole : qs ≡ before ++ (victim ∷ after)
  pub rest : qs' ≡ before ++ after
  pub before_critical : All (λ q. is_critical config q ≡ true) before
  pub not_critical : is_critical config victim ≡ false

pub drop_oldest_lem :
    (config : QueueConfig) (qs : List QueuedEvent) {qs' : List QueuedEvent}
    → drop_oldest config qs ≡ some qs'
    → Dropped config qs qs'
unfolding drop_oldest
drop_oldest_lem config [] h = absurd (cc)
drop_oldest_lem config (q ∷ qs) h = elim (Bool-cases (is_critical config q)) [
  | inr other ↦ record {
    before = [];
    victim = q;
    after = qs;
    whole = refl;
    rest = ground arith;
    before_critical = tt;
    not_critical = other;
  }
  | inl critical ↦ elim (Option-cases (drop_oldest config qs)) [
    | inl full ↦ absurd (ground arith)
    | inr (rest, e) ↦
        let d = drop_oldest_lem config qs e in
        record {
          before = q ∷ d.before;
          victim = d.victim;
          after = d.after;
          whole = ap (λ t. q ∷ t) d.whole;
          rest = ground (arith, d.rest);
          before_critical = (critical, d.before_critical);
          not_critical = d.not_critical;
        }
  ]
]

drop_oldest-none :
    (config : QueueConfig) (qs : List QueuedEvent)
    → drop_oldest config qs ≡ none
    → All (λ q. is_critical config q ≡ true) qs
unfolding drop_oldest
drop_oldest-none config [] h = tt
drop_oldest-none config (q ∷ qs) h = elim (Bool-cases (is_critical config q)) [
  | inr other ↦ absurd (ground arith)
  | inl critical ↦ (critical, drop_oldest-none config qs (ground arith))
]

filter-Dropped :
    (config : QueueConfig) {qs qs' : List QueuedEvent}
    → Dropped config qs qs'
    → filter (is_critical config) qs' ≡ filter (is_critical config) qs
filter-Dropped config d =
    ap (filter (is_critical config)) d.rest
    ∙ filter-append (is_critical config) d.before d.after
    ∙ ap (λ t. filter (is_critical config) d.before ++ t)
        (sym (filter-reject (is_critical config) d.victim d.after d.not_critical))
    ∙ sym (filter-append (is_critical config) d.before (d.victim ∷ d.after))
    ∙ ap (filter (is_critical config)) (sym d.whole)

make_room_critical :
    (s : EventQueue) {kept : List QueuedEvent}
    → make_room s ≡ some kept
    → filter (is_critical s.config) kept ≡ filter (is_critical s.config) s.queue
unfolding make_room
make_room_critical s h = elim (Bool-cases (leb s.config.max_queue_size (length s.queue))) [
  | inl full ↦ filter-Dropped s.config (drop_oldest_lem s.config s.queue (rw full at h))
  | inr room ↦ ground arith
]

-- Handing a batch to the transport keeps the events and their order.
pub flush_begin-pending : (s : EventQueue) → Inv s → pending (flush_begin s).0 ≡ pending s
unfolding flush_begin
flush_begin-pending s i = ground (arith, take-append-drop s.config.max_batch_size s.queue)

pub push-pending :
    (s : EventQueue) (kept : List QueuedEvent) (q : QueuedEvent)
    → Inv s
    → pending (push s kept q) ≡ s.in_flight ++ (kept ++ (q ∷ []))
unfolding push flush_begin
push-pending s kept q i =
    ground (arith, take-append-drop s.config.max_batch_size (kept ++ (q ∷ [])))

critical_of_pending :
    (s : EventQueue) (kept : List QueuedEvent) (q : QueuedEvent)
    → filter (is_critical s.config) kept ≡ filter (is_critical s.config) s.queue
    → filter (is_critical s.config) (s.in_flight ++ (kept ++ (q ∷ [])))
      ≡ filter (is_critical s.config) (pending s) ++ filter (is_critical s.config) (q ∷ [])
critical_of_pending s kept q e =
    let p = is_critical s.config in
    filter-append p s.in_flight (kept ++ (q ∷ []))
    ∙ ap (λ t. filter p s.in_flight ++ t)
        (filter-append p kept (q ∷ []) ∙ ap (λ t. t ++ filter p (q ∷ [])) e)
    ∙ sym (append_assoc (filter p s.in_flight) (filter p s.queue) (filter p (q ∷ [])))
    ∙ ap (λ t. t ++ filter p (q ∷ [])) (sym (filter-append p s.in_flight s.queue))

-- What is pending after `q` was accepted: all that was and `q`, if the queue had room; else the
-- oldest event that is not critical is gone.
abbrev pub Taken : EventQueue → QueuedEvent → EventQueue → Type 0
Taken s q s' =
    ((length s.queue < s.config.max_queue_size) × (pending s' ≡ pending s ++ (q ∷ [])))
    ⊎ ((s.config.max_queue_size ≤ length s.queue)
        × (kept : List QueuedEvent) × (Dropped s.config s.queue kept)
        × (pending s' ≡ s.in_flight ++ (kept ++ (q ∷ []))))

-- The event is taken, and the critical events that are pending are those before, and the new one
-- if it is critical; or nothing is changed, and the queue is closed or full of critical events.
abbrev pub KeepsCritical : EventQueue → QueuedEvent → EventQueue × Bool → Type 0
KeepsCritical s q r =
    ((r.1 ≡ true)
      × (Taken s q r.0)
      × (filter (is_critical s.config) (pending r.0)
          ≡ filter (is_critical s.config) (pending s) ++ filter (is_critical s.config) (q ∷ [])))
    ⊎ ((r.1 ≡ false)
        × (r.0 ≡ s)
        × ((s.closed ≡ true)
            ⊎ ((s.config.max_queue_size ≤ length s.queue)
                × All (λ q. is_critical s.config q ≡ true) s.queue)))

make_room-Taken :
    (s : EventQueue) (kept : List QueuedEvent) (q : QueuedEvent) (s' : EventQueue)
    → make_room s ≡ some kept
    → pending s' ≡ s.in_flight ++ (kept ++ (q ∷ []))
    → Taken s q s'
unfolding make_room
make_room-Taken s kept q s' e h = elim (Bool-cases (leb s.config.max_queue_size (length s.queue))) [
  | inl full ↦ inr (leb→le _ _ full, kept, drop_oldest_lem s.config s.queue (rw full at e), h)
  | inr room ↦
      let same : kept ≡ s.queue = ground arith in
      inl (
        ground arith,
        h
            ∙ ap (λ t. s.in_flight ++ (t ++ (q ∷ []))) same
            ∙ sym (append_assoc s.in_flight s.queue (q ∷ [])),
      )
]

make_room_full :
    (s : EventQueue)
    → make_room s ≡ none
    → (s.config.max_queue_size ≤ length s.queue) × All (λ q. is_critical s.config q ≡ true) s.queue
unfolding make_room
make_room_full s h = elim (Bool-cases (leb s.config.max_queue_size (length s.queue))) [
  | inl full ↦ (leb→le _ _ full, drop_oldest-none s.config s.queue (rw full at h))
  | inr room ↦ absurd (ground arith)
]

-- In a queue with the bounds of `Inv`, an event that `enqueue` accepts is pending after all that
-- was pending before, if the queue was not full. If it was, then one event is gone, the oldest one
-- of the queue that is not critical, and all others are kept in their order, so that no critical
-- event is lost. An event that is refused changes nothing, and is refused only by a closed queue or
-- by one that is full of critical events.
pub enqueue-KeepsCritical :
    (s : EventQueue) (event : ClientEvent) (now : ℕ)
    → Inv s
    → KeepsCritical s (fresh event now) (enqueue s event now)
enqueue-KeepsCritical s event now i = elim (Bool-cases s.closed) [
  | inl shut ↦
      subst (KeepsCritical s (fresh event now)) (sym (enqueue-refuses s event now (inl shut)))
        (inr (refl, refl, inl shut))
  | inr open_ ↦ elim (Option-cases (make_room s)) [
    | inl full ↦
        subst (KeepsCritical s (fresh event now)) (sym (enqueue-refuses s event now (inr full)))
          (inr (refl, refl, inr (make_room_full s full)))
    | inr (kept, e) ↦
        subst (KeepsCritical s (fresh event now)) (sym (enqueue-accepts s event now open_ e)) (
          inl (
            refl,
            make_room-Taken s kept (fresh event now) (push s kept (fresh event now)) e
                (push-pending s kept (fresh event now) i),
            ap (filter (is_critical s.config)) (push-pending s kept (fresh event now) i)
                ∙ critical_of_pending s kept (fresh event now) (make_room_critical s e),
          ))
  ]
]

-- A batch that failed is pending again in its order and before the events that came meanwhile,
-- each with one more attempt, but for those that have none left.
pub flush_failed-pending :
    (s : EventQueue)
    → pending (flush_failed s)
      ≡ filter (survives s.config.max_attempts) (map bump s.in_flight) ++ s.queue
unfolding flush_failed flush_end
flush_failed-pending s = ground (arith, requeue-reverse s.config.max_attempts s.in_flight s.queue)
