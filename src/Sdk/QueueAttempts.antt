-- ===== src/Sdk/QueueAttempts.antt =====
-- The event queue: how often an event is sent (packages/sdk/src/queue.ts).
use replay_bug.Common.{
  ℕ, ◌<◌, leb, ◌≡◌, sym, subst, inl, inr, some, List, [], ◌∷◌, ◌++◌, map, length, filter, arith,
  Bool-cases, Option-cases, take-append-drop, All, All-append,
}
use replay_bug.Sdk.Queue.{
  ClientEvent, QueuedEvent, QueueConfig, EventQueue, new_queue, flush_begin, make_room, push,
  enqueue, timer_fired, flush_end, flush_sent, bump, flush_failed, close_begin, Action,
  enqueue_event, flush, fire, sent, failed, close, act, run,
}
use replay_bug.Sdk.QueueLaws.{
  Inv, survives, enqueue-accepts, enqueue-refuses, act-Inv, new_queue-Inv,
}
use replay_bug.Sdk.QueueEvents.{
  pending, fresh, Dropped, drop_oldest_lem, flush_begin-pending, push-pending, flush_failed-pending,
}

module _ (P : QueuedEvent → Type 0) where
  pub All-left : (xs ys : List QueuedEvent) → All P (xs ++ ys) → All P xs
  All-left [] ys h = tt
  All-left (x ∷ xs) ys (p, h) = (p, All-left xs ys h)

  pub All-right : (xs ys : List QueuedEvent) → All P (xs ++ ys) → All P ys
  All-right [] ys h = h
  All-right (x ∷ xs) ys (p, h) = All-right xs ys h

  All-Dropped :
      (config : QueueConfig) {qs qs' : List QueuedEvent}
      → Dropped config qs qs'
      → All P qs
      → All P qs'
  All-Dropped config d h =
      let split = subst (All P) d.whole h in
      subst (All P) (sym d.rest) (
        All-append P d.before d.after (All-left d.before (d.victim ∷ d.after) split)
          (All-right d.before (d.victim ∷ d.after) split).1)

  pub All-make_room :
      (s : EventQueue) {kept : List QueuedEvent}
      → make_room s ≡ some kept
      → All P s.queue
      → All P kept
  unfolding make_room
  All-make_room s {kept} e h = elim (Bool-cases (leb s.config.max_queue_size (length s.queue))) [
    | inl full ↦ All-Dropped s.config (drop_oldest_lem s.config s.queue (rw full at e)) h
    | inr room ↦ let same : s.queue ≡ kept = ground arith in subst (All P) same h
  ]

-- How often an event has failed is below the limit while the queue answers for it.
abbrev pub Sendable : EventQueue → Type 0
Sendable s = All (λ q. q.attempts < s.config.max_attempts) (pending s)

All-survives : (n : ℕ) (xs : List QueuedEvent) → All (λ q. q.attempts < n) (filter (survives n) xs)
All-survives n [] = tt
All-survives n (x ∷ xs) = elim (Bool-cases (survives n x)) [
  | inl k ↦ rw k (ground arith, All-survives n xs)
  | inr k ↦ rw k (All-survives n xs)
]

-- The configuration never changes.
push-config :
    (s : EventQueue) (kept : List QueuedEvent) (q : QueuedEvent) → (push s kept q).config ≡ s.config
unfolding push flush_begin
push-config s kept q = ground arith

module _ (s : EventQueue) (i : Inv s) (h : Sendable s) where
  abbrev Below : ℕ → QueuedEvent → Type 0
  Below n q = q.attempts < n

  push-Sendable :
      (kept : List QueuedEvent) (q : QueuedEvent)
      → All (Below s.config.max_attempts) kept
      → q.attempts < s.config.max_attempts
      → Sendable (push s kept q)
  push-Sendable kept q k f =
      let n = s.config.max_attempts in
      subst (λ (c : QueueConfig). All (Below c.max_attempts) (pending (push s kept q)))
        (sym (push-config s kept q))
        (subst (All (Below n)) (sym (push-pending s kept q i)) (
          All-append (Below n) s.in_flight (kept ++ (q ∷ []))
            (All-left (Below n) s.in_flight s.queue h)
            (All-append (Below n) kept (q ∷ []) k (f, tt))))

  enqueue-Sendable :
      (event : ClientEvent) (now : ℕ) → 0 < s.config.max_attempts → Sendable (enqueue s event now).0
  enqueue-Sendable event now positive = elim (Bool-cases s.closed) [
    | inl shut ↦ subst (λ r. Sendable r.0) (sym (enqueue-refuses s event now (inl shut))) h
    | inr open_ ↦ elim (Option-cases (make_room s)) [
      | inl full ↦ subst (λ r. Sendable r.0) (sym (enqueue-refuses s event now (inr full))) h
      | inr (kept, e) ↦
          subst (λ r. Sendable r.0) (sym (enqueue-accepts s event now open_ e))
            (push-Sendable kept (fresh event now)
              (All-make_room (Below s.config.max_attempts) s e
                (All-right (Below s.config.max_attempts) s.in_flight s.queue h))
              positive)
    ]
  ]

  -- A state with the same configuration that answers for events below the limit.
  Sendable-of :
      (s' : EventQueue) {xs : List QueuedEvent}
      → s'.config ≡ s.config
      → pending s' ≡ xs
      → All (Below s.config.max_attempts) xs
      → Sendable s'
  Sendable-of s' c p a =
      subst (λ (c : QueueConfig). All (Below c.max_attempts) (pending s')) (sym c)
        (subst (All (Below s.config.max_attempts)) (sym p) a)

  flush_failed-Sendable : Sendable (flush_failed s)
  unfolding flush_failed flush_end
  flush_failed-Sendable =
      let n = s.config.max_attempts in
      Sendable-of (flush_failed s) (ground arith) (flush_failed-pending s) (
        All-append (Below n) (filter (survives n) (map bump s.in_flight)) s.queue
          (All-survives n (map bump s.in_flight)) (All-right (Below n) s.in_flight s.queue h))

  pub act-Sendable : (a : Action) → 0 < s.config.max_attempts → Sendable (act s a)
  unfolding act timer_fired flush_begin flush_sent flush_end close_begin
  act-Sendable (enqueue_event event now) positive = enqueue-Sendable event now positive
  act-Sendable flush positive =
      Sendable-of (flush_begin s).0 (ground arith) (flush_begin-pending s i) h
  act-Sendable fire positive =
      Sendable-of (act s fire) (ground arith)
        (ground (arith, take-append-drop s.config.max_batch_size s.queue)) h
  act-Sendable sent positive = elim (Bool-cases s.processing) [
    | inr idle ↦ Sendable-of (act s sent) (ground arith) (ground arith) h
    | inl busy ↦
        Sendable-of (act s sent) (ground arith) (ground arith)
          (All-right (Below s.config.max_attempts) s.in_flight s.queue h)
  ]
  act-Sendable failed positive = elim (Bool-cases s.processing) [
    | inr idle ↦ Sendable-of (act s failed) (ground arith) (ground arith) h
    | inl busy ↦ simp busy flush_failed-Sendable
  ]
  act-Sendable close positive = Sendable-of (act s close) (ground arith) (ground arith) h

pub act-config : (s : EventQueue) (a : Action) → (act s a).config ≡ s.config
unfolding act enqueue push timer_fired flush_begin flush_sent flush_failed flush_end close_begin
act-config s (enqueue_event event now) = ground arith
act-config s _ = ground arith

pub run-Sendable :
    (s : EventQueue) (actions : List Action)
    → Inv s
    → Sendable s
    → 0 < s.config.max_attempts
    → Sendable (run s actions)
unfolding run
run-Sendable s [] i h positive = h
run-Sendable s (a ∷ rest) i h positive =
    run-Sendable (act s a) rest (act-Inv s a i) (act-Sendable s i h a positive)
      (subst (λ (c : QueueConfig). 0 < c.max_attempts) (sym (act-config s a)) positive)

-- Whatever is done to a new queue, every event that it answers for has failed fewer than
-- `max_attempts` times (if that is positive): a batch never goes out with an event that has used up
-- its attempts.
pub attempts_bounded :
    (config : QueueConfig) (actions : List Action)
    → 0 < config.max_attempts
    → Sendable (run (new_queue config) actions)
unfolding new_queue
attempts_bounded config actions positive =
    run-Sendable (new_queue config) actions (new_queue-Inv config) tt positive
