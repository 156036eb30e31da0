-- ===== src/Sdk/QueueFailures.antt =====
-- How often events are in batches that fail (packages/sdk/src/queue.ts).
use replay_bug.Common.{
  ℕ, ◌+◌, ◌*◌, ◌-◌, ◌≤◌, ◌<◌, Bool, leb, if◌then◌else◌, ◌≡◌, refl, ap, sym, subst, inl, inr, some,
  List, [], ◌∷◌, ◌++◌, map, length, filter, arith, Bool-cases, Option-cases, take-append-drop, All,
  ◌&&◌,
}
use replay_bug.Common.Rows.{weight, count}
use replay_bug.Sdk.Queue.{
  ClientEvent, QueuedEvent, QueueConfig, EventQueue, new_queue, flush_begin, make_room, push,
  enqueue, timer_fired, flush_end, flush_sent, bump, close_begin, Action, enqueue_event, flush,
  fire, sent, failed, close, act,
}
use replay_bug.Sdk.QueueLaws.{
  Inv, survives, enqueue-accepts, enqueue-refuses, act-Inv, new_queue-Inv,
}
use replay_bug.Sdk.QueueEvents.{
  pending, fresh, drop_oldest_lem, flush_begin-pending, push-pending, flush_failed-pending,
}
use replay_bug.Sdk.QueueAttempts.{Sendable, act-Sendable, act-config, All-left}

-- Of the events that a test passes.
module _ (p : ClientEvent → Bool) where
  -- How many a batch has.
  abbrev pub members : List QueuedEvent → ℕ
  members qs = count (λ q. p (QueuedEvent.event q)) qs

  -- How many an action adds, and how many an action fails to send.
  abbrev pub taken_in : EventQueue → Action → ℕ
  taken_in s (enqueue_event event now) = weight ((enqueue s event now).1 && p event)
  taken_in s _ = 0

  abbrev pub failing : EventQueue → Action → ℕ
  failing s failed = if s.processing then members s.in_flight else 0
  failing s _ = 0

  -- The sums over a run.
  abbrev pub accepted : EventQueue → List Action → ℕ
  accepted s [] = 0
  accepted s (a ∷ rest) = taken_in s a + accepted (act s a) rest

  abbrev pub failures : EventQueue → List Action → ℕ
  failures s [] = 0
  failures s (a ∷ rest) = failing s a + failures (act s a) rest

  -- The attempts that are left.
  abbrev remaining : ℕ → List QueuedEvent → ℕ
  remaining n [] = 0
  remaining n (q ∷ qs) = (if p q.event then n - q.attempts else 0) + remaining n qs

  remaining-append :
      (n : ℕ) (xs ys : List QueuedEvent) → remaining n (xs ++ ys) ≡ remaining n xs + remaining n ys
  remaining-append n [] ys = omega arith
  remaining-append n (x ∷ xs) ys = omega (arith, remaining-append n xs ys)

  remaining_failed :
      (n : ℕ) (xs : List QueuedEvent)
      → All (λ q. QueuedEvent.attempts q < n) xs
      → members xs + remaining n (filter (survives n) (map bump xs)) ≤ remaining n xs
  remaining_failed n [] h = omega arith
  remaining_failed n (x ∷ xs) (k, h) = ground (arith, remaining_failed n xs h)

  remaining-make_room :
      (n : ℕ) (s : EventQueue) {kept : List QueuedEvent}
      → make_room s ≡ some kept
      → remaining n kept ≤ remaining n s.queue
  unfolding make_room
  remaining-make_room n s {kept} e =
      elim (Bool-cases (leb s.config.max_queue_size (length s.queue))) [
        | inl full ↦
            let d = drop_oldest_lem s.config s.queue (rw full at e) in
            omega (
              arith,
              ap (remaining n) d.whole,
              ap (remaining n) d.rest,
              remaining-append n d.before (d.victim ∷ d.after),
              remaining-append n d.before d.after,
            )
        | inr room ↦
            let same : s.queue ≡ kept = ground arith in omega (arith, ap (remaining n) same)
      ]

  new_cost :
      (n : ℕ) (event : ClientEvent) (now : ℕ)
      → remaining n (fresh event now ∷ []) ≤ n * weight (p event)
  new_cost n event now = elim (Bool-cases (p event)) [
    | inl k ↦ rw k (omega arith)
    | inr k ↦ rw k (omega arith)
  ]

  module _ (s : EventQueue) (i : Inv s) (h : Sendable s) where
    abbrev Spends : Action → Type 0
    Spends a =
        failing s a + remaining s.config.max_attempts (pending (act s a))
        ≤ remaining s.config.max_attempts (pending s) + s.config.max_attempts * taken_in s a

    pushed :
        (event : ClientEvent) (now : ℕ) (kept : List QueuedEvent)
        → make_room s ≡ some kept
        → 0 + remaining s.config.max_attempts (pending (push s kept (fresh event now)))
          ≤ remaining s.config.max_attempts (pending s) + s.config.max_attempts * weight (p event)
    pushed event now kept e =
        let n = s.config.max_attempts in
        let new = fresh event now in
        let all = ap (remaining n) (push-pending s kept new i) in
        let a = remaining-append n s.in_flight (kept ++ (new ∷ [])) in
        let b = remaining-append n kept (new ∷ []) in
        let c = remaining-append n s.in_flight s.queue in
        let room = remaining-make_room n s e in
        omega (arith, all, a, b, c, room, new_cost n event now)

    enqueue-Spends : (event : ClientEvent) (now : ℕ) → Spends (enqueue_event event now)
    unfolding act
    enqueue-Spends event now =
        let n = s.config.max_attempts in
        let Goal = λ (r : EventQueue × Bool).
          0 + remaining n (pending r.0) ≤ remaining n (pending s) + n * weight (r.1 && p event) in
        elim (Bool-cases s.closed) [
          | inl shut ↦ subst Goal (sym (enqueue-refuses s event now (inl shut))) (omega arith)
          | inr open_ ↦ elim (Option-cases (make_room s)) [
            | inl full ↦ subst Goal (sym (enqueue-refuses s event now (inr full))) (omega arith)
            | inr (kept, e) ↦
                subst Goal (sym (enqueue-accepts s event now open_ e)) (pushed event now kept e)
          ]
        ]

    failed-Spends : Spends failed
    unfolding act
    failed-Spends = elim (Bool-cases s.processing) [
      | inr idle ↦ rw idle (omega arith)
      | inl busy ↦
          let n = s.config.max_attempts in
          let cost : failing s failed ≡ members s.in_flight = rw busy refl in
          let batch = filter (survives n) (map bump s.in_flight) in
          let same : pending (act s failed) ≡ batch ++ s.queue =
            simp busy (flush_failed-pending s) in
          omega (
            arith,
            cost,
            ap (remaining n) same,
            remaining-append n batch s.queue,
            remaining-append n s.in_flight s.queue,
            remaining_failed n s.in_flight
                (All-left (λ q. QueuedEvent.attempts q < n) s.in_flight s.queue h),
          )
    ]

    act-Spends : (a : Action) → Spends a
    unfolding act timer_fired flush_begin flush_sent flush_end close_begin
    act-Spends (enqueue_event event now) = enqueue-Spends event now
    act-Spends flush = omega (arith, ap (remaining s.config.max_attempts) (flush_begin-pending s i))
    act-Spends fire =
        let same : pending (act s fire) ≡ pending s =
          ground (arith, take-append-drop s.config.max_batch_size s.queue) in
        omega (arith, ap (remaining s.config.max_attempts) same)
    act-Spends sent = elim (Bool-cases s.processing) [
      | inr idle ↦ rw idle (omega arith)
      | inl busy ↦
          let same : pending (act s sent) ≡ s.queue = ground arith in
          omega (
            arith,
            ap (remaining s.config.max_attempts) same,
            remaining-append s.config.max_attempts s.in_flight s.queue,
          )
    ]
    act-Spends failed = failed-Spends
    act-Spends close = omega arith

  run-failures :
      (s : EventQueue) (actions : List Action)
      → Inv s
      → Sendable s
      → 0 < s.config.max_attempts
      → failures s actions
        ≤ remaining s.config.max_attempts (pending s) + s.config.max_attempts * accepted s actions
  run-failures s [] i h positive = omega arith
  run-failures s (a ∷ rest) i h positive =
      let n = s.config.max_attempts in
      let later =
        run-failures (act s a) rest (act-Inv s a i) (act-Sendable s i h a positive)
          (subst (λ (c : QueueConfig). 0 < c.max_attempts) (sym (act-config s a)) positive) in
      let same : (act s a).config.max_attempts ≡ n =
        ap (λ c. QueueConfig.max_attempts c) (act-config s a) in
      let later' =
        subst
          (λ (k : ℕ).
            failures (act s a) rest ≤ remaining k (pending (act s a)) + k * accepted (act s a) rest)
          same later in
      let parts : n * (taken_in s a + accepted (act s a) rest)
          ≡ n * taken_in s a + n * accepted (act s a) rest =
        grind arith in
      omega (arith, later', act-Spends s i h a, parts)

  -- Whatever is done to a new queue, and whichever events one looks at: in all the batches that
  -- failed there were of these at most `max_attempts` (if that is positive) times as many as were
  -- accepted. So an event that was accepted once is in at most `max_attempts` batches that fail.
  pub failures_bounded :
      (config : QueueConfig) (actions : List Action)
      → 0 < config.max_attempts
      → failures (new_queue config) actions
        ≤ config.max_attempts * accepted (new_queue config) actions
  unfolding new_queue
  failures_bounded config actions positive =
      omega (arith, run-failures (new_queue config) actions (new_queue-Inv config) tt positive)
