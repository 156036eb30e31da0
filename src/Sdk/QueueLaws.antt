-- ===== src/Sdk/QueueLaws.antt =====
-- The event queue: its bounds, its liveness, the critical events and the order of what is sent
-- again (packages/sdk/src/queue.ts).
use replay_bug.Common.{
  ℕ, suc, ◌+◌, ◌≤◌, Bool, true, false, if◌then◌else◌, ltb, leb, ◌≡◌, ◌≢◌, refl, sym, ap, ◌∙◌, subst,
  ◌⊎◌, inl, inr, none, some, List, [], ◌∷◌, ◌++◌, map, length, filter, arith, Bool-cases,
  Option-cases, length-append, length-take, length-drop, length-filter, length-map,
}
use replay_bug.Sdk.Queue.{
  ClientEvent, QueuedEvent, QueueConfig, EventQueue, new_queue, is_critical, drop_oldest,
  flush_begin, make_room, push, enqueue, timer_fired, flush_end, bump, requeue, reverse,
  flush_failed, close_begin, Action, enqueue_event, flush, fire, sent, failed, close, act, run,
}

-- The events of a batch that may be sent once more.
abbrev pub survives : ℕ → QueuedEvent → Bool
survives max_attempts q = ltb q.attempts max_attempts

requeue-append :
    (n : ℕ) (xs ys queue : List QueuedEvent)
    → requeue n (xs ++ ys) queue ≡ requeue n ys (requeue n xs queue)
unfolding requeue
requeue-append n [] ys queue = refl
requeue-append n (x ∷ xs) ys queue = requeue-append n xs ys _

requeue_one :
    (n : ℕ) (q : QueuedEvent) (kept queue : List QueuedEvent)
    → (if ltb (q.attempts + 1) n then bump q ∷ (kept ++ queue) else kept ++ queue)
      ≡ (if ltb (q.attempts + 1) n then bump q ∷ kept else kept) ++ queue
requeue_one n q kept queue = elim (Bool-cases (ltb (q.attempts + 1) n)) [
  | inl k ↦ rw k
  | inr k ↦ rw k
]

-- A batch that failed goes back to the front of the queue in its order, each event with one more
-- attempt, but for the events that have used up their attempts.
pub requeue-reverse :
    (n : ℕ) (batch queue : List QueuedEvent)
    → requeue n (reverse batch) queue ≡ filter (survives n) (map bump batch) ++ queue
unfolding requeue reverse
requeue-reverse n [] queue = refl
requeue-reverse n (q ∷ batch) queue =
    requeue-append n (reverse batch) (q ∷ []) queue
    ∙ ap (λ t. requeue n (q ∷ []) t) (requeue-reverse n batch queue)
    ∙ requeue_one n q (filter (survives n) (map bump batch)) queue

-- The bounds, and what waits is waited for.
pub record Inv (s : EventQueue) : Type 0 where
  pub batch_bounded : length s.in_flight ≤ s.config.max_batch_size
  pub idle : s.processing ≡ false → s.in_flight ≡ []
  pub busy_bounded : s.processing ≡ true → length s.queue ≤ s.config.max_queue_size
  pub bounded : length s.queue ≤ s.config.max_queue_size + s.config.max_batch_size
  pub watched : s.queue ≢ [] → s.closed ≡ false → (s.processing ≡ true) ⊎ (s.flush_timer ≡ true)

length-drop_oldest :
    (config : QueueConfig) (qs : List QueuedEvent) {qs' : List QueuedEvent}
    → drop_oldest config qs ≡ some qs'
    → length qs ≡ suc (length qs')
unfolding drop_oldest
length-drop_oldest config [] h = cc
length-drop_oldest config (q ∷ qs) h = elim (Bool-cases (is_critical config q)) [
  | inr other ↦ ground arith
  | inl critical ↦ elim (Option-cases (drop_oldest config qs)) [
    | inl full ↦ ground arith
    | inr (rest, e) ↦ ground (arith, length-drop_oldest config qs e)
  ]
]

flush_begin-Inv : (s : EventQueue) → Inv s → Inv (flush_begin s).0
unfolding flush_begin
flush_begin-Inv s i = grind (arith, length-take {0}, length-drop {0})

-- What `enqueue` keeps is one shorter than the limit, or than the queue was.
make_room_lem :
    (s : EventQueue) {kept : List QueuedEvent}
    → make_room s ≡ some kept
    → (length kept + 1 ≤ s.config.max_queue_size) ⊎ (length kept + 1 ≡ length s.queue)
unfolding make_room
make_room_lem s h = elim (Bool-cases (leb s.config.max_queue_size (length s.queue))) [
  | inl full ↦ inr (omega (arith, length-drop_oldest s.config s.queue (rw full at h)))
  | inr room ↦ inl (ground arith)
]

push-Inv :
    (s : EventQueue) (kept : List QueuedEvent) (q : QueuedEvent)
    → Inv s
    → (length kept + 1 ≤ s.config.max_queue_size) ⊎ (length kept + 1 ≡ length s.queue)
    → Inv (push s kept q)
unfolding push flush_begin
push-Inv s kept q i room =
    let pushed = record s { queue = kept ++ (q ∷ []) } in
    ground (
      arith,
      length-append kept (q ∷ []),
      length-take s.config.max_batch_size (kept ++ (q ∷ [])),
      length-drop s.config.max_batch_size (kept ++ (q ∷ [])),
    )

-- What an open queue with room for an event does with it.
pub enqueue-accepts :
    (s : EventQueue) (event : ClientEvent) (now : ℕ) {kept : List QueuedEvent}
    → s.closed ≡ false
    → make_room s ≡ some kept
    → enqueue s event now
      ≡ (push s kept (record { event = event; attempts = 0; added_at = now }), true)
unfolding enqueue
enqueue-accepts s event now {kept} open_ e = ground arith

pub enqueue-refuses :
    (s : EventQueue) (event : ClientEvent) (now : ℕ)
    → (s.closed ≡ true) ⊎ (make_room s ≡ none)
    → enqueue s event now ≡ (s, false)
unfolding enqueue
enqueue-refuses s event now h = ground arith

enqueue-Inv : (s : EventQueue) (event : ClientEvent) (now : ℕ) → Inv s → Inv (enqueue s event now).0
enqueue-Inv s event now i = elim (Bool-cases s.closed) [
  | inl shut ↦ subst (λ r. Inv r.0) (sym (enqueue-refuses s event now (inl shut))) i
  | inr open_ ↦ elim (Option-cases (make_room s)) [
    | inl full ↦ subst (λ r. Inv r.0) (sym (enqueue-refuses s event now (inr full))) i
    | inr (kept, e) ↦
        subst (λ r. Inv r.0) (sym (enqueue-accepts s event now open_ e))
          (push-Inv s kept _ i (make_room_lem s e))
  ]
]

length-requeue :
    (n : ℕ) (batch queue : List QueuedEvent)
    → length (requeue n (reverse batch) queue) ≤ length batch + length queue
length-requeue n batch queue = omega (
  arith,
  ap length (requeue-reverse n batch queue),
  length-append (filter (survives n) (map bump batch)) queue,
  length-filter (survives n) (map bump batch),
  length-map bump batch,
)

flush_end-Inv :
    (s : EventQueue)
    → length s.queue ≤ s.config.max_queue_size + s.config.max_batch_size
    → Inv (flush_end s)
unfolding flush_end
flush_end-Inv s b = ground arith

flush_failed-Inv : (s : EventQueue) → Inv s → s.processing ≡ true → Inv (flush_failed s)
unfolding flush_failed
flush_failed-Inv s i busy =
    flush_end-Inv (record s { queue = requeue s.config.max_attempts (reverse s.in_flight) s.queue })
      (omega (
        arith,
        length-requeue s.config.max_attempts s.in_flight s.queue,
        i.busy_bounded busy,
        i.batch_bounded,
      ))

close-Inv : (s : EventQueue) → Inv s → Inv (close_begin s)
unfolding close_begin
close-Inv s i = ground arith

fire-Inv : (s : EventQueue) → Inv s → Inv (timer_fired s).0
unfolding timer_fired flush_begin
fire-Inv s i = grind (arith, length-take {0}, length-drop {0})

pub act-Inv : (s : EventQueue) (a : Action) → Inv s → Inv (act s a)
unfolding act
act-Inv s (enqueue_event event now) i = enqueue-Inv s event now i
act-Inv s flush i = flush_begin-Inv s i
act-Inv s fire i = elim (Bool-cases s.flush_timer) [
  | inl set_ ↦ simp set_ (fire-Inv s i)
  | inr unset ↦ simp unset i
]
act-Inv s sent i = elim (Bool-cases s.processing) [
  | inl busy ↦ simp busy (flush_end-Inv s i.bounded)
  | inr idle ↦ simp idle i
]
act-Inv s failed i = elim (Bool-cases s.processing) [
  | inl busy ↦ simp busy (flush_failed-Inv s i busy)
  | inr idle ↦ simp idle i
]
act-Inv s close i = close-Inv s i

pub new_queue-Inv : (config : QueueConfig) → Inv (new_queue config)
unfolding new_queue
new_queue-Inv config = ground arith

run-Inv-from : (s : EventQueue) (actions : List Action) → Inv s → Inv (run s actions)
unfolding run
run-Inv-from s [] i = i
run-Inv-from s (a ∷ rest) i = run-Inv-from (act s a) rest (act-Inv s a i)

-- Whatever is done to a new queue, in whatever order: at most a batch is in flight, and nothing
-- when no flush is under way; while one is, at most `max_queue_size` events wait, and else at most
-- that and a batch; and events that wait in an open queue have a flush or a timer to come.
pub run-Inv : (config : QueueConfig) (actions : List Action) → Inv (run (new_queue config) actions)
run-Inv config actions = run-Inv-from (new_queue config) actions (new_queue-Inv config)
