-- ===== src/Sdk/Queue.antt =====
-- The bounded event queue with its batches (packages/sdk/src/queue.ts).
-- `flush` is one synchronous part up to the first `await` and one that runs when the transport has
-- settled: `flush_begin`, and `flush_sent` or `flush_failed`. The batch that the suspended call
-- holds is the field `in_flight`. A pending timer is a Boolean; debug messages are left out.
use Prim.Native.String.{String}
use text.Mathlib.Text.{◌==◌ as str_eq}
use replay_bug.Common.{
  ℕ, ◌+◌, Bool, true, false, not, ◌&&◌, ◌||◌, if◌then◌else◌, ltb, leb, Option, none, some, List, [],
  ◌∷◌, ◌++◌, length, take, drop, any,
}

pub record ClientEvent : Type 0 where
  pub client_event_id : ℕ
  pub event_type : String

pub record QueuedEvent : Type 0 where
  pub event : ClientEvent
  pub attempts : ℕ
  pub added_at : ℕ

pub record QueueConfig : Type 0 where
  pub max_batch_size : ℕ
  pub max_queue_size : ℕ
  pub immediate_flush_types : List String
  pub max_attempts : ℕ

-- `createEventQueue(transport)` with no options.
abbrev pub default_config : QueueConfig
default_config = record {
  max_batch_size = 50;
  max_queue_size = 1000;
  immediate_flush_types = "exception" ∷ "unhandled_rejection" ∷ [];
  max_attempts = 3;
}

pub record EventQueue : Type 0 where
  pub config : QueueConfig
  pub queue : List QueuedEvent
  pub in_flight : List QueuedEvent
  pub flush_timer : Bool
  pub processing : Bool
  pub closed : Bool

unfoldable pub new_queue : QueueConfig → EventQueue
new_queue config = record {
  config = config;
  queue = [];
  in_flight = [];
  flush_timer = false;
  processing = false;
  closed = false;
}

-- `config.immediateFlushTypes.includes(event.event_type)`
unfoldable pub is_critical : QueueConfig → QueuedEvent → Bool
is_critical config q = any (str_eq q.event.event_type) config.immediate_flush_types

-- `findIndex` of an event that is not critical, and the `splice` of it; `none` if there is none.
unfoldable pub drop_oldest : QueueConfig → List QueuedEvent → Option (List QueuedEvent)
drop_oldest config [] = none
drop_oldest config (q ∷ qs) =
    let rest = drop_oldest config qs in
    if not (is_critical config q)
    then some qs
    else elim rest [ none ↦ none | some qs' ↦ some (q ∷ qs') ]

unfoldable pub schedule_flush : EventQueue → EventQueue
schedule_flush s = record s { flush_timer = true }

abbrev pub is_empty {ℓ} : {A : Type ℓ} → List A → Bool
is_empty [] = true
is_empty (_ ∷ _) = false

-- The first part of `flush`; the Boolean says whether a batch was handed to the transport.
unfoldable pub flush_begin : EventQueue → EventQueue × Bool
flush_begin s = if s.processing || is_empty s.queue then (s, false) else (
  record s {
    queue = drop s.config.max_batch_size s.queue;
    in_flight = take s.config.max_batch_size s.queue;
    processing = true;
  },
  true,
)

-- The room that `enqueue` makes; `none` if the queue is full of critical events.
unfoldable pub make_room : EventQueue → Option (List QueuedEvent)
unfolding drop_oldest
make_room s =
    if leb s.config.max_queue_size (length s.queue)
    then drop_oldest s.config s.queue
    else some s.queue

-- `push`, and the flush or the timer that follows it.
unfoldable pub push : EventQueue → List QueuedEvent → QueuedEvent → EventQueue
unfolding schedule_flush
push s kept q =
    let s' = record s { queue = kept ++ (q ∷ []) } in
    if is_critical s.config q
    then (flush_begin s').0
    else if not s.flush_timer
    then schedule_flush s'
    else s'

unfoldable pub enqueue : EventQueue → ClientEvent → ℕ → EventQueue × Bool
enqueue s event now = if s.closed then (s, false) else elim (make_room s) [
  | none ↦ (s, false)
  | some kept ↦ (push s kept (record { event = event; attempts = 0; added_at = now }), true)
]

-- The timer's callback.
unfoldable pub timer_fired : EventQueue → EventQueue × Bool
unfolding flush_begin
timer_fired s = flush_begin (record s { flush_timer = false })

-- The `finally` block of `flush`.
unfoldable pub flush_end : EventQueue → EventQueue
unfolding schedule_flush
flush_end s =
    let s' = record s { processing = false; in_flight = [] } in
    if not (is_empty s.queue) && not s.flush_timer then schedule_flush s' else s'

-- The transport returned a result; events that the server rejected are not sent again.
unfoldable pub flush_sent : EventQueue → EventQueue
unfolding flush_end
flush_sent s = flush_end s

-- `queued.attempts += 1`
abbrev pub bump : QueuedEvent → QueuedEvent
bump q = record q { attempts = q.attempts + 1 }

-- The loop of the `catch` block over the reversed batch, with its `unshift`s.
unfoldable pub requeue : ℕ → List QueuedEvent → List QueuedEvent → List QueuedEvent
requeue max_attempts [] queue = queue
requeue max_attempts (q ∷ qs) queue =
    requeue max_attempts qs (if ltb (q.attempts + 1) max_attempts then bump q ∷ queue else queue)

-- `batch.reverse()`
unfoldable pub reverse {ℓ} : {A : Type ℓ} → List A → List A
reverse [] = []
reverse (x ∷ xs) = reverse xs ++ (x ∷ [])

-- The transport threw, after its retries.
unfoldable pub flush_failed : EventQueue → EventQueue
unfolding flush_end
flush_failed s =
    flush_end (record s { queue = requeue s.config.max_attempts (reverse s.in_flight) s.queue })

-- The first lines of `close`; its loop then calls `flush` until the queue is empty or the deadline
-- has passed.
unfoldable pub close_begin : EventQueue → EventQueue
close_begin s = record s { closed = true; flush_timer = false }

unfoldable pub size : EventQueue → ℕ
size s = length s.queue

unfoldable pub is_closed : EventQueue → Bool
is_closed s = s.closed

-- What can happen to a queue between two turns of the event loop.
pub data Action : Type 0 where
  enqueue_event : ClientEvent → ℕ → Action
  flush : Action
  fire : Action
  sent : Action
  failed : Action
  close : Action

-- A transport settles only what is in flight, and a timer fires only if it is set.
unfoldable pub act : EventQueue → Action → EventQueue
unfolding enqueue timer_fired flush_sent flush_failed close_begin
act s (enqueue_event event now) = (enqueue s event now).0
act s flush = (flush_begin s).0
act s fire = if s.flush_timer then (timer_fired s).0 else s
act s sent = if s.processing then flush_sent s else s
act s failed = if s.processing then flush_failed s else s
act s close = close_begin s

unfoldable pub run : EventQueue → List Action → EventQueue
run s [] = s
run s (a ∷ rest) = run (act s a) rest
