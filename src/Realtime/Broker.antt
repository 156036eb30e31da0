-- ===== src/Realtime/Broker.antt =====
-- The broker's subscribers and its connection (apps/api/src/realtime/broker.ts).
-- The map from a project to its set of subscribers is an association list, in the order of
-- insertion, and a set a list. A sink is known by whether its calls return or throw; it does not
-- call the broker.
use replay_bug.Common.{
  ℕ, suc, ◌+◌, ◌*◌, min, Bool, true, false, not, ◌||◌, leb, ◌==◌, if◌then◌else◌, Option, none, some,
  List, [], ◌∷◌, ◌++◌, map, length, filter,
}
use replay_bug.Common.Text.{Text, text_eq}
use replay_bug.Realtime.Update.{Payload, ValidatedProjectUpdate, validate_project_update}

abbrev pub max_pending_per_subscriber : ℕ
max_pending_per_subscriber = 50

abbrev pub max_reconnect_delay_ms : ℕ
max_reconnect_delay_ms = 30000

pub record Subscriber : Type 0 where
  pub id : ℕ
  pub project_id : Text
  pub queue : List ValidatedProjectUpdate
  pub flushing : Bool
  pub coalesced : ℕ

abbrev pub Subscribers : Type 0
Subscribers = List (Text × List Subscriber)

unfoldable pub get : Text → Subscribers → Option (List Subscriber)
get p [] = none
get p ((k, set) ∷ rest) = if text_eq k p then some set else get p rest

-- `Map.set`: in place if the key is there, at the end else.
unfoldable pub put : Text → List Subscriber → Subscribers → Subscribers
put p set [] = (p, set) ∷ []
put p set ((k, old) ∷ rest) = if text_eq k p then (k, set) ∷ rest else (k, old) ∷ put p set rest

unfoldable pub del : Text → Subscribers → Subscribers
del p [] = []
del p ((k, set) ∷ rest) = if text_eq k p then rest else (k, set) ∷ del p rest

pub record Broker : Type 0 where
  pub subscribers : Subscribers
  pub orphans : List Subscriber
  pub next_id : ℕ
  pub coalesced_total : ℕ
  pub connected : Bool
  pub connecting : Bool
  pub stopped : Bool
  pub reconnect_timer : Bool
  pub reconnect_delay_ms : ℕ

unfoldable pub create : Broker
create = record {
  subscribers = [];
  orphans = [];
  next_id = 1;
  coalesced_total = 0;
  connected = false;
  connecting = false;
  stopped = false;
  reconnect_timer = false;
  reconnect_delay_ms = 1000;
}

abbrev pub set_of : Option (List Subscriber) → List Subscriber
set_of none = []
set_of (some set) = set

-- `ensureConnected` up to its first `await`.
unfoldable pub ensure_connected : Broker → Broker
ensure_connected b =
    if b.stopped || (b.connected || b.connecting) then b else record b { connecting = true }

-- Returns the subscriber's id, by which its unsubscribe function removes it.
unfoldable pub subscribe : Broker → Text → Broker × ℕ
unfolding ensure_connected put get
subscribe b p =
    let sub : Subscriber = record {
      id = b.next_id;
      project_id = p;
      queue = [];
      flushing = false;
      coalesced = 0;
    } in
    let set = set_of (get p b.subscribers) in
    (
      ensure_connected (record b {
        subscribers = put p (set ++ (sub ∷ [])) b.subscribers;
        next_id = b.next_id + 1;
      }),
      b.next_id,
    )

-- `set.delete(sub)`, and the key of an empty set.
unfoldable pub without : ℕ → List Subscriber → List Subscriber
without n set = filter (λ s. not (s.id == n)) set

abbrev pub put_or_del : Text → List Subscriber → Subscribers → Subscribers
put_or_del p [] m = del p m
put_or_del p (s ∷ set) m = put p (s ∷ set) m

-- A subscriber that `stop` has cleared away is in no set any more; its queue is emptied like that
-- of any other, and with that the rest of it has no effect.
unfoldable pub remove_subscriber : Broker → Text → ℕ → Broker
unfolding put del without get
remove_subscriber b p n = elim (get p b.subscribers) [
  | none ↦ record b { orphans = without n b.orphans }
  | some set ↦ record b {
    subscribers = put_or_del p (without n set) b.subscribers;
    orphans = without n b.orphans;
  }
]

abbrev pub is_full : Subscriber → Bool
is_full s = leb max_pending_per_subscriber (length s.queue)

-- The body of the loop of `handleNotification`, with `scheduleFlush`.
unfoldable pub deliver : ValidatedProjectUpdate → Subscriber → Subscriber
deliver u s =
    if is_full s
    then record s { queue = u ∷ []; coalesced = s.coalesced + 1; flushing = true }
    else record s { queue = s.queue ++ (u ∷ []); flushing = true }

unfoldable pub count_full : List Subscriber → ℕ
count_full [] = 0
count_full (s ∷ set) = let rest = count_full set in if is_full s then suc rest else rest

unfoldable pub publish_to : Broker → ValidatedProjectUpdate → Option (List Subscriber) → Broker
unfolding put deliver count_full
publish_to b u none = b
publish_to b u (some set) = record b {
  subscribers = put u.project_id (map (deliver u) set) b.subscribers;
  coalesced_total = b.coalesced_total + count_full set;
}

unfoldable pub publish : Broker → ValidatedProjectUpdate → Broker
unfolding publish_to get
publish b u = publish_to b u (get u.project_id b.subscribers)

-- `handleNotification` of a message on the channel, parsed.
unfoldable pub handle_notification : Broker → Payload → Broker
unfolding validate_project_update publish
handle_notification b raw = elim (validate_project_update raw) [ none ↦ b | some u ↦ publish b u ]

-- The updates that the sink gets before it throws, if it does: `calls` says of each call whether it
-- returns.
unfoldable pub sink_calls :
    (ℕ → Bool) → ℕ → List ValidatedProjectUpdate → List ValidatedProjectUpdate × Bool
sink_calls calls n [] = ([], true)
sink_calls calls n (u ∷ us) =
    let (done, alive) = sink_calls calls (suc n) us in
    if calls n then (u ∷ done, alive) else ([], false)

unfoldable pub find_subscriber : ℕ → List Subscriber → Option Subscriber
find_subscriber n [] = none
find_subscriber n (s ∷ set) = let rest = find_subscriber n set in if s.id == n then some s else rest

abbrev pub flushed : ℕ → Subscriber → Subscriber
flushed n s = if s.id == n then record s { queue = []; flushing = false } else s

-- Whether the sink took the whole queue, and what it took.
unfoldable pub after_calls :
    Broker
    → Text
    → ℕ
    → List Subscriber
    → List ValidatedProjectUpdate × Bool
    → Broker × List ValidatedProjectUpdate
unfolding remove_subscriber put
after_calls b p n set (done, true) =
    (record b { subscribers = put p (map (flushed n) set) b.subscribers }, done)
after_calls b p n set (done, false) = (remove_subscriber b p n, done)

-- A flush that was scheduled before `stop` still hands over what waits.
unfoldable pub flush_orphan :
    Broker → ℕ → (ℕ → Bool) → Option Subscriber → Broker × List ValidatedProjectUpdate
unfolding sink_calls without
flush_orphan b n calls none = (b, [])
flush_orphan b n calls (some s) =
    (record b { orphans = without n b.orphans }, (sink_calls calls 0 s.queue).0)

unfoldable pub flush_set :
    Broker
    → Text
    → ℕ
    → (ℕ → Bool)
    → List Subscriber
    → Option Subscriber
    → Broker × List ValidatedProjectUpdate
unfolding after_calls sink_calls flush_orphan find_subscriber
flush_set b p n calls set none = flush_orphan b n calls (find_subscriber n b.orphans)
flush_set b p n calls set (some s) = after_calls b p n set (sink_calls calls 0 s.queue)

-- The callback of `scheduleFlush`, with the updates that it hands to the sink. The queue of a
-- subscriber that was removed meanwhile is empty, so there is nothing to hand over.
unfoldable pub flush : Broker → Text → ℕ → (ℕ → Bool) → Broker × List ValidatedProjectUpdate
unfolding flush_set find_subscriber get
flush b p n calls =
    let set = set_of (get p b.subscribers) in flush_set b p n calls set (find_subscriber n set)

-- `subscriberCount(projectId)` and `subscriberCount()`.
unfoldable pub project_subscriber_count : Broker → Text → ℕ
unfolding get
project_subscriber_count b p = length (set_of (get p b.subscribers))

unfoldable pub total_size : Subscribers → ℕ
total_size [] = 0
total_size ((k, set) ∷ rest) = length set + total_size rest

unfoldable pub subscriber_count : Broker → ℕ
unfolding total_size
subscriber_count b = total_size b.subscribers

unfoldable pub coalesced_count : Broker → ℕ
coalesced_count b = b.coalesced_total

unfoldable pub schedule_reconnect : Broker → Broker
schedule_reconnect b = if b.stopped || b.reconnect_timer then b else record b {
  reconnect_delay_ms = min (b.reconnect_delay_ms * 2) max_reconnect_delay_ms;
  reconnect_timer = true;
}

-- The timer's callback.
unfoldable pub reconnect_fired : Broker → Broker
unfolding ensure_connected
reconnect_fired b = ensure_connected (record b { reconnect_timer = false })

-- `dropClient`
unfoldable pub drop_client : Broker → Broker
unfolding schedule_reconnect
drop_client b = schedule_reconnect (record b { connected = false })

-- The rest of `ensureConnected`, when LISTEN is established or has failed.
unfoldable pub connected_ok : Broker → Broker
connected_ok b =
    if b.stopped
    then record b { connecting = false }
    else record b { connected = true; connecting = false; reconnect_delay_ms = 1000 }

unfoldable pub connected_error : Broker → Broker
unfolding schedule_reconnect
connected_error b = schedule_reconnect (record b { connecting = false })

unfoldable pub all_subscribers : Subscribers → List Subscriber
all_subscribers [] = []
all_subscribers ((k, set) ∷ rest) = set ++ all_subscribers rest

unfoldable pub stop : Broker → Broker
unfolding all_subscribers
stop b = record b {
  stopped = true;
  reconnect_timer = false;
  subscribers = [];
  orphans = all_subscribers b.subscribers ++ b.orphans;
  connected = false;
}

-- The start of `whenReady`, and what it answers when it stops to wait.
unfoldable pub when_ready_begin : Broker → Broker
unfolding ensure_connected
when_ready_begin b = if b.connected then b else ensure_connected b

unfoldable pub when_ready_end : Broker → Bool
when_ready_end b = b.connected
