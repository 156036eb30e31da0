-- ===== src/Realtime/Steps.antt =====
-- The broker under any sequence of requests and of events of its connection
-- (apps/api/src/realtime/broker.ts).
use replay_bug.Common.{
  ℕ, ◌≤◌, Bool, true, false, ◌&&◌, ◌||◌, ◌≡◌, refl, sym, subst, map, Option, none, some, List, [],
  ◌∷◌, arith, Option-cases, inl, inr,
}
use replay_bug.Common.Text.{Text}
use replay_bug.Realtime.Update.{Payload, validate_project_update, ValidatedProjectUpdate}
use replay_bug.Realtime.Broker.{
  Subscriber, Subscribers, get, put, Broker, max_reconnect_delay_ms, ensure_connected, create,
  subscribe, remove_subscriber, publish, publish_to, handle_notification, flush_set, after_calls,
  flushed, flush, schedule_reconnect, reconnect_fired, drop_client, connected_ok, connected_error,
  stop, find_subscriber, sink_calls, when_ready_begin, flush_orphan, without, set_of,
}

-- One request or event, with what has to be under way for it to happen.
pub data Step (b : Broker) : Broker → Type 0 where
  subscribes : (p : Text) → Step b (subscribe b p).0
  unsubscribes : (p : Text) (n : ℕ) → Step b (remove_subscriber b p n)
  notified : (raw : Payload) → Step b (handle_notification b raw)
  flushes : (p : Text) (n : ℕ) (calls : ℕ → Bool) → Step b (flush b p n calls).0
  established : b.connecting ≡ true → Step b (connected_ok b)
  refused : b.connecting ≡ true → Step b (connected_error b)
  dropped : Step b (drop_client b)
  timer_fires : b.reconnect_timer ≡ true → Step b (reconnect_fired b)
  stops : Step b (stop b)
  waits : Step b (when_ready_begin b)

pub data Reach : Broker → Broker → Type 0 where
  here : (b : Broker) → Reach b b
  after : (a b c : Broker) → Reach a b → Step b c → Reach a c

abbrev nobody : Subscribers → Bool
nobody [] = true
nobody (_ ∷ _) = false

-- Stopped, or connected, or on its way there, unless nobody waits.
unfoldable pub is_reaching : Broker → Bool
is_reaching b =
    b.stopped || (b.connected || (b.connecting || (b.reconnect_timer || nobody b.subscribers)))

-- A stopped broker is quiet, and connects at most once at a time.
pub record Sound (b : Broker) : Type 0 where
  pub reaching : is_reaching b ≡ true
  pub delay_low : 1000 ≤ b.reconnect_delay_ms
  pub delay_high : b.reconnect_delay_ms ≤ max_reconnect_delay_ms
  pub quiet : b.stopped ≡ true → (b.connected || b.reconnect_timer) ≡ false
  pub once : (b.connected && b.connecting) ≡ false

create-Sound : Sound create
unfolding create is_reaching
create-Sound = record {
  reaching = refl;
  delay_low = omega arith;
  delay_high = omega arith;
  quiet = λ h. ground arith;
  once = refl;
}

subscribe-Sound : (b : Broker) (p : Text) → Sound b → Sound (subscribe b p).0
unfolding subscribe ensure_connected is_reaching
subscribe-Sound b p h =
    let r = h.reaching in
    let l = h.delay_low in
    let u = h.delay_high in
    let q = h.quiet in
    let o = h.once in
    record {
      reaching = ground arith;
      delay_low = ground arith;
      delay_high = ground arith;
      quiet = λ s. ground arith;
      once = ground arith;
    }

remove_subscriber-Sound :
    (b : Broker) (p : Text) (n : ℕ) → Sound b → Sound (remove_subscriber b p n)
unfolding remove_subscriber is_reaching get
remove_subscriber-Sound b p n h =
    let r = h.reaching in
    let l = h.delay_low in
    let u = h.delay_high in
    let q = h.quiet in
    let o = h.once in
    record {
      reaching = ground arith;
      delay_low = ground arith;
      delay_high = ground arith;
      quiet = λ s. ground arith;
      once = ground arith;
    }

publish-Sound : (b : Broker) (u : ValidatedProjectUpdate) → Sound b → Sound (publish b u)
unfolding publish publish_to is_reaching get
publish-Sound b u h =
    let r = h.reaching in
    let l = h.delay_low in
    let u = h.delay_high in
    let q = h.quiet in
    let o = h.once in
    record {
      reaching = ground arith;
      delay_low = ground arith;
      delay_high = ground arith;
      quiet = λ s. ground arith;
      once = ground arith;
    }

connected_ok-Sound : (b : Broker) (c : b.connecting ≡ true) → Sound b → Sound (connected_ok b)
unfolding connected_ok is_reaching
connected_ok-Sound b c h =
    let r = h.reaching in
    let l = h.delay_low in
    let u = h.delay_high in
    let q = h.quiet in
    let o = h.once in
    record {
      reaching = ground arith;
      delay_low = ground arith;
      delay_high = ground arith;
      quiet = λ s. ground arith;
      once = ground arith;
    }

connected_error-Sound : (b : Broker) (c : b.connecting ≡ true) → Sound b → Sound (connected_error b)
unfolding connected_error schedule_reconnect is_reaching
connected_error-Sound b c h =
    let r = h.reaching in
    let l = h.delay_low in
    let u = h.delay_high in
    let q = h.quiet in
    let o = h.once in
    record {
      reaching = ground arith;
      delay_low = ground arith;
      delay_high = ground arith;
      quiet = λ s. ground arith;
      once = ground arith;
    }

drop_client-Sound : (b : Broker) → Sound b → Sound (drop_client b)
unfolding drop_client schedule_reconnect is_reaching
drop_client-Sound b h =
    let r = h.reaching in
    let l = h.delay_low in
    let u = h.delay_high in
    let q = h.quiet in
    let o = h.once in
    record {
      reaching = ground arith;
      delay_low = ground arith;
      delay_high = ground arith;
      quiet = λ s. ground arith;
      once = ground arith;
    }

reconnect_fired-Sound :
    (b : Broker) (c : b.reconnect_timer ≡ true) → Sound b → Sound (reconnect_fired b)
unfolding reconnect_fired ensure_connected is_reaching
reconnect_fired-Sound b c h =
    let r = h.reaching in
    let l = h.delay_low in
    let u = h.delay_high in
    let q = h.quiet in
    let o = h.once in
    record {
      reaching = ground arith;
      delay_low = ground arith;
      delay_high = ground arith;
      quiet = λ s. ground arith;
      once = ground arith;
    }

stop-Sound : (b : Broker) → Sound b → Sound (stop b)
unfolding stop is_reaching
stop-Sound b h =
    let r = h.reaching in
    let l = h.delay_low in
    let u = h.delay_high in
    let q = h.quiet in
    let o = h.once in
    record {
      reaching = ground arith;
      delay_low = ground arith;
      delay_high = ground arith;
      quiet = λ s. ground arith;
      once = ground arith;
    }

when_ready_begin-Sound : (b : Broker) → Sound b → Sound (when_ready_begin b)
unfolding when_ready_begin ensure_connected is_reaching
when_ready_begin-Sound b h =
    let r = h.reaching in
    let l = h.delay_low in
    let u = h.delay_high in
    let q = h.quiet in
    let o = h.once in
    record {
      reaching = ground arith;
      delay_low = ground arith;
      delay_high = ground arith;
      quiet = λ s. ground arith;
      once = ground arith;
    }

orphans-Sound : (b : Broker) (os : List Subscriber) → Sound b → Sound (record b { orphans = os })
unfolding is_reaching
orphans-Sound b os h = record {
  reaching = h.reaching;
  delay_low = h.delay_low;
  delay_high = h.delay_high;
  quiet = h.quiet;
  once = h.once;
}

flush_orphan-Sound :
    (b : Broker) (n : ℕ) (calls : ℕ → Bool) (s : Option Subscriber)
    → Sound b
    → Sound (flush_orphan b n calls s).0
unfolding flush_orphan
flush_orphan-Sound b n calls none h = h
flush_orphan-Sound b n calls (some s) h = orphans-Sound b (without n b.orphans) h

handle_notification-Sound :
    (b : Broker) (raw : Payload) → Sound b → Sound (handle_notification b raw)
unfolding handle_notification
handle_notification-Sound b raw h =
    elim (validate_project_update raw)
      as (λ o. Sound (elim o [ none ↦ b | some u ↦ publish b u ])) [
        | none ↦ h
        | some u ↦ publish-Sound b u h
      ]

set-Sound :
    (b : Broker) (p : Text) (set old : List Subscriber)
    → get p b.subscribers ≡ some old
    → Sound b
    → Sound (record b { subscribers = put p set b.subscribers })
unfolding is_reaching get
set-Sound b p set old e h =
    let r = h.reaching in
    let l = h.delay_low in
    let u = h.delay_high in
    let q = h.quiet in
    let o = h.once in
    record { reaching = ground arith; delay_low = l; delay_high = u; quiet = q; once = o }

after_calls-Sound :
    (b : Broker) (p : Text) (n : ℕ) (set old : List Subscriber)
    (r : List ValidatedProjectUpdate × Bool)
    → get p b.subscribers ≡ some old
    → Sound b
    → Sound (after_calls b p n set r).0
unfolding after_calls
after_calls-Sound b p n set old (done, true) e h = set-Sound b p (map (flushed n) set) old e h
after_calls-Sound b p n set old (done, false) e h = remove_subscriber-Sound b p n h

flush_set-Sound :
    (b : Broker) (p : Text) (n : ℕ) (calls : ℕ → Bool) (set old : List Subscriber)
    (s : Option Subscriber)
    → get p b.subscribers ≡ some old
    → Sound b
    → Sound (flush_set b p n calls set s).0
unfolding flush_set
flush_set-Sound b p n calls set old none e h =
    flush_orphan-Sound b n calls (find_subscriber n b.orphans) h
flush_set-Sound b p n calls set old (some s) e h =
    after_calls-Sound b p n set old (sink_calls calls 0 s.queue) e h

flush-Sound :
    (b : Broker) (p : Text) (n : ℕ) (calls : ℕ → Bool) → Sound b → Sound (flush b p n calls).0
unfolding flush flush_set find_subscriber
flush-Sound b p n calls h = elim (Option-cases (get p b.subscribers)) [
  | inl e ↦
      subst (λ o. Sound (flush_set b p n calls (set_of o) (find_subscriber n (set_of o))).0) (sym e)
        (flush_orphan-Sound b n calls (find_subscriber n b.orphans) h)
  | inr (set, e) ↦
      let all = set_of (get p b.subscribers) in
      flush_set-Sound b p n calls all set (find_subscriber n all) e h
]

step-Sound : (b c : Broker) → Sound b → Step b c → Sound c
step-Sound b _ h (subscribes p) = subscribe-Sound b p h
step-Sound b _ h (unsubscribes p n) = remove_subscriber-Sound b p n h
step-Sound b _ h (notified raw) = handle_notification-Sound b raw h
step-Sound b _ h (flushes p n calls) = flush-Sound b p n calls h
step-Sound b _ h (established e) = connected_ok-Sound b e h
step-Sound b _ h (refused e) = connected_error-Sound b e h
step-Sound b _ h dropped = drop_client-Sound b h
step-Sound b _ h (timer_fires e) = reconnect_fired-Sound b e h
step-Sound b _ h stops = stop-Sound b h
step-Sound b _ h waits = when_ready_begin-Sound b h

-- After any sequence of requests and connection events from its creation, the broker is stopped,
-- connected, connecting or waiting for its reconnect timer, unless nobody subscribes; its delay is
-- between 1 and 30 seconds; stopped, it is not connected and has no timer; and it never connects
-- while it is connected.
pub reach-Sound : (b : Broker) → Reach create b → Sound b
reach-Sound _ (here _) = create-Sound
reach-Sound _ (after _ b c r s) = step-Sound b c (reach-Sound b r) s
