-- ===== src/Examples/Sdk.antt =====
-- The breadcrumb buffer, the event queue and its retries at concrete inputs
-- (packages/sdk/src/breadcrumbs.ts, queue.ts).
use replay_bug.Common.{
  ℕ, zero, suc, ◌-◌, ◌*◌, ◌≤◌, ◌<◌, min, max, true, false, ◌≡◌, Option, none, some, List, [], ◌∷◌,
  ◌++◌, map, filter, length, drop, arith,
}
use replay_bug.Common.Int.{ℤ}
use replay_bug.Sdk.Breadcrumbs.{create, get_all, get_recent}
use replay_bug.Sdk.BreadcrumbLaws.{adds, get_all-adds, get_recent_lem}
use replay_bug.Sdk.Queue.{
  ClientEvent, QueuedEvent, QueueConfig, default_config, EventQueue, new_queue, enqueue, requeue,
  reverse, bump, run, Action, enqueue_event, fire, sent, failed, close,
}
use replay_bug.Sdk.QueueLaws.{Inv, run-Inv, survives, requeue-reverse}
use replay_bug.Sdk.QueueEvents.{fresh, KeepsCritical, enqueue-KeepsCritical}
use replay_bug.Sdk.QueueFailures.{failures, accepted as accepted_events, failures_bounded}
use replay_bug.Common.Text.{Text}
use replay_bug.Sdk.Retry.{
  default_retry_config, Draw, calculate_retry_delay, SendError, SendOutcome, accepted, refused,
  Surroundings, send_with_retry,
}
use replay_bug.Sdk.RetryLaws.{default_retry_delay_le, calculate_retry_delay_exceeds}
use replay_bug.Sdk.RetryRuns.{Run, send_with_retry-Run}

abbrev entries : List ℕ
entries = 1 ∷ 2 ∷ 3 ∷ 4 ∷ 5 ∷ []

get_all-adds_example :
    (get_all (adds (create 3) entries) ≡ map some (drop (length entries - max 1 3) entries))
    × ((adds (create 3) entries).dropped ≡ length entries - max 1 3)
get_all-adds_example = get_all-adds 3 entries

get_recent_lem_example :
    (get_recent (adds (create 3) entries) 2
      ≡ map some (drop (length entries - min 2 (max 1 3)) entries))
    × (get_recent (adds (create 3) entries) 0 ≡ map some (drop (length entries - max 1 3) entries))
get_recent_lem_example = get_recent_lem 3 entries 1

abbrev click : ℕ → ClientEvent
click n = record { client_event_id = n; event_type = "click" }

abbrev crash : ℕ → ClientEvent
crash n = record { client_event_id = n; event_type = "exception" }

abbrev small : QueueConfig
small = record default_config { max_batch_size = 2; max_queue_size = 2 }

abbrev actions : List Action
actions =
    enqueue_event (click 1) 0
    ∷ enqueue_event (click 2) 1
    ∷ enqueue_event (crash 3) 2
    ∷ enqueue_event (click 4) 3
    ∷ failed
    ∷ fire
    ∷ sent
    ∷ close
    ∷ []

run-Inv_example : Inv (run (new_queue small) actions)
run-Inv_example = run-Inv small actions

failures_bounded_example :
    failures (λ e. true) (new_queue small) actions
    ≤ small.max_attempts * accepted_events (λ e. true) (new_queue small) actions
failures_bounded_example = failures_bounded (λ e. true) small actions (omega arith)

enqueue-KeepsCritical_example :
    KeepsCritical
      (run (new_queue small) actions)
      (fresh (crash 5) 9)
      (enqueue (run (new_queue small) actions) (crash 5) 9)
enqueue-KeepsCritical_example =
    enqueue-KeepsCritical (run (new_queue small) actions) (crash 5) 9 (run-Inv small actions)

abbrev batch : List QueuedEvent
batch = fresh (click 1) 0 ∷ record (fresh (click 2) 1) { attempts = 2 } ∷ fresh (crash 3) 2 ∷ []

requeue-reverse_example : requeue 3 (reverse batch) [] ≡ filter (survives 3) (map bump batch) ++ []
requeue-reverse_example = requeue-reverse 3 batch []

abbrev flushing : EventQueue
flushing = record (new_queue default_config) {
  queue = fresh (click 4) 3 ∷ [];
  in_flight = batch;
  processing = true;
}

abbrev high : Draw
high = record { num = 9; den = 10 }

default_retry_delay_le_example : calculate_retry_delay 2 default_retry_config high ≤ 12000
default_retry_delay_le_example = default_retry_delay_le 2 high (omega arith)

calculate_retry_delay_exceeds_example : 10000 < calculate_retry_delay 5 default_retry_config high
calculate_retry_delay_exceeds_example =
    calculate_retry_delay_exceeds 5 default_retry_config high (omega arith) (omega arith)
      (omega arith)

abbrev unavailable : SendError
unavailable = record {
  is_fetch_type_error = false;
  status = some 503;
  retry_after = some (b'7' ∷ []);
}

abbrev no_date : Text → Option ℤ
no_date t = none

-- A server that is unavailable twice.
abbrev second_answer : ℕ → SendOutcome ℕ
second_answer zero = refused unavailable
second_answer (suc zero) = refused unavailable
second_answer (suc (suc n)) = accepted 200

abbrev surroundings : Surroundings ℕ
surroundings = record {
  send = second_answer;
  now = λ n. n;
  random = λ n. high;
  parse_date = no_date;
}

send_with_retry-Run_example :
    Run default_retry_config surroundings 0
      (send_with_retry default_retry_config surroundings).0
      (send_with_retry default_retry_config surroundings).1
    × (length (send_with_retry default_retry_config surroundings).1 < 3)
send_with_retry-Run_example = send_with_retry-Run default_retry_config surroundings (omega arith)
