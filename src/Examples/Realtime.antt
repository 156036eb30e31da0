-- ===== src/Examples/Realtime.antt =====
-- A broker with two subscribers, and updates for one of them (apps/api/src/realtime/broker.ts,
-- packages/db/src/repositories/project-updates.ts).
use replay_bug.Common.{true, false, if◌then◌else◌, ◌≡◌, refl, none, some, [], ◌∷◌, map, arith}
use replay_bug.Common.Text.{Text, codes, text_eq}
use replay_bug.Realtime.Update.{
  ValidatedProjectUpdate, hex_run, hex_dash, is_uuid, validate_project_update,
}
use replay_bug.Realtime.Broker.{
  Subscriber, get, Broker, set_of, create, ensure_connected, subscribe, deliver, publish,
  connected_ok, drop_client,
}
use replay_bug.Realtime.Notification.{
  ProjectUpdateNotification, issue_regressed, payload_of, announced, validate-payload_of,
}
use replay_bug.Realtime.Delivery.{deliver_all, Coalesced, deliver_all-Coalesced}
use replay_bug.Realtime.Isolation.{publish-get}
use replay_bug.Realtime.Steps.{here, after, subscribes, established, dropped, Sound, reach-Sound}

abbrev project : Text
project = codes "0a1b2c3d-0000-4000-8000-00000000000f"

abbrev other_project : Text
other_project = codes "ffffffff-0000-4000-8000-00000000000f"

abbrev issue : Text
issue = codes "12345678-9abc-4def-8000-000000000001"

abbrev notification : ProjectUpdateNotification
notification = record {
  update_type = issue_regressed;
  project_id = project;
  issue_id = issue;
  event_id = some other_project;
  reproduction_id = none;
  analysis_id = none;
}

validate-payload_of_example :
    validate_project_update (payload_of notification) ≡ some (announced notification)
unfolding is_uuid hex_run hex_dash
validate-payload_of_example = validate-payload_of notification refl refl refl tt tt

abbrev idle : Subscriber
idle = record { id = 1; project_id = project; queue = []; flushing = false; coalesced = 0 }

abbrev update : ValidatedProjectUpdate
update = announced notification

deliver_all-Coalesced_example :
    Coalesced
      (update ∷ update ∷ update ∷ [])
      (deliver_all (update ∷ update ∷ update ∷ []) idle).queue
deliver_all-Coalesced_example =
    deliver_all-Coalesced (update ∷ update ∷ update ∷ []) idle (omega arith)

abbrev two_subscribers : Broker
two_subscribers = record create {
  subscribers =
      (project, idle ∷ [])
      ∷ (other_project, record idle { id = 2; project_id = other_project } ∷ [])
      ∷ [];
  next_id = 3;
}

publish-get_example : set_of (get other_project (publish two_subscribers update).subscribers) ≡ (
    if text_eq update.project_id other_project
    then map (deliver update) (set_of (get other_project two_subscribers.subscribers))
    else set_of (get other_project two_subscribers.subscribers))
publish-get_example = publish-get two_subscribers update other_project

abbrev first : Broker
first = (subscribe create project).0

subscribing : first.connecting ≡ true
unfolding subscribe create ensure_connected
subscribing = refl

reach-Sound_example : Sound (drop_client (connected_ok first))
reach-Sound_example = reach-Sound (drop_client (connected_ok first)) (
    after create (connected_ok first) (drop_client (connected_ok first))
      (after create first (connected_ok first)
        (after create create first (here create) (subscribes project)) (established subscribing))
      dropped)
