-- ===== src/Examples/Webhooks.antt =====
-- An endpoint, its history, and an event that is delivered at the second attempt.
use task_queue_system.Webhooks.Store.Matched.{match_event-Matches, Matches}
use task_queue_system.Redis.Data.{webhook_json}
use task_queue_system.Prelude.Int.{pos}
use task_queue_system.Redis.Commands.{perform}
use task_queue_system.Webhooks.Store.{match_event}
use task_queue_system.Webhooks.Dispatch.Attempts.{
  IsFinal, dispatch_bounds, dispatch-acks, count_up, recorded, posted, acked,
}
use task_queue_system.Redis.Client.{ok, Server}
use task_queue_system.Webhooks.Deliveries.History.{record_delivery-Recorded, Recorded}
use task_queue_system.Webhooks.Dispatch.Delays.{IsInRange, nominal, backoff_bounds}
use task_queue_system.Webhooks.Types.{RegisteredWebhook, DeliveryRecord}
use task_queue_system.Webhooks.Dispatch.{
  Answered, backoff, refused, dispatch, Event, DispatcherConfig, Conditions,
}
use task_queue_system.Examples.Queue.{server, empty_store, perform-Documented}
use task_queue_system.Prelude.{
  ◌/◌, some, ℕ, ◌+◌, ◌≤◌, ◌<◌, ◌≡◌, refl, true, false, List, [], ◌∷◌, arith, ◌==◌, if◌then◌else◌,
}

abbrev hook : RegisteredWebhook
hook = record {
  id = "hook1";
  tenant_id = "acme";
  url = "http://a";
  secret = "s";
  events = "job.completed" ∷ [];
  created_at = 3;
}

abbrev hooked : Server
hooked = record {
  store = record empty_store { hashes = λ k. ("hook1", webhook_json hook) ∷ [] };
  faults = [];
}

match_event-Matches_example :
    (ws : List RegisteredWebhook) × ((match_event perform "acme" "completed" hooked).0 ≡ ok ws)
    × Matches "acme" "completed" hooked ws
match_event-Matches_example =
    match_event-Matches perform "acme" "completed" hooked perform-Documented refl

abbrev attempt : DeliveryRecord
attempt = record {
  timestamp = 9;
  job_id = "job1";
  tenant_id = "acme";
  url = "http://a";
  status_code = 200;
  attempt = 1;
  success = true;
  error = "";
  backoff_ms = pos 0;
}

record_delivery-Recorded_example : Recorded attempt [] server perform
record_delivery-Recorded_example =
    record_delivery-Recorded attempt [] server refl refl perform perform-Documented

abbrev config : DispatcherConfig
config = record { max_retries = 5; base_delay = 1000000000; max_delay = 300000000000 }

abbrev event : Event
event = record { job_id = "job1"; tenant_id = "acme"; url = "http://a" }

abbrev conditions : Conditions
conditions = record {
  answered = λ i. if i == 0 then refused 503 else Answered.delivered 200;
  now = λ i. i;
  text_of = λ a. "server returned status: 503";
  shutdown = λ i. false;
  int63n = λ n. 0;
}

dispatch_bounds_example :
    let cs = dispatch config event conditions in
    (posted cs ≤ 5) × (acked cs ≤ 1) × (recorded cs ≡ count_up 1 (posted cs))
dispatch_bounds_example = dispatch_bounds config event conditions

config-IsInRange : IsInRange config
config-IsInRange = omega arith

dispatch-acks_example :
    let cs = dispatch config event conditions in
    (acked cs ≡ 1)
    × ((k : ℕ) → k + 1 < posted cs → ¬ IsFinal (conditions.answered k))
    × ((k : ℕ) → k + 1 ≡ posted cs → posted cs < 5 → IsFinal (conditions.answered k))
dispatch-acks_example =
    dispatch-acks config event conditions (λ i. refl) (λ n h. h) config-IsInRange

backoff_bounds_example :
    (d : ℕ) × (backoff (λ n. 0) config 3 ≡ some (pos d))
    × (nominal config 3 ≤ d + nominal config 3 / 4)
    × (d ≤ nominal config 3 + nominal config 3 / 4)
backoff_bounds_example = backoff_bounds (λ n. 0) config 3 (λ n h. h) config-IsInRange
