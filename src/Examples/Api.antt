-- ===== src/Examples/Api.antt =====
-- A client whose key was verified and then revoked, an operator with a session, and a batch.
use task_queue_system.Prelude.{
  ℕ, ◌≡◌, refl, ◌≢◌, ◌↔◌, ite, Bool, false, Option, none, some, List, [], ◌∷◌, String_discrete,
  String,
}
use task_queue_system.Prelude.{ne_of_test}
use task_queue_system.Prelude.Int.{pos}
use task_queue_system.Jobs.Types.{Value}
use task_queue_system.Session.{Session, Store}
use task_queue_system.Prelude.Map.{lookup, insert}
use task_queue_system.Api.Auth.{
  cache_get, cache_set, key_context, Request, Visit, Gate, served, require_auth, write_route,
  read_route, raw_key, session_context, Context,
}
use task_queue_system.Api.Auth.Cached.{Visits, cache_after, Answered, require_auth-Answered}
use task_queue_system.Api.Auth.Guarded.{Named, Permitted, write_route-Guarded}
use task_queue_system.Api.Requests.{
  is_algorithm, field_required, invalid_job, CreateJobRequest, validate, validate_batch,
}
use task_queue_system.Api.Requests.Valid.{IsValid}
use task_queue_system.Api.Requests.Batch.{BatchAnswer, validate_batch-Answer}

abbrev no_sessions : Store
no_sessions = record { ttl = 100; items = [] }

abbrev identity : String → String
identity s = s

abbrev client_request : Request
client_request = record {
  method = "POST";
  path = "/jobs";
  header_key = "acme-key";
  query_key = "";
  cookie = none;
  csrf_token = "";
}

-- The store verifies the key, and later it does not.
abbrev before : Visit
before = record {
  request = client_request;
  now = 5;
  after = 7;
  verify = λ h. ite (String_discrete h "acme-key") (some "acme") none;
}

abbrev revoked : Visit
revoked = record { request = client_request; now = 100; after = 101; verify = λ h. none }

abbrev visits : Visits
visits = (no_sessions, before) ∷ []

abbrev gate : Gate
gate = record { cache = cache_after identity "operator-key" visits; sessions = no_sessions }

-- The revoked key is still accepted, from the cache.
revoked-served :
    (require_auth identity "operator-key" gate revoked served).0 ≡ served (key_context "acme")
unfolding require_auth raw_key cache_after String_discrete cache_get lookup cache_set insert
revoked-served = refl

require_auth-Answered_example :
    Answered identity "operator-key" visits revoked
      (require_auth identity "operator-key" gate revoked served)
unfolding raw_key String_discrete
require_auth-Answered_example =
    require_auth-Answered identity "operator-key" visits no_sessions revoked
      (ne_of_test "acme-key" "" refl)

abbrev operator : Session
operator = record { id = "s1"; username = "ann"; role = "admin"; csrf = "t1"; expires_at = 50 }

abbrev with_session : Gate
with_session = record { cache = []; sessions = record { ttl = 100; items = ("s1", operator) ∷ [] } }

abbrev pause : Visit
pause = record {
  request = record {
    method = "POST";
    path = "/jobs/job1/pause";
    header_key = "";
    query_key = "";
    cookie = some "s1";
    csrf_token = "t1";
  };
  now = 20;
  after = 20;
  verify = λ h. none;
}

write_route-Guarded_example :
    (raw_key pause.request ≢ ""
      → write_route identity "" with_session pause served
        ≡ read_route identity "" with_session pause served)
    × (raw_key pause.request ≡ ""
        → (ctx : Context)
        → ((write_route identity "" with_session pause served).0 ≡ served ctx) ↔ (
            (sess : Session) × Named with_session.sessions 20 (some "s1") sess
            × Permitted pause.request sess
            × (ctx ≡ session_context sess)))
write_route-Guarded_example = write_route-Guarded identity "" with_session pause

abbrev email_request : CreateJobRequest
email_request = record {
  type = "email";
  payload = some (("to", Value.text "ann@example.org") ∷ []);
  labels = [];
  priority = "";
  max_retries = pos 3;
  backoff_algorithm = "linear";
  backoff_jitter = "";
  cron_expr = "";
  run_at = "";
  correlation_id = "";
  timeout = pos 0;
  version = pos 0;
  tenant_id = "acme";
  dedup_key = "";
  dependencies = [];
  shard_key = "";
  webhook = none;
  ttl_seconds = pos 0;
}

-- The second request has no recipient.
abbrev batch : List CreateJobRequest
batch = email_request ∷ record email_request { payload = some [] } ∷ []

abbrev no_time : String → Option ℕ
no_time s = none

abbrev no_cron : String → Bool
no_cron s = false

validate_batch-Answer_example :
    BatchAnswer 9 no_time no_cron batch (validate_batch 9 no_time no_cron batch)
    × ((r : CreateJobRequest) → (validate 9 no_time no_cron r ≡ none) ↔ IsValid 9 no_time no_cron r)
validate_batch-Answer_example = validate_batch-Answer 9 no_time no_cron batch

batch-fails : validate_batch 9 no_time no_cron batch ≡ some (invalid_job 1 (field_required "to"))
unfolding validate_batch validate String_discrete lookup is_algorithm
batch-fails = refl
