-- ===== src/Service/Batch.antt =====
-- internal/service/job_service.go, `CreateJobBatch`. The identifiers, the clock and the parser of times are
-- arguments.
pub mod Queued
use task_queue_system.Storage.Dual.{save_batch_of}
use task_queue_system.Service.Results.{publish_webhook_event, enqueue_each}
use task_queue_system.Prelude.Int.{negsuc, pos, ℤ}
use task_queue_system.Jobs.Types.{Float, priority_medium, pending, WebhookConfig, Value, Job}
use task_queue_system.Service.World.{
  as_done, not_persisted, Answer, M, Backend, ◌>>=◌, ◌>>◌, pure, read, write, enqueue, tell, acks,
}
use task_queue_system.Prelude.{
  ℕ, zero, suc, ◌+◌, ◌-◌, ◌*◌, ◌/◌, ◌%◌, ◌^◌, ◌≤◌, ◌<◌, ◌≡◌, refl, sym, ap, ◌∙◌, ◌≢◌, ◌↔◌, ◌⊎◌, inl,
  inr, ite, if_pos, if_neg, Bool, true, false, not, ◌&&◌, ◌||◌, Option, none, some, List, [], ◌∷◌,
  ◌++◌, map, arith, dec_lt, dec_le, ℕ_discrete, String_discrete, String, ltb, leb, ◌==◌,
  if◌then◌else◌, length, Bool-cases, Option-cases, if-intro,
}

-- One request. `TTLSeconds` is not read by the source.
pub record BatchRequest : Type 0 where
  pub type : String
  pub payload : Option (List (String × Value))
  pub labels : List (String × String)
  pub priority : String
  pub max_retries : ℤ
  pub backoff_algorithm : String
  pub backoff_jitter : String
  pub cron_expr : String
  pub run_at : String
  pub correlation_id : String
  pub timeout : ℤ
  pub version : ℤ
  pub tenant_id : String
  pub webhook : Option WebhookConfig
  pub dedup_key : String
  pub dependencies : List String
  pub shard_key : String

-- `if x == 0 { x = d }`.
abbrev or_if_zero : ℕ → ℤ → ℤ
or_if_zero d (pos zero) = pos d
or_if_zero d (pos (suc n)) = pos (suc n)
or_if_zero d (negsuc n) = negsuc n

abbrev time_or : ℕ → Option ℕ → ℕ
time_or now none = now
time_or now (some t) = t

-- A time that cannot be parsed is passed over.
abbrev run_at_of : ℕ → (String → Option ℕ) → String → ℕ
run_at_of now parse text = ite (String_discrete text "") now (time_or now (parse text))

unfoldable pub batch_job : ℕ → (String → Option ℕ) → String → BatchRequest → Job
batch_job now parse id q = record {
  id = id;
  type = q.type;
  payload = q.payload;
  labels = [];
  status = pending;
  priority = ite (String_discrete q.priority "") priority_medium q.priority;
  retries = 0;
  max_retries = or_if_zero 3 q.max_retries;
  backoff_algorithm = "";
  backoff_jitter = "";
  cron_expr = q.cron_expr;
  created_at = now;
  updated_at = now;
  run_at = run_at_of now parse q.run_at;
  processed_by = "";
  correlation_id = q.correlation_id;
  timeout = or_if_zero 60 q.timeout;
  version = or_if_zero 1 q.version;
  tenant_id = q.tenant_id;
  paused = false;
  progress = Float.millionths (pos 0);
  result = Value.null;
  webhook = q.webhook;
  dedup_key = q.dedup_key;
  dependencies = q.dependencies;
  shard_key = q.shard_key;
  trace_id = "";
  expires_at = 0;
  error_history = [];
}

-- The batch, and the jobs of it that wait for no other.
unfoldable pub batch_of : ℕ → (String → Option ℕ) → List (String × BatchRequest) → List Job
unfolding batch_job
batch_of now parse [] = []
batch_of now parse ((id, q) ∷ qs) = batch_job now parse id q ∷ batch_of now parse qs

unfoldable pub ready_of : List Job → List Job
ready_of [] = []
ready_of (j ∷ js) = let rest = ready_of js in if length j.dependencies == 0 then j ∷ rest else rest

module _ {S : Type 0} (b : Backend S) where
  announce_each : List Job → M S (Unit {0})
  announce_each [] = pure tt
  announce_each (j ∷ js) = publish_webhook_event b j "created" >> announce_each js

  after_batch_saved : List Job → Answer (Unit {0}) → M S (Answer (List Job))
  unfolding announce_each
  after_batch_saved js (inl e) = pure (inl not_persisted)
  after_batch_saved js (inr _) = enqueue_each b (ready_of js) >> announce_each js >> pure (inr js)

  -- `CreateJobBatch`, for the requests with the identifiers of their jobs.
  unfoldable pub create_job_batch :
      ℕ → (String → Option ℕ) → List (String × BatchRequest) → M S (Answer (List Job))
  unfolding after_batch_saved batch_of ready_of
  create_job_batch now parse [] = pure (inr [])
  create_job_batch now parse (q ∷ qs) =
      let js = batch_of now parse (q ∷ qs) in
      write b (save_batch_of js) >>= λ r. after_batch_saved js (as_done r)
