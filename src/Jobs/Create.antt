-- ===== src/Jobs/Create.antt =====
-- internal/jobs/job.go, `NewJob`. The two identifiers that github.com/google/uuid may be asked for
-- and the clock's reading are arguments.
use task_queue_system.Prelude.{
  ℕ, String, Option, none, List, [], ite, String_discrete, ℕ_discrete, if◌then◌else◌,
}
use task_queue_system.Prelude.Int.{ℤ, pos, leb_ℤ}
use task_queue_system.Jobs.Types.{
  Job, Value, JobPriority, Float, pending, priority_medium, backoff_exponential, jitter_none,
}
use task_queue_system.Prelude.{false}

-- The arguments of `NewJob`.
pub record NewJobArgs : Type 0 where
  pub type : String
  pub payload : Option (List (String × Value))
  pub labels : List (String × String)
  pub priority : JobPriority
  pub max_retries : ℤ
  pub run_at : ℕ
  pub correlation_id : String
  pub timeout : ℤ
  pub version : ℤ
  pub tenant_id : String

unfoldable pub new_job : (id correlation : String) (now : ℕ) → NewJobArgs → Job
new_job id correlation now a = record {
  id = id;
  type = a.type;
  payload = a.payload;
  labels = a.labels;
  status = pending;
  priority = ite (String_discrete a.priority "") priority_medium a.priority;
  retries = 0;
  max_retries = a.max_retries;
  backoff_algorithm = backoff_exponential;
  backoff_jitter = jitter_none;
  cron_expr = "";
  created_at = now;
  updated_at = now;
  run_at = ite (ℕ_discrete a.run_at 0) now a.run_at;
  processed_by = "";
  correlation_id = ite (String_discrete a.correlation_id "") correlation a.correlation_id;
  timeout = a.timeout;
  version = if leb_ℤ a.version (pos 0) then pos 1 else a.version;
  tenant_id = a.tenant_id;
  paused = false;
  progress = Float.millionths (pos 0);
  result = Value.null;
  webhook = none;
  dedup_key = "";
  dependencies = [];
  shard_key = "";
  trace_id = "";
  expires_at = 0;
  error_history = [];
}
