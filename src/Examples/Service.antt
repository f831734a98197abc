-- ===== src/Examples/Service.antt =====
-- A job is created with a duplicate key and accepted by the queue.
use task_queue_system.Prelude.{true, false, none, some, []}
use task_queue_system.Prelude.Int.{pos}
use task_queue_system.Service.Create.{CreateRequest, CreateAnswers, saved}

abbrev request : CreateRequest
request = record {
  args = record {
    type = "email";
    payload = none;
    labels = [];
    priority = "high";
    max_retries = pos 0;
    run_at = 0;
    correlation_id = "";
    timeout = pos 0;
    version = pos 1;
    tenant_id = "acme";
  };
  backoff_algorithm = "";
  backoff_jitter = "";
  cron_expr = "";
  run_at_text = "";
  webhook = none;
  dedup_key = "key";
  dependencies = [];
  shard_key = "";
}

abbrev answers : CreateAnswers
answers = record {
  now = 7;
  id = "job1";
  correlation = "corr1";
  type_allowed = true;
  dedup_taken = some false;
  dependencies = none;
  rate_allowed = some true;
  run_at = none;
  size = some 3;
  cron_next = none;
  saved = saved;
  enqueued = true;
}
