-- ===== src/Queue/Submit.antt =====
-- internal/queue/redis/redis.go: `Enqueue` and `Size`.
pub mod Placement
use task_queue_system.Prelude.{ℕ, ◌+◌, ◌/◌, Option, none, some, String, ltb, ◌==◌, if◌then◌else◌}
use task_queue_system.Jobs.Types.{Job, is_number}
use task_queue_system.Redis.Data.{high, medium, low, Key, delayed, metrics_total, job_json}
use task_queue_system.Redis.Commands.{lpush, zadd, incr, llen, Reply, count}
use task_queue_system.Redis.Client.{
  unencodable, Call, nil_job, Result, ok, M, pure, fail_with, attempt, ◌>>=◌, ◌>>◌, send,
}
use task_queue_system.Queue.Partition.{RedisQueue, get_partitioned_key}

-- `time.Time.Unix`: whole seconds.
abbrev pub unix : ℕ → ℕ
unix t = t / 1000000000

-- What an unanswered or odd LLEN leaves in `n, _ :=`.
abbrev pub length_or_zero : Result Reply → ℕ
length_or_zero (ok (count n)) = n
length_or_zero _ = 0

module _ (call : Call) (q : RedisQueue) where
  -- A scheduled job goes to the sorted set, any other to its priority list.
  place : ℕ → Job → M Reply
  place now j =
      if ltb now j.run_at
      then send call (zadd delayed (unix j.run_at) (job_json j))
      else send call (lpush (get_partitioned_key q j.id j.priority) (job_json j))

  count_new : Job → M (Unit {0})
  count_new j =
      if j.retries == 0 then (attempt (send call (incr metrics_total)) >> pure tt) else pure tt

  -- `Enqueue`; `trace` is what `tracing.Inject` reads from the context. `json.Marshal` refuses a progress
  -- that is not a number.
  unfoldable pub enqueue : ℕ → String → Option Job → M (Unit {0})
  unfolding place count_new
  enqueue now trace none = fail_with nil_job
  enqueue now trace (some j) =
      let j' : Job = record j { trace_id = trace } in
      if is_number j'.progress then place now j' >> count_new j' else fail_with unencodable

  -- `Size`: the lengths of the lists that are named for a tier alone.
  unfoldable pub size : M ℕ
  size = do
    h ← attempt (send call (llen (Key.tier high)))
    m ← attempt (send call (llen (Key.tier medium)))
    l ← attempt (send call (llen (Key.tier low)))
    pure (length_or_zero h + length_or_zero m + length_or_zero l)
