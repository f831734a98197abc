-- ===== src/Queue/Settle.antt =====
-- internal/queue/redis/redis.go: `Ack`, `Fail`, `GetFailedJobs`, the idempotency marks and the rate limit.
pub mod Released
pub mod Buried
pub mod Rate
use task_queue_system.Prelude.{
  ℕ, suc, ite, Bool, true, false, Option, none, some, List, [], ◌∷◌, ◌++◌, String_discrete, String,
  leb, ◌==◌, if◌then◌else◌,
}
use task_queue_system.Prelude.Map.{insert}
use task_queue_system.Jobs.Types.{Job, failed, Value}
use task_queue_system.Redis.Data.{
  Key, in_flight, payloads, dead_letter, metrics_completed, metrics_failed, tenants, job_active_key,
  job_active_tenant_key, processed, rate, Entry, job_json, ident, key_name, other_text,
}
use task_queue_system.Redis.Commands.{
  Command, lpush, ltrim, lrange, zrem, hget, hdel, get, set_ex, del, incr, expire, sadd, Reply,
  count, value, entries,
}
use task_queue_system.Redis.Client.{
  Call, not_found, empty_id, Result, ok, M, pure, fail_with, attempt, ◌>>=◌, ◌>>◌, send, exec,
}
use task_queue_system.Queue.Partition.{RedisQueue}
use task_queue_system.Queue.Take.{decode_job}

-- The text of a GET whose error is dropped: a key, or the empty text.
abbrev tracked_key : Result Reply → Option Key
tracked_key (ok (value (key_name k))) = some k
tracked_key _ = none

abbrev untrack : String → Key → Option Key → List Command
untrack id pointer none = []
untrack id pointer (some k) = zrem k (ident id) ∷ del pointer ∷ []

-- The commands that both `Ack` and `Fail` queue, HDEL first.
abbrev pub release_commands : String → Option Key → Option Key → List Command
release_commands id a t =
    hdel payloads id
    ∷ zrem in_flight (ident id)
    ∷ (untrack id (job_active_key id) a ++ untrack id (job_active_tenant_key id) t)

abbrev removed_any : List Reply → Bool
removed_any (count (suc n) ∷ rs) = true
removed_any _ = false

abbrev payload_of : Reply → M Entry
payload_of (value e) = pure e
payload_of _ = fail_with not_found

abbrev or_empty : Option (List (String × Value)) → List (String × Value)
or_empty none = []
or_empty (some m) = m

-- `job.Payload["_error_reason"] = reason.Error()`, where there is a reason.
abbrev pub with_reason : Option String → Job → Job
with_reason none j = j
with_reason (some reason) j = record j {
  payload = some (insert String_discrete "_error_reason" (Value.text reason) (or_empty j.payload));
}

-- The job as it lies in the dead-letter list.
abbrev pub failed_job : ℕ → Option String → Job → Job
failed_job now reason j = with_reason reason (record j { status = failed; updated_at = now })

abbrev pub dead_letter_cap : ℕ
dead_letter_cap = 10000

abbrev jobs_in : List Entry → List Job
jobs_in [] = []
jobs_in (job_json j ∷ es) = j ∷ jobs_in es
jobs_in (_ ∷ es) = jobs_in es

abbrev entries_in : Reply → List Entry
entries_in (entries es) = es
entries_in _ = []

abbrev is_value : Reply → Bool
is_value (value e) = true
is_value _ = false

-- `processedTTL`.
abbrev pub processed_ttl : ℕ
processed_ttl = 86400000000000

module _ (call : Call) where
  pub release : String → M (List Reply)
  release id = do
    a ← attempt (send call (get (job_active_key id)))
    t ← attempt (send call (get (job_active_tenant_key id)))
    exec call (release_commands id (tracked_key a) (tracked_key t))

  pub acknowledged : List Reply → M (Unit {0})
  acknowledged rs =
      if removed_any rs
      then (attempt (send call (incr metrics_completed)) >> pure tt)
      else fail_with not_found

  -- `Ack`.
  unfoldable pub ack : String → M (Unit {0})
  unfolding release acknowledged
  ack id = ite (String_discrete id "") (fail_with empty_id) (release id >>= acknowledged)

  pub bury : ℕ → Option String → Job → M (Unit {0})
  bury now reason j = do
    exec call (
        lpush dead_letter (job_json (failed_job now reason j))
        ∷ ltrim dead_letter dead_letter_cap
        ∷ [])
    attempt (send call (incr metrics_failed))
    pure tt

  pub fail_found : ℕ → String → Option String → M (Unit {0})
  fail_found now id reason = do
    r ← send call (hget payloads id)
    e ← payload_of r
    j ← decode_job e
    release id
    bury now reason j

  -- `Fail`; `none` is a nil reason.
  unfoldable pub fail : ℕ → String → Option String → M (Unit {0})
  unfolding fail_found release bury
  fail now id reason = ite (String_discrete id "") (fail_with empty_id) (fail_found now id reason)

  -- `GetFailedJobs`: a corrupt entry is skipped.
  unfoldable pub get_failed_jobs : M (List Job)
  get_failed_jobs = send call (lrange dead_letter) >>= λ r. pure (jobs_in (entries_in r))

  -- `IsProcessed` and `MarkProcessed`.
  unfoldable pub is_processed : String → M Bool
  is_processed id = send call (get (processed id)) >>= λ r. pure (is_value r)

  unfoldable pub mark_processed : String → M (Unit {0})
  mark_processed id = send call (set_ex (processed id) (other_text "1") processed_ttl) >> pure tt

  -- `IsAllowed`: INCR in a window of one second from the first request.
  first_hit : String → ℕ → M (Unit {0})
  first_hit tenant n =
      if n == 1
      then (attempt (send call (expire (rate tenant) 1000000000))
          >> (attempt (send call (sadd tenants tenant)) >> pure tt))
      else pure tt

  counted : RedisQueue → String → Reply → M Bool
  counted q tenant (count n) = first_hit tenant n >> pure (leb n q.rate_limit)
  counted q tenant _ = pure false

  unfoldable pub is_allowed : RedisQueue → String → M Bool
  unfolding first_hit counted
  is_allowed q tenant =
      if q.rate_limit == 0
      then pure true
      else ite (String_discrete tenant "") (pure true)
          (send call (incr (rate tenant)) >>= counted q tenant)
