-- ===== src/Queue/Take.antt =====
-- internal/queue/redis/redis.go: `Dequeue` and the limits that it reads.
pub mod Started
pub mod Granted
pub mod Loop
pub mod Pending
pub mod Total
use task_queue_system.Prelude.{
  ℕ, zero, suc, ◌+◌, Bool, false, Option, none, some, List, [], ◌∷◌, String, leb, if◌then◌else◌,
}
use task_queue_system.Prelude.Int.{ℤ, pos, negsuc}
use task_queue_system.Jobs.Types.{Job, processing}
use task_queue_system.Redis.Data.{
  Key, in_flight, payloads, job_types_registered, tenants_registered, active_type, active_tenant,
  deferred, deferred_tenant, job_active_key, job_active_tenant_key, Entry, job_json, ident,
  settings, key_name,
}
use task_queue_system.Redis.Commands.{
  Command, lpush, brpop, zadd, zrem_upto, zcard, hset, hget, set_ex, Reply, nil, count, value,
  popped,
}
use task_queue_system.Redis.Client.{
  Call, timed_out, undecodable, no_fuel, Result, ok, M, pure, fail_with, attempt, ◌>>=◌, ◌>>◌, send,
  exec,
}
use task_queue_system.Queue.Partition.{RedisQueue, get_fair_partition_keys}
use task_queue_system.Queue.Submit.{unix}

-- `visibilityTimeout`, and the time to live of the two keys that `Dequeue` sets.
abbrev pub visibility_timeout : ℕ
visibility_timeout = 30000000000

abbrev pub active_key_ttl : ℕ
active_key_ttl = 3630000000000

-- `json.Unmarshal` into a `Job`.
abbrev pub decode_job : Entry → M Job
decode_job (job_json j) = pure j
decode_job _ = fail_with undecodable

-- BRPOP's reply: the payload, or the error of a timeout.
abbrev popped_entry : Reply → M Entry
popped_entry (popped k e) = pure e
popped_entry _ = fail_with timed_out

abbrev type_state_of : Reply → M (ℤ × Bool)
type_state_of nil = pure (pos 0, false)
type_state_of (value (settings limit paused)) = pure (limit, paused)
type_state_of _ = fail_with undecodable

-- Any error leaves a tenant without a limit.
abbrev tenant_limit_of : Result Reply → ℤ
tenant_limit_of (ok (value (settings limit paused))) = limit
tenant_limit_of _ = pos 0

abbrev count_in : Reply → ℕ
count_in (count n) = n
count_in _ = 0

-- `int(activeCount) >= limit`, for a limit that is positive.
abbrev pub positive_limit : ℤ → Option ℕ
positive_limit (pos zero) = none
positive_limit (pos (suc n)) = some (suc n)
positive_limit (negsuc n) = none

module _ (call : Call) where
  -- `getJobTypeState` and `getTenantLimit`.
  unfoldable pub get_job_type_state : String → M (ℤ × Bool)
  get_job_type_state t = send call (hget job_types_registered t) >>= type_state_of

  unfoldable pub get_tenant_limit : String → M ℤ
  get_tenant_limit t =
      attempt (send call (hget tenants_registered t)) >>= λ r. pure (tenant_limit_of r)

  -- Drops the members whose timeout has passed and compares the rest with the limit.
  pub over_limit : ℕ → Key → Option ℕ → M Bool
  over_limit now k none = pure false
  over_limit now k (some limit) = do
    attempt (send call (zrem_upto k (unix now)))
    n ← send call (zcard k)
    pure (leb limit (count_in n))

  pub put_aside : Key → Entry → M (Option Job)
  put_aside k e = send call (lpush k e) >> pure none

  -- The pipeline that moves the job into processing.
  pub start_commands : ℕ → Job → List Command
  start_commands now j =
      let at = unix (now + visibility_timeout) in
      hset payloads j.id (job_json j)
      ∷ zadd in_flight at (ident j.id)
      ∷ zadd (active_type j.type) at (ident j.id)
      ∷ set_ex (job_active_key j.id) (key_name (active_type j.type)) active_key_ttl
      ∷ zadd (active_tenant j.tenant_id) at (ident j.id)
      ∷ set_ex (job_active_tenant_key j.id) (key_name (active_tenant j.tenant_id)) active_key_ttl
      ∷ []

  pub start : ℕ → Job → M (Option Job)
  start now j =
      let j' : Job = record j { status = processing; updated_at = now } in
      exec call (start_commands now j') >> pure (some j')

  -- The checks of a popped job, in the order of the source; `none` is `continue`.
  pub admit_type : ℕ → Entry → Job → ℤ → M (Option Job)
  admit_type now e j limit = do
    full ← over_limit now (active_type j.type) (positive_limit limit)
    if full then put_aside (deferred j.type) e else start now j

  pub admit_tenant : ℕ → Entry → Job → ℤ → M (Option Job)
  admit_tenant now e j limit = do
    tenant_limit ← get_tenant_limit j.tenant_id
    full ← over_limit now (active_tenant j.tenant_id) (positive_limit tenant_limit)
    if full then put_aside (deferred_tenant j.tenant_id) e else admit_type now e j limit

  pub admit : ℕ → Entry → Job → ℤ × Bool → M (Option Job)
  admit now e j (limit, paused) =
      if paused then put_aside (deferred j.type) e else admit_tenant now e j limit

  -- One round of the loop.
  pub round : ℕ → List Key → M (Option Job)
  unfolding admit admit_tenant admit_type start put_aside over_limit start_commands
  round now keys = do
    r ← send call (brpop keys)
    e ← popped_entry r
    j ← decode_job e
    state ← get_job_type_state j.type
    admit now e j state

  -- The loop on fuel: every round but the last takes a job off the priority lists.
  pub finish_round : M Job → Option Job → M Job
  finish_round again none = again
  finish_round again (some j) = pure j

  unfoldable pub dequeue_loop : ℕ → ℕ → List Key → M Job
  unfolding finish_round round
  dequeue_loop zero now keys = fail_with no_fuel
  dequeue_loop (suc fuel) now keys =
      let again = dequeue_loop fuel now keys in round now keys >>= finish_round again

  -- `Dequeue`, for the number that `rand.Intn(100)` gives.
  unfoldable pub dequeue : (fuel : ℕ) → RedisQueue → (now r : ℕ) → M Job
  dequeue fuel q now r = dequeue_loop fuel now (get_fair_partition_keys q r)
