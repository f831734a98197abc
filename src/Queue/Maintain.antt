-- ===== src/Queue/Maintain.antt =====
-- internal/queue/redis/redis.go: the two Lua scripts and `ReconcileDeferredJobs`.
pub mod Promoted
pub mod Requeued
pub mod Reclaimed
pub mod Room
use task_queue_system.Prelude.{
  ℕ, zero, suc, ◌+◌, ◌-◌, Bool, Option, none, some, List, [], ◌∷◌, String, ◌==◌, if◌then◌else◌,
  length,
}
use task_queue_system.Prelude.Int.{ℤ}
use task_queue_system.Redis.Data.{
  Key, delayed, in_flight, payloads, job_types_registered, tenants_registered, active_type,
  active_tenant, deferred, deferred_tenant, Entry, job_json, ident, settings, Store,
}
use task_queue_system.Redis.Commands.{
  Command, lpush, rpop, llen, zrem, zrem_upto, zcard, zrange_upto, hget, hdel, hgetall, eval, Reply,
  count, value, entries, fields,
}
use task_queue_system.Redis.Client.{
  Call, undecodable, Result, ok, err, M, pure, fail_with, attempt, ◌>>=◌, ◌>>◌, send,
}
use task_queue_system.Queue.Partition.{RedisQueue, get_partitioned_key, lua_partition_key}
use task_queue_system.Queue.Submit.{unix}
use task_queue_system.Queue.Take.{positive_limit}

abbrev pub entries_in : Reply → List Entry
entries_in (entries es) = es
entries_in _ = []

abbrev pub id_in : Entry → String
id_in (ident id) = id
id_in _ = ""

-- A script's result: how many jobs it handled, or `none` for an error, and the store.
abbrev pub Script : Type 0
Script = Store → Option ℕ × Store

module _ (call : Call) (num_partitions : ℕ) where
  -- `redis.call` for its effect.
  abbrev pub run_call : Command → Store → Store
  run_call c d = (call c d).1

  -- The loop of `promoteScheduledJobsScript`; cjson.decode raises an error on a text that is no job.
  pub promote_loop : List Entry → Store → Option (Unit {0}) × Store
  promote_loop [] d = (some tt, d)
  promote_loop (job_json j ∷ es) d = promote_loop es (
      run_call (zrem delayed (job_json j))
        (run_call (lpush (lua_partition_key num_partitions j.id j.priority) (job_json j)) d))
  promote_loop (_ ∷ es) d = (none, d)

  pub finish_script : ℕ → Option (Unit {0}) × Store → Option ℕ × Store
  finish_script n (none, d) = (none, d)
  finish_script n (some _, d) = (some n, d)

  unfoldable pub promote_script : ℕ → Script
  unfolding promote_loop finish_script
  promote_script now d =
      let due = entries_in (call (zrange_upto delayed now) d).0 in
      finish_script (length due) (promote_loop due d)

  -- One identifier of `reclaimTimedOutJobsScript`.
  pub requeue : String → Reply → Store → Option Store
  requeue id (value (job_json j)) d =
      some (run_call (lpush (lua_partition_key num_partitions id j.priority) (job_json j)) d)
  requeue id (value _) d = none
  requeue id _ d = some d

  pub forget : String → Store → Store
  forget id d = run_call (hdel payloads id) (run_call (zrem in_flight (ident id)) d)

  pub reclaim_loop : List Entry → Store → Option (Unit {0}) × Store
  unfolding requeue forget
  reclaim_loop [] d = (some tt, d)
  reclaim_loop (e ∷ es) d = elim (requeue (id_in e) (call (hget payloads (id_in e)) d).0 d) [
    | none ↦ (none, d)
    | some d' ↦ reclaim_loop es (forget (id_in e) d')
  ]

  unfoldable pub reclaim_script : ℕ → Script
  unfolding reclaim_loop finish_script
  reclaim_script now d =
      let expired = entries_in (call (zrange_upto in_flight now) d).0 in
      finish_script (length expired) (reclaim_loop expired d)

abbrev pub script_count : Reply → M ℕ
script_count (count n) = pure n
script_count _ = fail_with undecodable

abbrev settings_in : Entry → Option (ℤ × Bool)
settings_in (settings limit paused) = some (limit, paused)
settings_in _ = none

abbrev fields_in : Reply → List (String × Entry)
fields_in (fields fs) = fs
fields_in _ = []

-- `deferredCount`, 0 where LLEN failed: the caller skips both.
abbrev pub waiting : Result Reply → ℕ
waiting (ok (count n)) = n
waiting _ = 0

-- `limit - activeCount`, 0 where there is no room or ZCARD failed.
abbrev pub room : ℕ → Result Reply → ℕ
room limit (ok (count n)) = limit - n
room limit _ = 0

module _ (call : Call) (q : RedisQueue) where
  -- `PromoteScheduledJobs` and `ReclaimTimedOutJobs`.
  unfoldable pub promote_scheduled_jobs : ℕ → M ℕ
  promote_scheduled_jobs now =
      send call (eval (promote_script call q.num_partitions (unix now))) >>= script_count

  unfoldable pub reclaim_timed_out_jobs : ℕ → M ℕ
  reclaim_timed_out_jobs now =
      send call (eval (reclaim_script call q.num_partitions (unix now))) >>= script_count

  -- One payload back to its priority list; the result counts it.
  pub put_back : Entry → M ℕ
  put_back (job_json j) =
      attempt (send call (lpush (get_partitioned_key q j.id j.priority) (job_json j))) >> pure 1
  put_back _ = pure 0

  -- `break` at an empty list; an error goes on to the next round.
  pub move_popped : M ℕ → Result Reply → M ℕ
  move_popped rest (ok (value e)) = do n ← put_back e; m ← rest; pure (n + m)
  move_popped rest (ok _) = pure 0
  move_popped rest (err _) = rest

  -- The `for` loop over the jobs that may move.
  pub move_deferred : ℕ → Key → M ℕ
  unfolding put_back move_popped
  move_deferred zero k = pure 0
  move_deferred (suc n) k =
      let rest = move_deferred n k in attempt (send call (rpop k)) >>= move_popped rest

  pub available : ℕ → Key → ℕ → Option ℕ → M ℕ
  available now active waiting none = pure waiting
  available now active waiting (some limit) = do
    attempt (send call (zrem_upto active (unix now)))
    n ← attempt (send call (zcard active))
    pure (room limit n)

  -- The body of both loops of `ReconcileDeferredJobs`, for one type or tenant.
  unfoldable pub reconcile_key : ℕ → Key → Key → Option ℕ → M ℕ
  unfolding move_deferred available
  reconcile_key now list active limit = do
    r ← attempt (send call (llen list))
    n ← if waiting r == 0 then pure 0 else available now active (waiting r) limit
    move_deferred n list

  reconcile_type : ℕ → String → Option (ℤ × Bool) → M ℕ
  reconcile_type now t none = pure 0
  reconcile_type now t (some (limit, paused)) =
      if paused
      then pure 0
      else reconcile_key now (deferred t) (active_type t) (positive_limit limit)

  reconcile_tenant : ℕ → String → Option (ℤ × Bool) → M ℕ
  reconcile_tenant now t none = pure 0
  reconcile_tenant now t (some (limit, paused)) =
      reconcile_key now (deferred_tenant t) (active_tenant t) (positive_limit limit)

  each : (String → Option (ℤ × Bool) → M ℕ) → List (String × Entry) → M ℕ
  each body [] = pure 0
  each body ((t, raw) ∷ fs) = do n ← body t (settings_in raw); m ← each body fs; pure (n + m)

  tenants_or_none : Result Reply → List (String × Entry)
  tenants_or_none (ok r) = fields_in r
  tenants_or_none (err _) = []

  -- `ReconcileDeferredJobs`.
  unfoldable pub reconcile_deferred_jobs : ℕ → M ℕ
  unfolding move_deferred available reconcile_key reconcile_type reconcile_tenant each
      tenants_or_none
  reconcile_deferred_jobs now = do
    types ← send call (hgetall job_types_registered)
    n ← each (reconcile_type now) (fields_in types)
    registered ← attempt (send call (hgetall tenants_registered))
    m ← each (reconcile_tenant now) (tenants_or_none registered)
    pure (n + m)
