-- ===== src/Queue/Submit/Placement.antt =====
-- Where `Enqueue` puts a job, and what `Size` sees of it.
use task_queue_system.Redis.Data.{job_json, delayed}
use task_queue_system.Jobs.Types.{Job}
use task_queue_system.Queue.Submit.{size, unix, enqueue}
use task_queue_system.Queue.Partition.{get_partitioned_key, RedisQueue}
use task_queue_system.Redis.Client.{Call}
use task_queue_system.Prelude.{[], ◌∷◌, ◌≤◌, ◌<◌, some, String, ℕ, ◌≡◌, arith}
use task_queue_system.Redis.Commands.{zset_add, update, Reply, Command, perform}
use task_queue_system.Redis.Client.{by_document, Documented, Server, ok, send}

-- What is left of one command that was answered.
send-ok :
    (c : Command) (s t : Server) (r : Reply)
    → send perform c s ≡ (ok r, t)
    → perform c s.store ≡ (r, t.store)
unfolding send
send-ok c s t r e = ground arith

-- What an enqueued job changes, where `j` is the job with its trace: the set of scheduled jobs or
-- one priority list, and nothing else but the counter of jobs.
abbrev pub Placed : RedisQueue → ℕ → Job → Server → Server → Type 0
Placed q now j s t =
    (t.store.hashes ≡ s.store.hashes)
    × (now < j.run_at
        → (t.store.lists ≡ s.store.lists)
          × (t.store.zsets
              ≡ update s.store.zsets delayed
                  (zset_add (unix j.run_at) (job_json j) (s.store.zsets delayed))))
    × (j.run_at ≤ now
        → (t.store.zsets ≡ s.store.zsets)
          × (t.store.lists ≡ (
              let k = get_partitioned_key q j.id j.priority in
              update s.store.lists k (job_json j ∷ s.store.lists k))))

enqueue_performed :
    (q : RedisQueue) (now : ℕ) (trace : String) (j : Job) (s t : Server)
    → enqueue perform q now trace (some j) s ≡ (ok tt, t)
    → Placed q now (record j { trace_id = trace }) s t
unfolding enqueue send perform
enqueue_performed q now trace j s t e = ground arith

-- A successful `Enqueue` puts a job that is due after now into the set of scheduled jobs, scored by
-- its second, and any other at the head of the list of its priority and partition; it changes no
-- other list, sorted set or hash.
pub enqueue-Placed :
    (call : Call) (q : RedisQueue) (now : ℕ) (trace : String) (j : Job) (s t : Server)
    → Documented call
    → enqueue call q now trace (some j) s ≡ (ok tt, t)
    → Placed q now (record j { trace_id = trace }) s t
enqueue-Placed call q now trace j s t doc =
    by_document
      (λ c.
        enqueue c q now trace (some j) s ≡ (ok tt, t)
        → Placed q now (record j { trace_id = trace }) s t)
      doc (enqueue_performed q now trace j s t)

enqueue-size_performed :
    (q : RedisQueue) (now : ℕ) (trace : String) (j : Job) (s : Server)
    → s.faults ≡ []
    → (size perform q (enqueue perform q now trace (some j) s).1).0 ≡ (size perform q s).0
unfolding enqueue size send perform get_partitioned_key
enqueue-size_performed q now trace j s e = ground arith

-- `Size` counts the lists named for a tier alone, and no job is pushed to those: while every request
-- is delivered, `Enqueue` leaves the size as it was.
size-enqueue :
    (call : Call) (q : RedisQueue) (now : ℕ) (trace : String) (j : Job) (s : Server)
    → Documented call
    → s.faults ≡ []
    → (size call q (enqueue call q now trace (some j) s).1).0 ≡ (size call q s).0
size-enqueue call q now trace j s doc e =
    by_document (λ c. (size c q (enqueue c q now trace (some j) s).1).0 ≡ (size c q s).0) doc
      (enqueue-size_performed q now trace j s e)
