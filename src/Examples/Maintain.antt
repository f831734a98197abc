-- ===== src/Examples/Maintain.antt =====
-- A scheduled job becomes due; a job is not settled in time.
use task_queue_system.Prelude.{
  ◌≡◌, refl, some, [], ◌∷◌, map, ℕ_discrete, String_discrete, String, length,
}
use task_queue_system.Prelude.Map.{lookup, insert}
use task_queue_system.Jobs.Create.{new_job}
use task_queue_system.Redis.Data.{Key_discrete, Entry_discrete, in_flight, delayed, ident}
use task_queue_system.Redis.Commands.{perform, zset_add, zset_remove, zset_place, upto}
use task_queue_system.Redis.Client.{Server, ok, send, exec}
use task_queue_system.Queue.Partition.{new, get_partitioned_key, get_fair_partition_keys}
use task_queue_system.Queue.Submit.{enqueue, unix}
use task_queue_system.Queue.Take.{dequeue, dequeue_loop, get_job_type_state, get_tenant_limit}
use task_queue_system.Queue.Maintain.{
  promote_scheduled_jobs, reclaim_timed_out_jobs, promote_script, reclaim_script,
}
use task_queue_system.Queue.Maintain.Promoted.{Promoted, due, promote_scheduled_jobs-Promoted}
use task_queue_system.Queue.Maintain.Reclaimed.{Reclaimed, reclaim_timed_out_jobs-Reclaimed}
use task_queue_system.Examples.Jobs.{email_job}
use task_queue_system.Examples.Queue.{server, dequeued, perform-Documented}

-- The job is due at five seconds.
abbrev scheduled : Server
scheduled = (enqueue perform new 9 "" (some (record email_job { run_at = 5000000000 })) server).1

abbrev promoted : Server
promoted = (promote_scheduled_jobs perform new 6000000000 scheduled).1

one_promoted : promote_scheduled_jobs perform new 6000000000 scheduled ≡ (ok 1, promoted)
unfolding promote_scheduled_jobs promote_script enqueue send perform new_job new Key_discrete
    Entry_discrete zset_add ℕ_discrete upto zset_place zset_remove
one_promoted = refl

promote_scheduled_jobs-Promoted_example :
    (1 ≡ length (due (unix 6000000000) (scheduled.store.zsets delayed)))
    × Promoted new.num_partitions (unix 6000000000) scheduled.store promoted.store
promote_scheduled_jobs-Promoted_example =
    promote_scheduled_jobs-Promoted perform new 6000000000 1 scheduled promoted perform-Documented
      one_promoted

-- The timeout of the job taken is thirty seconds after the epoch.
abbrev reclaimed : Server
reclaimed = (reclaim_timed_out_jobs perform new 40000000000 dequeued).1

one_expired : due (unix 40000000000) (dequeued.store.zsets in_flight) ≡ map ident ("job1" ∷ [])
unfolding dequeue dequeue_loop get_job_type_state get_tenant_limit enqueue send exec perform new_job
    new get_partitioned_key get_fair_partition_keys Key_discrete Entry_discrete String_discrete
    ℕ_discrete lookup insert zset_add upto zset_place zset_remove
one_expired = refl

one_reclaimed : reclaim_timed_out_jobs perform new 40000000000 dequeued ≡ (ok 1, reclaimed)
unfolding reclaim_timed_out_jobs reclaim_script dequeue dequeue_loop get_job_type_state
    get_tenant_limit enqueue send exec perform new_job new get_partitioned_key
    get_fair_partition_keys Key_discrete Entry_discrete String_discrete ℕ_discrete lookup insert
    zset_add upto zset_place zset_remove
one_reclaimed = refl

reclaim_timed_out_jobs-Reclaimed_example :
    (1 ≡ length {A = String} ("job1" ∷ []))
    × Reclaimed new.num_partitions (unix 40000000000) ("job1" ∷ []) dequeued.store reclaimed.store
reclaim_timed_out_jobs-Reclaimed_example =
    reclaim_timed_out_jobs-Reclaimed perform new 40000000000 1 ("job1" ∷ []) dequeued reclaimed
      perform-Documented one_expired one_reclaimed
