-- ===== src/Examples/Settle.antt =====
-- The job that was dequeued is acknowledged, or fails; the rate limit of one tenant.
use task_queue_system.Prelude.{
  ne_of_test, ◌≡◌, refl, none, some, [], ◌∷◌, arith, ℕ_discrete, String_discrete,
}
use task_queue_system.Prelude.Map.{lookup, insert}
use task_queue_system.Jobs.Types.{Job}
use task_queue_system.Jobs.Create.{new_job}
use task_queue_system.Redis.Data.{Entry, Key_discrete, Entry_discrete, payloads}
use task_queue_system.Redis.Commands.{perform, zset_add}
use task_queue_system.Redis.Client.{Server, ok, err, io_failed, delivered, request_lost, send, exec}
use task_queue_system.Queue.Partition.{new, get_partitioned_key, get_fair_partition_keys}
use task_queue_system.Queue.Submit.{enqueue}
use task_queue_system.Queue.Take.{dequeue, dequeue_loop, get_job_type_state, get_tenant_limit}
use task_queue_system.Queue.Settle.{ack, fail, is_allowed}
use task_queue_system.Queue.Settle.Released.{Released, Forgotten, ack-Released}
use task_queue_system.Queue.Settle.Buried.{Buried, fail-loses}
use task_queue_system.Queue.Settle.Rate.{Counted, is_allowed-Counted}
use task_queue_system.Examples.Queue.{server, dequeued, taken, perform-Documented}

abbrev settled : Server
settled = (ack perform "job1" dequeued).1

acknowledged : ack perform "job1" dequeued ≡ (ok tt, settled)
unfolding ack dequeue dequeue_loop get_job_type_state get_tenant_limit enqueue send exec perform
    new_job new get_partitioned_key get_fair_partition_keys Key_discrete Entry_discrete
    String_discrete ℕ_discrete lookup insert zset_add
acknowledged = refl

ack-Released_example : Released "job1" dequeued settled
ack-Released_example = ack-Released perform "job1" dequeued settled perform-Documented acknowledged

abbrev failed_server : Server
failed_server = (fail perform 30 "job1" (some "boom") dequeued).1

abbrev BuriedJob : Type 0
BuriedJob = (j : Job) × Buried 30 "job1" (some "boom") j dequeued failed_server

held : lookup String_discrete "job1" (dequeued.store.hashes payloads) ≡ some (Entry.job_json taken)
unfolding dequeue dequeue_loop get_job_type_state get_tenant_limit enqueue send exec perform new_job
    new get_partitioned_key get_fair_partition_keys Key_discrete Entry_discrete String_discrete
    ℕ_discrete lookup insert zset_add
held = refl

fail-loses_example :
    let s : Server = record {
      store = dequeued.store;
      faults = delivered ∷ delivered ∷ delivered ∷ delivered ∷ request_lost ∷ [];
    } in
    let (r, t) = fail perform 30 "job1" none s in (r ≡ err io_failed) × Forgotten "job1" s t
fail-loses_example =
    fail-loses perform 30 "job1" none taken dequeued.store perform-Documented
      (ne_of_test "job1" "" refl) held

is_allowed-Counted_example :
    let (r, t) = is_allowed perform new "acme" server in Counted new "acme" server r t
unfolding new
is_allowed-Counted_example =
    is_allowed-Counted perform new "acme" server perform-Documented (omega arith)
      (ne_of_test "acme" "" refl) refl
