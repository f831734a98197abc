-- ===== src/Examples/Queue.antt =====
-- A queue on an empty server: a job is enqueued and dequeued.
use task_queue_system.Prelude.{◌≡◌, refl, ◌≢◌, none, some, [], arith, ℕ_discrete, String_discrete}
use task_queue_system.Jobs.Types.{Job, processing}
use task_queue_system.Jobs.Create.{new_job}
use task_queue_system.Redis.Data.{Key_discrete, Store}
use task_queue_system.Redis.Commands.{perform}
use task_queue_system.Redis.Client.{Server, Documented, ok, err, no_fuel, send}
use task_queue_system.Queue.Partition.{
  new, get_partitioned_key, get_fair_partition_keys, lua_partition_key,
}
use task_queue_system.Queue.Partition.Laws.{lua_partition_key-ascii}
use task_queue_system.Queue.Submit.{enqueue}
use task_queue_system.Queue.Submit.Placement.{Placed, enqueue-Placed}
use task_queue_system.Queue.Take.{dequeue}
use task_queue_system.Queue.Take.Granted.{Granted}
use task_queue_system.Queue.Take.Total.{dequeue-returns}
use task_queue_system.Examples.Jobs.{email_job}

abbrev pub empty_store : Store
empty_store = record {
  lists = λ k. [];
  zsets = λ k. [];
  hashes = λ k. [];
  streams = λ k. [];
  sets = λ k. [];
  strings = λ k. none;
  clock = 0;
}

abbrev pub server : Server
server = record { store = empty_store; faults = [] }

pub perform-Documented : Documented perform
perform-Documented c d = refl

lua_partition_key-ascii_example :
    lua_partition_key new.num_partitions "job1" "high" ≡ get_partitioned_key new "job1" "high"
lua_partition_key-ascii_example = lua_partition_key-ascii new "job1" "high" (omega arith)

abbrev pub enqueued : Server
enqueued = (enqueue perform new 9 "" (some email_job) server).1

accepted : enqueue perform new 9 "" (some email_job) server ≡ (ok tt, enqueued)
unfolding enqueue send perform new_job ℕ_discrete
accepted = refl

enqueue-Placed_example : Placed new 9 (record email_job { trace_id = "" }) server enqueued
enqueue-Placed_example =
    enqueue-Placed perform new 9 "" email_job server enqueued perform-Documented accepted

abbrev pub dequeued : Server
dequeued = (dequeue perform 5 new 20 0 enqueued).1

abbrev pub taken : Job
taken = record email_job { trace_id = ""; status = processing; updated_at = 20 }

dequeue-returns_example : (dequeue perform 5 new 20 0 enqueued).0 ≢ err no_fuel
unfolding enqueue send perform new_job new get_partitioned_key get_fair_partition_keys Key_discrete
    String_discrete ℕ_discrete
dequeue-returns_example =
    dequeue-returns perform 5 new 20 0 enqueued perform-Documented (omega arith)
