-- ===== src/Storage/Dual.antt =====
-- internal/storage/models/dual_store.go: `DualStore`, over two stores that are known by their methods. The
-- calls of the interface `Store` are data, and a store answers one of them.
pub mod Mirror
use task_queue_system.Prelude.Int.{ℤ}
use task_queue_system.Prelude.{
  ℕ, zero, suc, ◌+◌, ◌-◌, ◌*◌, ◌/◌, ◌%◌, ◌^◌, ◌≤◌, ◌<◌, ◌≡◌, refl, sym, ap, ◌∙◌, ◌≢◌, ◌↔◌, ◌⊎◌, inl,
  inr, ite, if_pos, if_neg, Bool, true, false, not, ◌&&◌, ◌||◌, Option, none, some, List, [], ◌∷◌,
  ◌++◌, map, arith, dec_lt, dec_le, ℕ_discrete, String_discrete, String, ltb, leb, ◌==◌,
  if◌then◌else◌, length, Bool-cases, Option-cases, if-intro,
}
use task_queue_system.Jobs.Types.{Job, JobStatus, processing, Value, Float}
use task_queue_system.Storage.{
  InMemoryStore, StoreError, job_not_found, client_not_found, nil_job, not_implemented, JobFilter,
  ClientRecord, Answer, save_batch, save, get_by_id, get_by_ids, update_status, update_progress,
  update_result, enqueue, dequeue, heartbeat, complete, fail, recover_orphans, delete_job,
  register_client, verify_client, list_clients, revoke_client,
}
use task_queue_system.Storage.Query.{
  list_jobs, search_jobs, count_jobs, get_by_worker_and_status, delete_jobs_before,
  archive_old_jobs, is_dedup_key_taken, get_queue_lengths,
}

-- The methods that change a store, and those that read it.
pub data StoreWrite : Type 0 where
  save_batch_of : List Job → StoreWrite
  save_of : Option Job → StoreWrite
  update_status_of : String → JobStatus → String → StoreWrite
  update_progress_of : ℕ → String → Float → StoreWrite
  update_result_of : ℕ → String → JobStatus → String → Value → StoreWrite
  enqueue_of : Option Job → StoreWrite
  dequeue_of : (tenant shard : String) → StoreWrite
  heartbeat_of : String → StoreWrite
  complete_of : ℕ → String → Value → StoreWrite
  fail_of : ℕ → String → String → Bool → StoreWrite
  recover_orphans_of : (now timeout : ℕ) → StoreWrite
  archive_old_jobs_of : ℕ → StoreWrite
  delete_job_of : String → StoreWrite
  delete_jobs_before_of : (tenant status type : String) → ℕ → StoreWrite
  register_client_of : (tenant hash : String) → StoreWrite
  revoke_client_of : String → StoreWrite

pub data StoreRead : Type 0 where
  get_by_id_of : String → StoreRead
  get_by_ids_of : List String → StoreRead
  get_by_worker_and_status_of : String → JobStatus → StoreRead
  list_jobs_of : (tenant status type : String) → ℤ → ℤ → StoreRead
  search_jobs_of : JobFilter → StoreRead
  count_jobs_of : JobFilter → StoreRead
  is_dedup_key_taken_of : String → String → StoreRead
  get_ready_dag_jobs_of : ℤ → StoreRead
  get_dependent_jobs_of : String → StoreRead
  get_queue_lengths_of : StoreRead
  verify_client_of : String → StoreRead
  list_clients_of : ℕ → StoreRead

-- What a method returns.
pub data StoreReply : Type 0 where
  refused : StoreError → StoreReply
  done : StoreReply
  job_reply : Job → StoreReply
  jobs_reply : List Job → StoreReply
  count_reply : ℕ → StoreReply
  bool_reply : Bool → StoreReply
  text_reply : String → StoreReply
  lengths_reply : List (String × List (String × ℕ)) → StoreReply
  clients_reply : List ClientRecord → StoreReply

-- A store: what each method returns, and the state after it.
pub record StoreMethods (S : Type 0) : Type 1 where
  pub write : StoreWrite → S → StoreReply × S
  pub read : StoreRead → S → StoreReply

abbrev as_done : {S : Type 0} → (StoreError ⊎ (Unit {0})) × S → StoreReply × S
as_done (inl e, s) = (refused e, s)
as_done (inr tt, s) = (done, s)

abbrev as_job : {S : Type 0} → (StoreError ⊎ Job) × S → StoreReply × S
as_job (inl e, s) = (refused e, s)
as_job (inr j, s) = (job_reply j, s)

abbrev as_count : {S : Type 0} → ℕ × S → StoreReply × S
as_count (n, s) = (count_reply n, s)

-- `InMemoryStore` as a `Store`.
unfoldable pub in_memory_write : StoreWrite → InMemoryStore → StoreReply × InMemoryStore
in_memory_write (save_batch_of js) s = (done, save_batch js s)
in_memory_write (save_of j) s = as_done (save j s)
in_memory_write (update_status_of id st w) s = as_done (update_status id st w s)
in_memory_write (update_progress_of now id p) s = as_done (update_progress now id p s)
in_memory_write (update_result_of now id st w v) s = as_done (update_result now id st w v s)
in_memory_write (enqueue_of j) s = as_done (enqueue j s)
in_memory_write (dequeue_of tenant shard) s = as_job (dequeue s)
in_memory_write (heartbeat_of id) s = as_done (heartbeat id s)
in_memory_write (complete_of now id v) s = as_done (complete now id v s)
in_memory_write (fail_of now id e b) s = as_done (fail now id e b s)
in_memory_write (recover_orphans_of now t) s = as_count (recover_orphans now t s)
in_memory_write (archive_old_jobs_of cutoff) s = as_count (archive_old_jobs cutoff s)
in_memory_write (delete_job_of id) s = (done, delete_job id s)
in_memory_write (delete_jobs_before_of t st ty b) s = as_count (delete_jobs_before t st ty b s)
in_memory_write (register_client_of t h) s = (done, register_client t h s)
in_memory_write (revoke_client_of t) s = (done, revoke_client t s)

abbrev as_read : StoreError ⊎ Job → StoreReply
as_read (inl e) = refused e
as_read (inr j) = job_reply j

abbrev as_text : StoreError ⊎ String → StoreReply
as_text (inl e) = refused e
as_text (inr t) = text_reply t

unfoldable pub in_memory_read : StoreRead → InMemoryStore → StoreReply
in_memory_read (get_by_id_of id) s = as_read (get_by_id id s)
in_memory_read (get_by_ids_of ids) s = jobs_reply (get_by_ids ids s)
in_memory_read (get_by_worker_and_status_of w st) s = jobs_reply (get_by_worker_and_status w st s)
in_memory_read (list_jobs_of t st ty l o) s = jobs_reply (list_jobs t st ty l o s)
in_memory_read (search_jobs_of f) s = jobs_reply (search_jobs f s)
in_memory_read (count_jobs_of f) s = count_reply (count_jobs f s)
in_memory_read (is_dedup_key_taken_of k t) s = bool_reply (is_dedup_key_taken k t s)
in_memory_read (get_ready_dag_jobs_of l) s = jobs_reply []
in_memory_read (get_dependent_jobs_of p) s = jobs_reply []
in_memory_read get_queue_lengths_of s = lengths_reply (get_queue_lengths s)
in_memory_read (verify_client_of h) s = as_text (verify_client h s)
in_memory_read (list_clients_of now) s = clients_reply (list_clients now s)

abbrev pub in_memory : StoreMethods InMemoryStore
in_memory = record { write = in_memory_write; read = in_memory_read }

module _ {S T : Type 0} (primary : StoreMethods S) (secondary : StoreMethods T) where
  -- The secondary's answer is dropped, and it is asked first.
  both : StoreWrite → S × T → StoreReply × (S × T)
  both c (s, t) =
      let t' = (secondary.write c t).1 in let (r, s') = primary.write c s in (r, (s', t'))

  -- `SaveBatch`: the primary first, and the secondary only after a success.
  pub batch_after : StoreWrite → StoreReply × S → T → StoreReply × (S × T)
  batch_after c (refused e, s) t = (refused e, (s, t))
  batch_after c (r, s) t = (r, (s, (secondary.write c t).1))

  -- `Dequeue`: the job that the primary returns is marked in the secondary.
  pub taken_after : StoreReply × S → T → StoreReply × (S × T)
  taken_after (job_reply j, s) t =
      (job_reply j, (s, (secondary.write (update_status_of j.id processing j.processed_by) t).1))
  taken_after (r, s) t = (r, (s, t))

  -- `DualStore`.
  unfoldable pub dual_write : StoreWrite → S × T → StoreReply × (S × T)
  unfolding both batch_after taken_after
  dual_write (save_batch_of js) (s, t) =
      batch_after (save_batch_of js) (primary.write (save_batch_of js) s) t
  dual_write (dequeue_of tenant shard) (s, t) =
      taken_after (primary.write (dequeue_of tenant shard) s) t
  dual_write (recover_orphans_of now timeout) (s, t) =
      let (r, s') = primary.write (recover_orphans_of now timeout) s in (r, (s', t))
  dual_write c st = both c st

  unfoldable pub dual_read : StoreRead → S × T → StoreReply
  dual_read c (s, t) = primary.read c s

  abbrev pub dual_store : StoreMethods (S × T)
  dual_store = record { write = dual_write; read = dual_read }
