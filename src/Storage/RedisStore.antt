-- ===== src/Storage/RedisStore.antt =====
-- internal/storage/models/models.go: `RedisStore`, the job records as JSON in one hash. The server is the
-- parameter `call`; the moments are `now`.
pub mod Clients
pub mod Scan
pub mod Refines
pub mod Readback
use task_queue_system.Storage.{recovered, is_orphan}
use task_queue_system.Storage.Query.{worker_and_status, count_one, is_old}
use task_queue_system.Redis.Commands.{
  value, options, fields, entries, count, hset, hvals, hmget, hgetall, hdel_all, set_nx, set_key,
  hget, hdel, Command, Reply,
}
use task_queue_system.Jobs.Types.{
  is_number, failed, completed, pending, Value, JobStatus_discrete, JobStatus, Float, Job,
}
use task_queue_system.Redis.Data.{other_text, job_text, job_store, dedup, job_json, Entry}
use task_queue_system.Redis.Client.{
  err, ok, not_found, io_failed, attempt, ◌>>◌, ◌>>=◌, unencodable, undecodable, not_implemented,
  exec, send, pure, fail_with, M, Call,
}
use task_queue_system.Prelude.{
  refl, ◌≡◌, ◌++◌, true, append_text, ℕ, ◌+◌, ite, Bool, false, Option, none, some, List, [], ◌∷◌,
  String_discrete, String, ltb, if◌then◌else◌, length,
}

abbrev Dones : Type 0
Dones = M (Unit {0})

-- `json.Marshal` of a job refuses a progress that is not a number.
abbrev pub marshal : Job → Option Entry
marshal j = if is_number j.progress then some (job_json j) else none

-- `json.Unmarshal` into a job.
abbrev pub unmarshal : Entry → Option Job
unmarshal (job_json j) = some j
unmarshal _ = none

abbrev or_unencodable : Option Entry → M Entry
or_unencodable none = fail_with unencodable
or_unencodable (some e) = pure e

abbrev or_undecodable : Option Job → M Job
or_undecodable none = fail_with undecodable
or_undecodable (some j) = pure j

abbrev job_in : Reply → M Job
job_in (value e) = or_undecodable (unmarshal e)
job_in Reply.nil = fail_with not_found
job_in _ = fail_with undecodable

-- The jobs among the values; what is no job is passed over.
unfoldable pub jobs_in : List Entry → List Job
jobs_in [] = []
jobs_in (e ∷ es) = elim (unmarshal e) [ none ↦ jobs_in es | some j ↦ j ∷ jobs_in es ]

unfoldable pub jobs_among : List (Option Entry) → List Job
jobs_among [] = []
jobs_among (none ∷ os) = jobs_among os
jobs_among (some e ∷ os) =
    let rest = jobs_among os in elim (unmarshal e) [ none ↦ rest | some j ↦ j ∷ rest ]

abbrev pub entries_of : Reply → M (List Entry)
entries_of (entries es) = pure es
entries_of _ = fail_with io_failed

abbrev options_of : Reply → M (List (Option Entry))
options_of (options os) = pure os
options_of _ = fail_with io_failed

abbrev fields_of : Reply → M (List (String × Entry))
fields_of (fields fs) = pure fs
fields_of _ = fail_with io_failed

-- The replies to HSCAN or SCAN, one list for each round until the cursor is 0, `none` where it failed.
abbrev pub prepend {ℓ} : {A : Type ℓ} → List A → Option (List A) → Option (List A)
prepend xs none = none
prepend xs (some rest) = some (xs ++ rest)

-- What all rounds gave.
unfoldable pub all_pages {ℓ} : {A : Type ℓ} → List (Option (List A)) → Option (List A)
all_pages [] = some []
all_pages (none ∷ ps) = none
all_pages (some xs ∷ ps) = prepend xs (all_pages ps)

prepend-some :
    {A : Type 0} (xs : List A) (o : Option (List A)) {ys : List A}
    → prepend xs o ≡ some ys
    → (rest : List A) × (o ≡ some rest) × (xs ++ rest ≡ ys)
prepend-some xs none e = cc
prepend-some xs (some rest) e = (rest, refl, cc)

-- A first round that was answered, and the rest.
pub all_pages-cons :
    {A : Type 0} (xs : List A) (ps : List (Option (List A))) {ys : List A}
    → all_pages (some xs ∷ ps) ≡ some ys
    → (rest : List A) × (all_pages ps ≡ some rest) × (xs ++ rest ≡ ys)
unfolding all_pages
all_pages-cons xs ps e = prepend-some xs (all_pages ps) e

unfoldable pub only : (Job → Bool) → List Job → List Job
only p [] = []
only p (j ∷ js) = let rest = only p js in if p j then j ∷ rest else rest

unfoldable pub lengths_of :
    List Job → List (String × List (String × ℕ)) → List (String × List (String × ℕ))
lengths_of [] out = out
lengths_of (j ∷ js) out =
    lengths_of js (ite (JobStatus_discrete j.status pending) (count_one j out) out)

-- `dedup:%s:%s`, and 24 hours.
abbrev pub tenant_and_key : (tenant key : String) → String
tenant_and_key tenant key = append_text tenant (append_text ":" key)

abbrev pub day : ℕ
day = 86400000000000

-- SETNX answers whether the key was set.
abbrev was_set : Reply → M Bool
was_set (count n) = pure (ltb 0 n)
was_set _ = fail_with io_failed

-- The pipeline of `SaveBatch`: nothing is sent if one job cannot be encoded.
unfoldable pub batch_commands : List Job → Option (List Command)
batch_commands [] = some []
batch_commands (j ∷ js) =
    let rest = batch_commands js in
    elim (marshal j) [
      | none ↦ none
      | some e ↦ elim rest [ none ↦ none | some cs ↦ some (set_key (job_text j.id) e ∷ cs) ]
    ]

-- The identifiers of the records that `ArchiveOldJobs` deletes.
unfoldable pub old_fields : ℕ → List (String × Entry) → List String
old_fields cutoff [] = []
old_fields cutoff ((id, e) ∷ fs) =
    let rest = old_fields cutoff fs in
    elim (unmarshal e) [ none ↦ rest | some j ↦ if is_old cutoff j then id ∷ rest else rest ]

module _ (call : Call) where
  -- `SaveBatch`.
  send_batch : Option (List Command) → Dones
  send_batch none = fail_with unencodable
  send_batch (some cs) = exec call cs >> pure tt

  unfoldable pub save_batch : List Job → Dones
  unfolding send_batch batch_commands
  save_batch [] = pure tt
  save_batch (j ∷ js) = send_batch (batch_commands (j ∷ js))

  -- HSET of a job under an identifier.
  pub put_record : String → Job → Dones
  put_record id j = do e ← or_unencodable (marshal j); send call (hset job_store id e); pure tt

  -- `Save` and `Enqueue`.
  unfoldable pub save : Job → Dones
  unfolding put_record
  save j = put_record j.id j

  -- `GetByID`.
  unfoldable pub get_by_id : String → M Job
  get_by_id id = send call (hget job_store id) >>= job_in

  -- The body of `UpdateStatus`, `UpdateProgress` and `UpdateResult`.
  pub change : String → (Job → Job) → Dones
  unfolding get_by_id put_record
  change id f = do j ← get_by_id id; put_record id (f j)

  unfoldable pub update_status : ℕ → String → JobStatus → String → Dones
  unfolding change
  update_status now id status worker =
      change id (λ j. record j { status = status; processed_by = worker; updated_at = now })

  unfoldable pub update_progress : ℕ → String → Float → Dones
  unfolding change
  update_progress now id progress =
      change id (λ j. record j { progress = progress; updated_at = now })

  unfoldable pub update_result : ℕ → String → JobStatus → String → Value → Dones
  unfolding change
  update_result now id status worker result =
      change id (λ j. record j {
        status = status;
        processed_by = worker;
        result = result;
        updated_at = now;
      })

  -- `Dequeue` and `Heartbeat`.
  abbrev pub dequeue : M Job
  dequeue = fail_with not_implemented

  abbrev pub heartbeat : String → Dones
  heartbeat id = pure tt

  -- `Complete` and `Fail`.
  unfoldable pub complete : ℕ → String → Value → Dones
  unfolding update_result
  complete now id result = update_result now id completed "" result

  unfoldable pub fail : ℕ → String → String → Bool → Dones
  unfolding update_result
  fail now id reason requeue =
      update_result now id (if requeue then pending else failed) "" (Value.text reason)

  -- `GetByWorkerAndStatus`.
  unfoldable pub get_by_worker_and_status : String → JobStatus → M (List Job)
  unfolding jobs_in only
  get_by_worker_and_status worker status = do
    r ← send call (hvals job_store)
    es ← entries_of r
    pure (only (worker_and_status worker status) (jobs_in es))

  -- `GetByIDs`.
  unfoldable pub get_by_ids : List String → M (List Job)
  unfolding jobs_among
  get_by_ids ids = do r ← send call (hmget job_store ids); os ← options_of r; pure (jobs_among os)

  -- `RecoverOrphans`: one write for each orphan, and the number of those that succeeded.
  pub count_put : String → Job → M ℕ
  unfolding put_record
  count_put id j = attempt (put_record id j) >>= λ r. pure (elim r [ ok _ ↦ 1 | err _ ↦ 0 ])

  pub recover_each : (now timeout : ℕ) → List Job → M ℕ
  unfolding count_put
  recover_each now timeout [] = pure 0
  recover_each now timeout (j ∷ js) =
      let rest = recover_each now timeout js in
      if is_orphan now timeout j
      then (count_put j.id (recovered now timeout j) >>= λ n. rest >>= λ m. pure (n + m))
      else rest

  unfoldable pub recover_orphans : (now timeout : ℕ) → M ℕ
  unfolding recover_each jobs_in
  recover_orphans now timeout = do
    r ← send call (hvals job_store)
    es ← entries_of r
    recover_each now timeout (jobs_in es)

  -- `DeleteJob`.
  unfoldable pub delete_job : String → Dones
  delete_job id = send call (hdel job_store id) >> pure tt

  -- `IsDedupKeyTaken`: SETNX for a day, and its answer.
  unfoldable pub is_dedup_key_taken : (key tenant : String) → M Bool
  is_dedup_key_taken key tenant =
      ite (String_discrete key "") (pure false)
        (send call (set_nx (dedup (tenant_and_key tenant key)) (other_text "1") day) >>= was_set)

  -- `GetReadyDAGJobs` and `GetDependentJobs`.
  abbrev pub no_dag_jobs : M (List Job)
  no_dag_jobs = pure []

  -- `GetQueueLengths`.
  unfoldable pub get_queue_lengths : M (List (String × List (String × ℕ)))
  unfolding jobs_in lengths_of
  get_queue_lengths = do
    r ← send call (hvals job_store)
    es ← entries_of r
    pure (lengths_of (jobs_in es) [])

  -- `ArchiveOldJobs`.
  purge_fields : List String → M ℕ
  purge_fields [] = pure 0
  purge_fields (id ∷ ids) =
      exec call (hdel_all job_store (id ∷ ids) ∷ []) >> pure (length (id ∷ ids))

  unfoldable pub archive_old_jobs : ℕ → M ℕ
  unfolding purge_fields old_fields
  archive_old_jobs cutoff = do
    r ← send call (hgetall job_store)
    fs ← fields_of r
    purge_fields (old_fields cutoff fs)
