-- ===== src/Storage/Query.antt =====
-- internal/storage/models/models.go: the queries of `InMemoryStore`, and the deletion of many jobs. A map
-- is read in the order of the association list, which Go leaves open.
pub mod Matching
pub mod Paging
pub mod Order
pub mod Counts
use task_queue_system.Prelude.Int.{ℤ, pos, negsuc}
use task_queue_system.Prelude.{
  drop, take, ℕ, zero, suc, ◌+◌, ◌-◌, ◌*◌, ◌/◌, ◌%◌, ◌^◌, ◌≤◌, ◌<◌, ◌≡◌, refl, sym, ap, ◌∙◌, ◌≢◌,
  ◌↔◌, ◌⊎◌, inl, inr, ite, if_pos, if_neg, Bool, true, false, not, ◌&&◌, ◌||◌, Option, none, some,
  List, [], ◌∷◌, ◌++◌, map, arith, dec_lt, dec_le, ℕ_discrete, String_discrete, String, ltb, leb,
  ◌==◌, if◌then◌else◌, length, Bool-cases, Option-cases, if-intro,
}
use task_queue_system.Prelude.Map.{lookup, insert, retain}
use task_queue_system.Jobs.Types.{
  Job, JobStatus, JobStatus_discrete, pending, processing, failed, completed, cancelled, recurring,
}
use task_queue_system.Storage.{InMemoryStore, JobFilter}

-- `string(j.Status)`.
abbrev pub status_text : JobStatus → String
status_text pending = "pending"
status_text processing = "processing"
status_text completed = "completed"
status_text failed = "failed"
status_text cancelled = "cancelled"
status_text recurring = "recurring"

-- `x == "" || y == x`.
abbrev pub accepts : String → String → Bool
accepts wanted actual =
    ite (String_discrete wanted "") true (ite (String_discrete actual wanted) true false)

abbrev label_value_is : String → Option String → Bool
label_value_is wanted none = false
label_value_is wanted (some v) = accepts wanted v

abbrev label_is : String → String → List (String × String) → Bool
label_is key wanted labels =
    ite (String_discrete key "") true (label_value_is wanted (lookup String_discrete key labels))

-- The tests of `SearchJobs` and `CountJobs`, none of which fails.
unfoldable pub selects : JobFilter → Job → Bool
selects f j =
    accepts f.tenant_id j.tenant_id
    && accepts f.status (status_text j.status)
    && accepts f.type j.type
    && label_is f.label_key f.label_value j.labels
    && (f.created_after == 0 || leb f.created_after j.created_at)
    && (f.created_before == 0 || leb j.created_at f.created_before)

unfoldable pub keep : (Job → Bool) → List (String × Job) → List Job
keep p [] = []
keep p ((id, j) ∷ m) = let rest = keep p m in if p j then j ∷ rest else rest

-- `sort.Slice` by `CreatedAt`, newest first.
unfoldable pub place : Job → List Job → List Job
place j [] = j ∷ []
place j (k ∷ ks) =
    let rest = place j ks in if ltb j.created_at k.created_at then k ∷ rest else j ∷ k ∷ ks

unfoldable pub newest_first : List Job → List Job
unfolding place
newest_first [] = []
newest_first (j ∷ js) = place j (newest_first js)

abbrev pub or_zero : ℤ → ℕ
or_zero (pos n) = n
or_zero (negsuc n) = 0

abbrev pub limit_or : ℤ → ℕ → ℕ
limit_or (pos n) d = if ltb 0 n then n else d
limit_or (negsuc n) d = d

-- `results[offset:end]`, where `end` is at most the length.
abbrev pub page : (offset limit : ℕ) → List Job → List Job
page offset limit js = if leb (length js) offset then [] else take limit (drop offset js)

unfoldable pub list_matches : (tenant status type : String) → Job → Bool
list_matches tenant status type j =
    accepts tenant j.tenant_id && accepts status (status_text j.status) && accepts type j.type

-- `ListJobs`: without a positive limit, all from the offset on.
unfoldable pub list_jobs :
    (tenant status type : String) (limit offset : ℤ) → InMemoryStore → List Job
unfolding keep newest_first list_matches
list_jobs tenant status type limit offset s =
    let js = newest_first (keep (list_matches tenant status type) s.data_) in
    page (or_zero offset) (limit_or limit (length js)) js

-- `SearchJobs`: without a positive limit, 20.
unfoldable pub search_jobs : JobFilter → InMemoryStore → List Job
unfolding keep newest_first selects
search_jobs f s =
    page (or_zero f.offset) (limit_or f.limit 20) (newest_first (keep (selects f) s.data_))

-- `CountJobs`.
unfoldable pub count_all : (Job → Bool) → List (String × Job) → ℕ
count_all p [] = 0
count_all p ((id, j) ∷ m) = let n = count_all p m in if p j then n + 1 else n

unfoldable pub count_jobs : JobFilter → InMemoryStore → ℕ
unfolding count_all selects
count_jobs f s = count_all (selects f) s.data_

abbrev pub worker_and_status : String → JobStatus → Job → Bool
worker_and_status worker status j =
    ite (String_discrete j.processed_by worker)
      (ite (JobStatus_discrete j.status status) true false) false

-- `GetByWorkerAndStatus`.
unfoldable pub get_by_worker_and_status : String → JobStatus → InMemoryStore → List Job
unfolding keep
get_by_worker_and_status worker status s = keep (worker_and_status worker status) s.data_

abbrev pub survives : (tenant status type : String) (before : ℕ) → String → Job → Bool
survives tenant status type before id j =
    not (list_matches tenant status type j && ltb j.created_at before)

-- `DeleteJobsBefore`.
unfoldable pub delete_jobs_before :
    (tenant status type : String) (before : ℕ) → InMemoryStore → ℕ × InMemoryStore
unfolding count_all list_matches
delete_jobs_before tenant status type before s = (
  count_all (λ j. list_matches tenant status type j && ltb j.created_at before) s.data_,
  record s { data_ = retain String_discrete (survives tenant status type before) s.data_ },
)

abbrev pub is_final : JobStatus → Bool
is_final completed = true
is_final failed = true
is_final cancelled = true
is_final _ = false

abbrev pub is_old : ℕ → Job → Bool
is_old cutoff j = is_final j.status && ltb j.updated_at cutoff

-- `ArchiveOldJobs`.
unfoldable pub archive_old_jobs : ℕ → InMemoryStore → ℕ × InMemoryStore
unfolding count_all
archive_old_jobs cutoff s = (
  count_all (is_old cutoff) s.data_,
  record s { data_ = retain String_discrete (λ id j. not (is_old cutoff j)) s.data_ },
)

unfoldable pub any : (Job → Bool) → List (String × Job) → Bool
any p [] = false
any p ((id, j) ∷ m) = let rest = any p m in if p j then true else rest

abbrev pub has_dedup_key : (key tenant : String) → Job → Bool
has_dedup_key key tenant j =
    ite (String_discrete j.dedup_key key) (ite (String_discrete j.tenant_id tenant) true false)
      false

-- `IsDedupKeyTaken`.
unfoldable pub is_dedup_key_taken : (key tenant : String) → InMemoryStore → Bool
unfolding any
is_dedup_key_taken key tenant s =
    ite (String_discrete key "") false (any (has_dedup_key key tenant) s.data_)

-- `GetQueueLengths`: pending jobs by type and tenant.
abbrev pub or_empty : Option (List (String × ℕ)) → List (String × ℕ)
or_empty none = []
or_empty (some m) = m

abbrev pub or_none : Option ℕ → ℕ
or_none none = 0
or_none (some n) = n

abbrev pub length_at : (type tenant : String) → List (String × List (String × ℕ)) → ℕ
length_at type tenant m =
    or_none (lookup String_discrete tenant (or_empty (lookup String_discrete type m)))

abbrev pub count_one : Job → List (String × List (String × ℕ)) → List (String × List (String × ℕ))
count_one j m =
    insert String_discrete j.type
      (insert String_discrete j.tenant_id (length_at j.type j.tenant_id m + 1)
        (or_empty (lookup String_discrete j.type m)))
      m

unfoldable pub add_lengths :
    List (String × Job) → List (String × List (String × ℕ)) → List (String × List (String × ℕ))
add_lengths [] out = out
add_lengths ((id, j) ∷ m) out =
    add_lengths m (ite (JobStatus_discrete j.status pending) (count_one j out) out)

unfoldable pub get_queue_lengths : InMemoryStore → List (String × List (String × ℕ))
unfolding add_lengths
get_queue_lengths s = add_lengths s.data_ []
