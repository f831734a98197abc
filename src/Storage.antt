-- ===== src/Storage.antt =====
-- internal/storage/models/models.go: the records of the jobs and of the clients in `InMemoryStore`. Each
-- method holds the store's lock, so it is one step; `now` is the clock's reading. A record is a value
-- here: `GetByIDs` and `SaveBatch` share a pointer with the caller, who is taken not to write through it.
pub mod Query
pub mod Dual
pub mod RedisStore
pub mod Records
use task_queue_system.Prelude.Int.{ℤ}
use task_queue_system.Prelude.{
  ℕ, zero, suc, ◌+◌, ◌-◌, ◌*◌, ◌/◌, ◌%◌, ◌^◌, ◌≤◌, ◌<◌, ◌≡◌, refl, sym, ap, ◌∙◌, ◌≢◌, ◌↔◌, ◌⊎◌, inl,
  inr, ite, if_pos, if_neg, Bool, true, false, not, ◌&&◌, ◌||◌, Option, none, some, List, [], ◌∷◌,
  ◌++◌, map, arith, dec_lt, dec_le, ℕ_discrete, String_discrete, String, ltb, leb, ◌==◌,
  if◌then◌else◌, length, Bool-cases, Option-cases, if-intro,
}
use task_queue_system.Prelude.Map.{lookup, insert, erase, retain}
use task_queue_system.Jobs.Types.{
  Job, JobStatus, JobStatus_discrete, pending, processing, failed, completed, Value, Float,
}

-- `ErrJobNotFound`, `ErrClientNotFound` and the errors without a name.
pub data StoreError : Type 0 where
  job_not_found client_not_found nil_job not_implemented : StoreError

-- `JobFilter`; a zero time is 0, an empty text sets no condition.
pub record JobFilter : Type 0 where
  pub tenant_id : String
  pub status : String
  pub type : String
  pub search_query : String
  pub label_key : String
  pub label_value : String
  pub created_after : ℕ
  pub created_before : ℕ
  pub limit : ℤ
  pub offset : ℤ

pub record ClientRecord : Type 0 where
  pub tenant_id : String
  pub created_at : ℕ

-- `InMemoryStore`: jobs by identifier, tenants by the hash of their key.
pub record InMemoryStore : Type 0 where
  pub data_ : List (String × Job)
  pub clients : List (String × String)

unfoldable pub new_in_memory_store : InMemoryStore
new_in_memory_store = record { data_ = []; clients = [] }

abbrev pub Answer : Type 0 → Type 0
Answer A = (StoreError ⊎ A) × InMemoryStore

abbrev pub stored : String → InMemoryStore → Option Job
stored id s = lookup String_discrete id s.data_

abbrev pub put_job : Job → InMemoryStore → InMemoryStore
put_job j s = record s { data_ = insert String_discrete j.id j s.data_ }

-- `SaveBatch` and `Save`.
unfoldable pub save_batch : List Job → InMemoryStore → InMemoryStore
save_batch [] s = s
save_batch (j ∷ js) s = save_batch js (put_job j s)

unfoldable pub save : Option Job → InMemoryStore → Answer (Unit {0})
save none s = (inl nil_job, s)
save (some j) s = (inr tt, put_job j s)

abbrev found_or : Option Job → StoreError ⊎ Job
found_or none = inl job_not_found
found_or (some j) = inr j

-- `GetByID` and `GetByIDs`.
unfoldable pub get_by_id : String → InMemoryStore → StoreError ⊎ Job
get_by_id id s = found_or (stored id s)

abbrev with_found : Option Job → List Job → List Job
with_found none js = js
with_found (some j) js = j ∷ js

unfoldable pub get_by_ids : List String → InMemoryStore → List Job
get_by_ids [] s = []
get_by_ids (id ∷ ids) s = with_found (stored id s) (get_by_ids ids s)

-- The body of the three updates: the record under an identifier is changed in place.
pub change_found : String → (Job → Job) → Option Job → InMemoryStore → Answer (Unit {0})
change_found id f none s = (inl job_not_found, s)
change_found id f (some j) s =
    (inr tt, record s { data_ = insert String_discrete id (f j) s.data_ })

-- `UpdateStatus`, `UpdateProgress` and `UpdateResult`.
unfoldable pub update_status : String → JobStatus → String → InMemoryStore → Answer (Unit {0})
unfolding change_found
update_status id status worker s =
    change_found id (λ j. record j { status = status; processed_by = worker }) (stored id s) s

unfoldable pub update_progress : ℕ → String → Float → InMemoryStore → Answer (Unit {0})
unfolding change_found
update_progress now id progress s =
    change_found id (λ j. record j { progress = progress; updated_at = now }) (stored id s) s

unfoldable pub update_result :
    ℕ → String → JobStatus → String → Value → InMemoryStore → Answer (Unit {0})
unfolding change_found
update_result now id status worker result s =
    change_found id
      (λ j. record j { status = status; processed_by = worker; result = result; updated_at = now })
      (stored id s) s

-- `Enqueue`, `Dequeue`, `Heartbeat`, `Complete` and `Fail`.
abbrev pub enqueue : Option Job → InMemoryStore → Answer (Unit {0})
enqueue = save

abbrev pub dequeue : InMemoryStore → Answer Job
dequeue s = (inl not_implemented, s)

abbrev pub heartbeat : String → InMemoryStore → Answer (Unit {0})
heartbeat id s = (inr tt, s)

unfoldable pub complete : ℕ → String → Value → InMemoryStore → Answer (Unit {0})
unfolding update_result
complete now id result s = update_result now id completed "" result s

unfoldable pub fail : ℕ → String → String → Bool → InMemoryStore → Answer (Unit {0})
unfolding update_result
fail now id reason requeue s =
    update_result now id (if requeue then pending else failed) "" (Value.text reason) s

-- `RecoverOrphans`: `timeout` before `now`.
abbrev pub is_orphan : (now timeout : ℕ) → Job → Bool
is_orphan now timeout j =
    ite (JobStatus_discrete j.status processing) (ltb (j.updated_at + timeout) now) false

abbrev pub recovered : (now timeout : ℕ) → Job → Job
recovered now timeout j =
    if is_orphan now timeout j then record j { status = pending; processed_by = "" } else j

pub recover_all : (now timeout : ℕ) → List (String × Job) → ℕ × List (String × Job)
recover_all now timeout [] = (0, [])
recover_all now timeout ((id, j) ∷ m) =
    let (n, rest) = recover_all now timeout m in
    (if is_orphan now timeout j then n + 1 else n, (id, recovered now timeout j) ∷ rest)

unfoldable pub recover_orphans : (now timeout : ℕ) → InMemoryStore → ℕ × InMemoryStore
unfolding recover_all
recover_orphans now timeout s =
    let (n, m) = recover_all now timeout s.data_ in (n, record s { data_ = m })

-- `DeleteJob`.
unfoldable pub delete_job : String → InMemoryStore → InMemoryStore
delete_job id s = record s { data_ = erase String_discrete id s.data_ }

-- `RegisterClient`, `VerifyClient`, `ListClients` and `RevokeClient`.
unfoldable pub register_client : (tenant hash : String) → InMemoryStore → InMemoryStore
register_client tenant hash s = record s { clients = insert String_discrete hash tenant s.clients }

abbrev client_or : Option String → StoreError ⊎ String
client_or none = inl client_not_found
client_or (some t) = inr t

unfoldable pub verify_client : String → InMemoryStore → StoreError ⊎ String
verify_client hash s = client_or (lookup String_discrete hash s.clients)

unfoldable pub has_tenant : String → List ClientRecord → Bool
has_tenant t [] = false
has_tenant t (c ∷ cs) = let rest = has_tenant t cs in ite (String_discrete c.tenant_id t) true rest

add_tenants : ℕ → List (String × String) → List ClientRecord → List ClientRecord
add_tenants now [] out = out
add_tenants now ((hash, t) ∷ m) out =
    add_tenants now m
      (if has_tenant t out then out else out ++ record { tenant_id = t; created_at = now } ∷ [])

unfoldable pub list_clients : ℕ → InMemoryStore → List ClientRecord
unfolding add_tenants has_tenant
list_clients now s = add_tenants now s.clients []

abbrev pub is_of_other : String → String → String → Bool
is_of_other tenant hash t = ite (String_discrete t tenant) false true

unfoldable pub revoke_client : String → InMemoryStore → InMemoryStore
revoke_client tenant s = record s {
  clients = retain String_discrete (is_of_other tenant) s.clients;
}
