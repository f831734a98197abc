-- ===== src/Storage/RedisStore/Readback.antt =====
-- What is read back from `RedisStore` after a write: records, duplicate keys and clients.
use task_queue_system.Prelude.Map.{lookup-insert}
use task_queue_system.Redis.Data.{dedup, job_text, job_store, job_json, Store}
use task_queue_system.Redis.Commands.{string_at, set_key, Command, perform}
use task_queue_system.Jobs.Types.{Job}
use task_queue_system.Redis.Client.{
  exec, by_document, ok, Documented, Server, perform_all, send, Call,
}
use task_queue_system.Storage.RedisStore.{
  tenant_and_key, send_batch, batch_commands, get_by_id, save, save_batch, is_dedup_key_taken,
  put_record,
}
use task_queue_system.Prelude.{
  ◌≡◌, refl, ◌≢◌, inl, inr, true, false, none, some, List, [], ◌∷◌, arith, String_discrete, String,
  Option-cases,
}
use task_queue_system.Jobs.Types.{is_number}

save-get_performed :
    (j : Job) (id : String) (s : Server)
    → s.faults ≡ []
    → is_number j.progress ≡ true
    → let t = (save perform j s).1 in
      ((get_by_id perform j.id t).0 ≡ ok j)
      × (j.id ≢ id → (get_by_id perform id t).0 ≡ (get_by_id perform id s).0)
unfolding save put_record get_by_id send perform
save-get_performed j id s f e = (
  ground (arith, lookup-insert String_discrete j.id j.id (job_json j) (s.store.hashes job_store)),
  λ ne.
      ground (arith, lookup-insert String_discrete j.id id (job_json j) (s.store.hashes job_store)),
)

-- With a documented server, and while every request is delivered: a job that can be encoded is read back
-- from `RedisStore` as it was saved, and under another identifier the answer is as before.
get_by_id-save :
    (call : Call) (j : Job) (id : String) (s : Server)
    → Documented call
    → s.faults ≡ []
    → is_number j.progress ≡ true
    → let t = (save call j s).1 in
      ((get_by_id call j.id t).0 ≡ ok j)
      × (j.id ≢ id → (get_by_id call id t).0 ≡ (get_by_id call id s).0)
get_by_id-save call j id s doc f e =
    by_document
      (λ c.
        let t = (save c j s).1 in
        ((get_by_id c j.id t).0 ≡ ok j) × (j.id ≢ id → (get_by_id c id t).0 ≡ (get_by_id c id s).0))
      doc (save-get_performed j id s f e)

-- The commands of a batch leave the hashes.
perform_all-batch_commands :
    (js : List Job) (cs : List Command) (d : Store)
    → batch_commands js ≡ some cs
    → (perform_all perform cs d).1.hashes ≡ d.hashes
unfolding batch_commands perform_all perform
perform_all-batch_commands [] [] d e = refl
perform_all-batch_commands [] (c ∷ cs) d e = cc
perform_all-batch_commands (j ∷ js) [] d e = ground arith
perform_all-batch_commands (j ∷ js) (c ∷ cs) d e =
    ground
      (arith, perform_all-batch_commands js cs (perform (set_key (job_text j.id) (job_json j)) d).1)

save_batch_performed :
    (js : List Job) (id : String) (s : Server)
    → s.faults ≡ []
    → (get_by_id perform id (save_batch perform js s).1).0 ≡ (get_by_id perform id s).0
unfolding save_batch send_batch get_by_id exec send perform
save_batch_performed [] id s f = refl
save_batch_performed (j ∷ js) id s f = elim (Option-cases (batch_commands (j ∷ js))) [
  | inl e ↦ rw e refl
  | inr (cs, e) ↦ ground (arith, e, perform_all-batch_commands (j ∷ js) cs s.store e)
]

-- `SaveBatch` of `RedisStore` writes keys that `GetByID` does not read: with a documented server, and while
-- every request is delivered, `GetByID` answers after any batch what it answered before, for every
-- identifier, those of the batch included.
get_by_id-save_batch :
    (call : Call) (js : List Job) (id : String) (s : Server)
    → Documented call
    → s.faults ≡ []
    → (get_by_id call id (save_batch call js s).1).0 ≡ (get_by_id call id s).0
get_by_id-save_batch call js id s doc f =
    by_document (λ c. (get_by_id c id (save_batch c js s).1).0 ≡ (get_by_id c id s).0) doc
      (save_batch_performed js id s f)

-- The first question about a duplicate key, and the second.
abbrev FirstTaken : (key tenant : String) → Server → Call → Type 0
FirstTaken key tenant s c =
    let (r, t) = is_dedup_key_taken c key tenant s in
    (r ≡ ok true) × ((is_dedup_key_taken c key tenant t).0 ≡ ok false)

is_dedup_key_taken_performed :
    (key tenant : String) (s : Server)
    → key ≢ ""
    → s.faults ≡ []
    → string_at s.store (dedup (tenant_and_key tenant key)) ≡ none
    → FirstTaken key tenant s perform
unfolding is_dedup_key_taken send perform
is_dedup_key_taken_performed key tenant s ne f e = (ground arith, ground arith)

-- `IsDedupKeyTaken` of `RedisStore` answers the opposite of its name: with a documented server, and while
-- every request is delivered, a key that is not empty and that nobody has used is reported as taken, and
-- when it is asked for again at that moment it is reported as free.
is_dedup_key_taken-inverted :
    (call : Call) (key tenant : String) (s : Server)
    → Documented call
    → key ≢ ""
    → s.faults ≡ []
    → string_at s.store (dedup (tenant_and_key tenant key)) ≡ none
    → let (r, t) = is_dedup_key_taken call key tenant s in
      (r ≡ ok true) × ((is_dedup_key_taken call key tenant t).0 ≡ ok false)
is_dedup_key_taken-inverted call key tenant s doc ne f e =
    by_document (FirstTaken key tenant s) doc (is_dedup_key_taken_performed key tenant s ne f e)
