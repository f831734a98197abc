-- ===== src/Storage/RedisStore/Refines.antt =====
-- `RedisStore` does to its hash what `InMemoryStore` does to its map.
use task_queue_system.Storage
use task_queue_system.Storage.RedisStore.{
  get_by_id, save, update_progress, update_result, complete, fail, delete_job, change,
}
use task_queue_system.Redis.Commands.{put_hash, perform}
use task_queue_system.Prelude.Map.{lookup-erase, lookup-insert}
use task_queue_system.Storage.RedisStore.{job_store, job_json, Entry, put_record}
use task_queue_system.Storage.{
  ℤ, job_not_found, change_found, stored, insert, lookup, StoreError, InMemoryStore, Answer,
}
use task_queue_system.Redis.Client.{
  by_document, Documented, Call, not_found, ok, err, send, Server, Result,
}
use task_queue_system.Jobs.Types.{millionths, Value, JobStatus, Job}
use task_queue_system.Prelude.{
  ℕ, ◌≡◌, refl, ap, ◌∙◌, ◌⊎◌, inl, inr, Bool, true, Option, none, some, [], arith, String_discrete,
  String, Option-cases,
}
use task_queue_system.Jobs.Types.{is_number}

abbrev pub as_entry : Option Job → Option Entry
as_entry none = none
as_entry (some j) = some (job_json j)

-- The hash holds the records of the map, and each can be encoded; every request is delivered.
pub record Represents (s : Server) (m : InMemoryStore) : Type 0 where
  pub delivers : s.faults ≡ []
  pub same :
      (id : String) → lookup String_discrete id (s.store.hashes job_store) ≡ as_entry (stored id m)
  pub encodable : (id : String) (j : Job) → stored id m ≡ some j → is_number j.progress ≡ true

abbrev pub SameAnswer : Result (Unit {0}) → StoreError ⊎ (Unit {0}) → Type 0
SameAnswer (ok a) (inr b) = Unit
SameAnswer (err e) (inl f) = (e ≡ not_found) × (f ≡ job_not_found)
SameAnswer _ _ = ⊥

-- The two methods answer alike, and the hash holds the new map's records.
pub record Refines (a : Result (Unit {0}) × Server) (b : Answer (Unit {0})) : Type 0 where
  pub answers : SameAnswer a.0 b.0
  pub represents : Represents a.1 b.1

abbrev with_record : String → Job → Server → Server
with_record id j s = record {
  store =
      put_hash s.store job_store
        (insert String_discrete id (job_json j) (s.store.hashes job_store));
  faults = [];
}

put_record-ok :
    (id : String) (j : Job) (s : Server)
    → s.faults ≡ []
    → is_number j.progress ≡ true
    → put_record perform id j s ≡ (ok tt, with_record id j s)
unfolding put_record send perform
put_record-ok id j s f e = ground arith

get_by_id-none :
    (id : String) (s : Server)
    → s.faults ≡ []
    → lookup String_discrete id (s.store.hashes job_store) ≡ none
    → get_by_id perform id s ≡ (err not_found, record { store = s.store; faults = [] })
unfolding get_by_id send perform
get_by_id-none id s f e = ground arith

pub get_by_id-some :
    (id : String) (j : Job) (s : Server)
    → s.faults ≡ []
    → lookup String_discrete id (s.store.hashes job_store) ≡ some (job_json j)
    → get_by_id perform id s ≡ (ok j, record { store = s.store; faults = [] })
unfolding get_by_id send perform
get_by_id-some id j s f e = ground arith

with_record-Represents :
    (id : String) (j : Job) (s : Server) (m : InMemoryStore)
    → is_number j.progress ≡ true
    → Represents s m
    → Represents (with_record id j s) (record m { data_ = insert String_discrete id j m.data_ })
with_record-Represents id j s m e r = record {
  delivers = refl;
  same = λ i. ground (
    arith,
    lookup-insert String_discrete id i (job_json j) (s.store.hashes job_store),
    lookup-insert String_discrete id i j m.data_,
    r.same i,
  );
  encodable =
      λ i k h. ground (arith, lookup-insert String_discrete id i j m.data_, r.encodable i k);
}

save_performed :
    (j : Job) (s : Server) (m : InMemoryStore)
    → is_number j.progress ≡ true
    → Represents s m
    → Refines (save perform j s) (Storage.save (some j) m)
unfolding save Storage.save
save_performed j s m e r =
    rw (put_record-ok j.id j s r.delivers e)
      (record { answers = tt; represents = with_record-Represents j.id j s m e r })

change_performed :
    (id : String) (f : Job → Job) (s : Server) (m : InMemoryStore)
    → ((j : Job) → stored id m ≡ some j → is_number (f j).progress ≡ true)
    → Represents s m
    → Refines (change perform id f s) (change_found id f (stored id m) m)
unfolding change change_found
change_performed id f s m keeps r = elim (Option-cases (stored id m)) [
  | inl e ↦
      rw (e, get_by_id-none id s r.delivers (r.same id ∙ ap as_entry e))
        (record {
          answers = (refl, refl);
          represents = record { delivers = refl; same = r.same; encodable = r.encodable };
        })
  | inr (j, e) ↦
      rw
        (
          e,
          get_by_id-some id j s r.delivers (r.same id ∙ ap as_entry e),
          put_record-ok id (f j) (record { store = s.store; faults = [] }) refl (keeps j e),
        )
        (record { answers = tt; represents = with_record-Represents id (f j) s m (keeps j e) r })
]

delete_job_performed :
    (id : String) (s : Server) (m : InMemoryStore)
    → Represents s m
    → Refines (delete_job perform id s) (inr tt, Storage.delete_job id m)
unfolding delete_job Storage.delete_job send perform
delete_job_performed id s m r = rw (r.delivers) (record {
  answers = tt;
  represents = record {
    delivers = refl;
    same = λ i. ground (
      arith,
      lookup-erase String_discrete id i (s.store.hashes job_store),
      lookup-erase String_discrete id i m.data_,
      r.same i,
    );
    encodable = λ i k h. ground (arith, lookup-erase String_discrete id i m.data_, r.encodable i k);
  };
})

-- With a documented server, while every request is delivered and the hash holds the records of the map:
-- `Save` of a job that can be encoded, `UpdateProgress` with a number, `UpdateResult`, `Complete`, `Fail`
-- and `DeleteJob` of `RedisStore` answer as those of `InMemoryStore` do, and the hash holds the records of
-- the map that those leave.
pub writes-Refine :
    (call : Call) (j : Job) (now : ℕ) (id worker reason : String) (status : JobStatus) (n : ℤ)
    (result : Value) (requeue : Bool) (s : Server) (m : InMemoryStore)
    → Documented call
    → is_number j.progress ≡ true
    → Represents s m
    → Refines (save call j s) (Storage.save (some j) m)
      × Refines
          (update_progress call now id (millionths n) s)
          (Storage.update_progress now id (millionths n) m)
      × Refines
          (update_result call now id status worker result s)
          (Storage.update_result now id status worker result m)
      × Refines (complete call now id result s) (Storage.complete now id result m)
      × Refines (fail call now id reason requeue s) (Storage.fail now id reason requeue m)
      × Refines (delete_job call id s) (inr tt, Storage.delete_job id m)
unfolding update_progress update_result complete fail Storage.update_progress Storage.update_result
    Storage.complete Storage.fail
writes-Refine call j now id worker reason status n result requeue s m doc e r =
    by_document
      (λ c.
        Refines (save c j s) (Storage.save (some j) m)
        × Refines (update_progress c now id (millionths n) s)
            (Storage.update_progress now id (millionths n) m)
        × Refines (update_result c now id status worker result s)
            (Storage.update_result now id status worker result m)
        × Refines (complete c now id result s) (Storage.complete now id result m)
        × Refines (fail c now id reason requeue s) (Storage.fail now id reason requeue m)
        × Refines (delete_job c id s) (inr tt, Storage.delete_job id m))
      doc
      (
        save_performed j s m e r,
        change_performed id _ s m (λ k h. refl) r,
        change_performed id _ s m (λ k h. r.encodable id k h) r,
        change_performed id _ s m (λ k h. r.encodable id k h) r,
        change_performed id _ s m (λ k h. r.encodable id k h) r,
        delete_job_performed id s m r,
      )
