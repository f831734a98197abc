-- ===== src/Queue/Settle/Buried.antt =====
-- `Fail`: the job moves from processing to the dead-letter list, or is lost between the two.
use task_queue_system.Redis.Sorted.{score}
use task_queue_system.Prelude.{
  take, ℕ, ◌≡◌, refl, ◌≢◌, if_neg, Option, none, some, List, [], ◌∷◌, String_discrete, String,
}
use task_queue_system.Prelude.Map.{lookup}
use task_queue_system.Jobs.Types.{Job, Value, failed}
use task_queue_system.Redis.Data.{Store, Key, dead_letter, in_flight, payloads, ident, job_json}
use task_queue_system.Redis.Commands.{perform, Reply}
use task_queue_system.Redis.Client.{
  empty_id, fail_with, Fault, Call, Documented, by_document, Server, ok, err, io_failed, delivered,
  request_lost, send, exec,
}
use task_queue_system.Queue.Settle.{fail, fail_found, release, bury}
use task_queue_system.Queue.Settle.Released.{Forgotten, release-Forgotten}

-- The reason as it is kept with the job: under `_error_reason` of its payload, if there is one.
abbrev KeepsReason : Option String → Job → Job → Type 0
KeepsReason none j d = d.payload ≡ j.payload
KeepsReason (some r) j d =
    (p : List (String × Value)) × (d.payload ≡ some p)
    × (lookup String_discrete "_error_reason" p ≡ some (Value.text r))

-- The job `d` is `j`, failed at `now`.
pub record IsFailed (now : ℕ) (reason : Option String) (j d : Job) : Type 0 where
  pub status : d.status ≡ failed
  pub updated : d.updated_at ≡ now
  pub reason_kept : KeepsReason reason j d
  pub rest : (record d { status = j.status; updated_at = j.updated_at; payload = j.payload }) ≡ j

-- The job of the identifier has left processing, and it lies, failed, at the head of the dead-letter
-- list, which keeps no more than the latest 10000; no other list has changed.
pub record Buried (now : ℕ) (id : String) (reason : Option String) (j : Job) (s t : Server)
    : Type 0 where
  pub held : lookup String_discrete id (s.store.hashes payloads) ≡ some (job_json j)
  pub dropped : lookup String_discrete id (t.store.hashes payloads) ≡ none
  pub untimed : score (ident id) (t.store.zsets in_flight) ≡ none
  pub dead :
      (d : Job) × IsFailed now reason j d
      × (t.store.lists dead_letter ≡ take 10000 (job_json d ∷ s.store.lists dead_letter))
  pub others : (k : Key) → dead_letter ≢ k → t.store.lists k ≡ s.store.lists k

release-delivered :
    (id : String) (d : Store) (fs : List Fault)
    → (rs : List Reply) × (u : Store) × (release perform id
          (record { store = d; faults = delivered ∷ delivered ∷ delivered ∷ fs })
        ≡ (ok rs, record { store = u; faults = fs }))
unfolding release send exec perform
release-delivered id d fs = (_, _, refl)

bury-lost :
    (now : ℕ) (reason : Option String) (j : Job) (d : Store)
    → bury perform now reason j (record { store = d; faults = request_lost ∷ [] })
      ≡ (err io_failed, record { store = d; faults = [] })
unfolding bury exec
bury-lost now reason j d = refl

fail_found-lost :
    (now : ℕ) (id : String) (reason : Option String) (j : Job) (d : Store)
    → lookup String_discrete id (d.hashes payloads) ≡ some (job_json j)
    → let s : Server = record {
      store = d;
      faults = delivered ∷ delivered ∷ delivered ∷ delivered ∷ request_lost ∷ [];
    } in
      let (r, t) = fail_found perform now id reason s in (r ≡ err io_failed) × Forgotten id s t
unfolding fail_found send perform
fail_found-lost now id reason j d held =
    let (rs, u, e) = release-delivered id d (request_lost ∷ []) in
    let f = (release-Forgotten id rs _ _ e).0 in
    rw (held, e, bury-lost now reason j u)
      (refl, record { dropped = f.dropped; untimed = f.untimed; lists = f.lists })

fail-loses_performed :
    (now : ℕ) (id : String) (reason : Option String) (j : Job) (d : Store)
    → id ≢ ""
    → lookup String_discrete id (d.hashes payloads) ≡ some (job_json j)
    → let s : Server = record {
      store = d;
      faults = delivered ∷ delivered ∷ delivered ∷ delivered ∷ request_lost ∷ [];
    } in
      let (r, t) = fail perform now id reason s in (r ≡ err io_failed) × Forgotten id s t
unfolding fail
fail-loses_performed now id reason j d ne held =
    rw (if_neg (String_discrete id "") ne (fail_with empty_id) (fail_found perform now id reason))
      (fail_found-lost now id reason j d held)

-- If the second pipeline of `Fail` does not reach the server, the error comes after the job has left
-- processing, and no list holds it that did not hold it before: the job is lost.
pub fail-loses :
    (call : Call) (now : ℕ) (id : String) (reason : Option String) (j : Job) (d : Store)
    → Documented call
    → id ≢ ""
    → lookup String_discrete id (d.hashes payloads) ≡ some (job_json j)
    → let s : Server = record {
      store = d;
      faults = delivered ∷ delivered ∷ delivered ∷ delivered ∷ request_lost ∷ [];
    } in
      let (r, t) = fail call now id reason s in (r ≡ err io_failed) × Forgotten id s t
fail-loses call now id reason j d doc ne held =
    by_document
      (λ c.
        let s : Server = record {
          store = d;
          faults = delivered ∷ delivered ∷ delivered ∷ delivered ∷ request_lost ∷ [];
        } in
        let (r, t) = fail c now id reason s in (r ≡ err io_failed) × Forgotten id s t)
      doc (fail-loses_performed now id reason j d ne held)
