-- ===== src/Storage/Records.antt =====
-- One record: what a save, an update, a recovery or a revocation changes, and what it leaves.
use task_queue_system.Prelude.{
  ◌≤◌, length, ℕ, ◌+◌, ◌<◌, ◌≡◌, refl, ap, ◌∙◌, ◌≢◌, inl, inr, if_neg, Bool, Option, none, some,
  List, [], ◌∷◌, arith, String_discrete, String, if◌then◌else◌,
}
use task_queue_system.Prelude.Map.{lookup, Unique, lookup-insert, lookup-retain}
use task_queue_system.Jobs.Types.{
  Job, JobStatus, pending, processing, failed, completed, Value, Float,
}
use task_queue_system.Storage.{
  is_orphan, InMemoryStore, job_not_found, client_not_found, Answer, stored, save, get_by_id,
  change_found, update_status, update_progress, update_result, complete, fail, recovered,
  recover_all, recover_orphans, revoke_client, verify_client, is_of_other,
}

-- A saved job is read back as it was, and every other record is as before.
get_by_id-save :
    (j : Job) (s : InMemoryStore)
    → (get_by_id j.id (save (some j) s).1 ≡ inr j)
      × ((id : String) → j.id ≢ id → get_by_id id (save (some j) s).1 ≡ get_by_id id s)
unfolding get_by_id save
get_by_id-save j s = (
  ground (arith, lookup-insert String_discrete j.id j.id j s.data_),
  λ id ne. ground (arith, lookup-insert String_discrete j.id id j s.data_),
)

-- The answer and the store after an update of one record by `f`: a missing record is an error that
-- changes nothing, and another record never changes.
pub record Changed (id : String) (f : Job → Job) (s : InMemoryStore) (a : Answer (Unit {0}))
    : Type 0 where
  pub missing : stored id s ≡ none → a ≡ (inl job_not_found, s)
  pub found : (j : Job) → stored id s ≡ some j → (a.0 ≡ inr tt) × (stored id a.1 ≡ some (f j))
  pub others : (i : String) → id ≢ i → stored i a.1 ≡ stored i s
  pub clients : a.1.clients ≡ s.clients

change_found-Changed :
    (id : String) (f : Job → Job) (s : InMemoryStore)
    → Changed id f s (change_found id f (stored id s) s)
unfolding change_found
change_found-Changed id f s = by_record (stored id s) refl
  where
    by_record : (o : Option Job) → stored id s ≡ o → Changed id f s (change_found id f o s)
    by_record none e = record {
      missing = λ h. refl;
      found = λ j h. cc;
      others = λ i ne. refl;
      clients = refl;
    }
    by_record (some j) e = record {
      missing = λ h. cc;
      found = λ k h. (refl, ground (arith, lookup-insert String_discrete id id (f j) s.data_));
      others = λ i ne.
          lookup-insert String_discrete id i (f j) s.data_ ∙ if_neg (String_discrete id i) ne _ _;
      clients = refl;
    }

-- `UpdateStatus` sets the status and the worker, `UpdateProgress` the progress and the time, and
-- `UpdateResult`, `Complete` and `Fail` the status, the worker, the result and the time, of the one
-- record named; each is an error without effect where there is none.
updates-Changed :
    (now : ℕ) (id worker reason : String) (status : JobStatus) (progress : Float) (result : Value)
    (requeue : Bool) (s : InMemoryStore)
    → Changed id
        (λ j. record j { status = status; processed_by = worker })
        s
        (update_status id status worker s)
      × Changed id
          (λ j. record j { progress = progress; updated_at = now })
          s
          (update_progress now id progress s)
      × Changed id
          (λ j. record j {
            status = status;
            processed_by = worker;
            result = result;
            updated_at = now;
          })
          s
          (update_result now id status worker result s)
      × Changed id
          (λ j. record j {
            status = completed;
            processed_by = "";
            result = result;
            updated_at = now;
          })
          s
          (complete now id result s)
      × Changed id
          (λ j. record j {
            status = if requeue then pending else failed;
            processed_by = "";
            result = Value.text reason;
            updated_at = now;
          })
          s
          (fail now id reason requeue s)
unfolding update_status update_progress update_result complete fail
updates-Changed now id worker reason status progress result requeue s = (
  change_found-Changed id _ s,
  change_found-Changed id _ s,
  change_found-Changed id _ s,
  change_found-Changed id _ s,
  change_found-Changed id _ s,
)

abbrev pub map_some : (Job → Job) → Option Job → Option Job
map_some f none = none
map_some f (some j) = some (f j)

lookup-recover_all :
    (now timeout : ℕ) (id : String) (m : List (String × Job))
    → lookup String_discrete id (recover_all now timeout m).1
      ≡ map_some (recovered now timeout) (lookup String_discrete id m)
unfolding recover_all lookup
lookup-recover_all now timeout id [] = refl
lookup-recover_all now timeout id ((i, j) ∷ m) = ground (arith, lookup-recover_all now timeout id m)

unfoldable pub orphans : (now timeout : ℕ) → List (String × Job) → List String
orphans now timeout [] = []
orphans now timeout ((id, j) ∷ m) =
    let rest = orphans now timeout m in if is_orphan now timeout j then id ∷ rest else rest

length-orphans :
    (now timeout : ℕ) (m : List (String × Job))
    → (recover_all now timeout m).0 ≡ length (orphans now timeout m)
unfolding recover_all orphans
length-orphans now timeout [] = refl
length-orphans now timeout ((id, j) ∷ m) = ground (arith, length-orphans now timeout m)

orphans-recover_all :
    (now later timeout : ℕ) (m : List (String × Job))
    → later ≤ now
    → orphans later timeout (recover_all now timeout m).1 ≡ []
unfolding recover_all orphans
orphans-recover_all now later timeout [] le = refl
orphans-recover_all now later timeout ((id, j) ∷ m) le =
    ground (arith, orphans-recover_all now later timeout m le)

-- `RecoverOrphans` makes every job in processing that was last changed before the timeout pending and
-- without a worker, changes nothing else, and returns their number; none of them is found again by a
-- recovery at that time or before.
recover_orphans_lem :
    (now timeout : ℕ) (s : InMemoryStore)
    → let (n, t) = recover_orphans now timeout s in
      ((id : String) → stored id t ≡ map_some (recovered now timeout) (stored id s))
      × (t.clients ≡ s.clients)
      × (n ≡ length (orphans now timeout s.data_))
      × ((later : ℕ) → later ≤ now → orphans later timeout t.data_ ≡ [])
unfolding recover_orphans
recover_orphans_lem now timeout s = (
  λ id. lookup-recover_all now timeout id s.data_,
  refl,
  length-orphans now timeout s.data_,
  λ later le. orphans-recover_all now later timeout s.data_ le,
)

-- `UpdateStatus` keeps the time of the last change, so a job that a worker marks as processing is taken
-- from it by the next recovery if its record is older than the timeout.
recover_orphans-update_status :
    (now timeout : ℕ) (id worker : String) (j : Job) (s : InMemoryStore)
    → stored id s ≡ some j
    → j.updated_at + timeout < now
    → let t = (recover_orphans now timeout (update_status id processing worker s).1).1 in
      stored id t ≡ some (record j { status = pending; processed_by = "" })
unfolding update_status
recover_orphans-update_status now timeout id worker j s e late =
    let j' : Job = record j { status = processing; processed_by = worker } in
    let s' = (update_status id processing worker s).1 in
    let marked : stored id s' ≡ some j' =
      ((change_found-Changed id (λ k. record k { status = processing; processed_by = worker })
          s).found
        j e).1 in
    let reset : recovered now timeout j' ≡ record j { status = pending; processed_by = "" } =
      ground arith in
    (recover_orphans_lem now timeout s').0 id
    ∙ ap (map_some (recovered now timeout)) marked
    ∙ ap some reset

-- After `RevokeClient` no key of the tenant is accepted, and every other key gives what it gave.
verify_client-revoke_client :
    (tenant hash : String) (s : InMemoryStore)
    → Unique String_discrete s.clients
    → (verify_client hash s ≡ inr tenant
        → verify_client hash (revoke_client tenant s) ≡ inl client_not_found)
      × (verify_client hash s ≢ inr tenant
          → verify_client hash (revoke_client tenant s) ≡ verify_client hash s)
unfolding verify_client revoke_client
verify_client-revoke_client tenant hash s u =
    let e = lookup-retain String_discrete (is_of_other tenant) hash s.clients u in
    (λ h. ground (arith, e), λ h. ground (arith, e))
