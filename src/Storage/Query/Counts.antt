-- ===== src/Storage/Query/Counts.antt =====
-- What the deletions of many jobs leave, the pending jobs by type and tenant, and the duplicates.
use task_queue_system.Prelude.{
  ℕ, ◌+◌, ◌≡◌, refl, ◌≢◌, ite, Bool, true, false, not, ◌&&◌, none, some, List, [], ◌∷◌, arith,
  String_discrete, String, ltb, length,
}
use task_queue_system.Prelude.Map.{
  lookup, insert, retain, keep_if, Unique, lookup-insert, lookup-retain,
}
use task_queue_system.Jobs.Types.{Job, JobStatus_discrete, pending}
use task_queue_system.Storage.{InMemoryStore, stored, save}
use task_queue_system.Storage.Query.{
  count_all, list_matches, is_old, delete_jobs_before, archive_old_jobs, any, has_dedup_key,
  is_dedup_key_taken, add_lengths, get_queue_lengths, length_at, or_empty, count_one,
}

count-retain :
    (p : Job → Bool) (m : List (String × Job))
    → count_all p m + length (retain String_discrete (λ id j. not (p j)) m) ≡ length m
unfolding count_all retain
count-retain p [] = refl
count-retain p ((id, j) ∷ m) = ground (arith, count-retain p m)

-- After a deletion of the jobs that pass a test.
pub record Purged (p : Job → Bool) (s : InMemoryStore) (n : ℕ) (t : InMemoryStore) : Type 0 where
  pub left :
      (id : String) → stored id t ≡ keep_if String_discrete (λ i j. not (p j)) id (stored id s)
  pub counted : n + length t.data_ ≡ length s.data_
  pub clients : t.clients ≡ s.clients

abbrev pub to_delete : (tenant status type : String) (before : ℕ) → Job → Bool
to_delete tenant status type before j = list_matches tenant status type j && ltb j.created_at before

-- In a store with one record to an identifier, `DeleteJobsBefore` deletes exactly the jobs that match its conditions and were created before the
-- given time, `ArchiveOldJobs` exactly the finished ones that were last changed before it; each
-- returns how many it deleted.
pub deletions-Purged :
    (tenant status type : String) (before : ℕ) (s : InMemoryStore)
    → Unique String_discrete s.data_
    → let (n, t) = delete_jobs_before tenant status type before s in
      let (m, u) = archive_old_jobs before s in
      Purged (to_delete tenant status type before) s n t × Purged (is_old before) s m u
unfolding delete_jobs_before archive_old_jobs
deletions-Purged tenant status type before s unique = (
  record {
    left = λ id. lookup-retain String_discrete _ id s.data_ unique;
    counted = count-retain (to_delete tenant status type before) s.data_;
    clients = refl;
  },
  record {
    left = λ id. lookup-retain String_discrete _ id s.data_ unique;
    counted = count-retain (is_old before) s.data_;
    clients = refl;
  },
)

abbrev pub is_pending_of : (type tenant : String) → Job → Bool
is_pending_of type tenant j =
    ite (JobStatus_discrete j.status pending)
      (ite (String_discrete j.type type) (ite (String_discrete j.tenant_id tenant) true false)
        false)
      false

length_at-count_one :
    (j : Job) (type tenant : String) (m : List (String × List (String × ℕ)))
    → length_at type tenant (count_one j m)
      ≡ ite
          (String_discrete j.type type)
          (ite
            (String_discrete j.tenant_id tenant)
            (length_at type tenant m + 1)
            (length_at type tenant m))
          (length_at type tenant m)
length_at-count_one j type tenant m =
    let inner = or_empty (lookup String_discrete j.type m) in
    let more = insert String_discrete j.tenant_id (length_at j.type j.tenant_id m + 1) inner in
    ground (
      arith,
      lookup-insert String_discrete j.type type more m,
      lookup-insert String_discrete j.tenant_id tenant (length_at j.type j.tenant_id m + 1) inner,
    )

length_at-add_lengths :
    (type tenant : String) (m : List (String × Job)) (out : List (String × List (String × ℕ)))
    → length_at type tenant (add_lengths m out)
      ≡ length_at type tenant out + count_all (is_pending_of type tenant) m
unfolding add_lengths count_all
length_at-add_lengths type tenant [] out = omega arith
length_at-add_lengths type tenant ((id, j) ∷ m) out = ground (
  arith,
  length_at-add_lengths type tenant m (count_one j out),
  length_at-add_lengths type tenant m out,
  length_at-count_one j type tenant out,
)

-- `GetQueueLengths` gives for every type and tenant the number of their pending jobs.
get_queue_lengths_lem :
    (type tenant : String) (s : InMemoryStore)
    → length_at type tenant (get_queue_lengths s) ≡ count_all (is_pending_of type tenant) s.data_
unfolding get_queue_lengths lookup
get_queue_lengths_lem type tenant s =
    let e = length_at-add_lengths type tenant s.data_ [] in
    let z : length_at type tenant [] ≡ 0 = refl in omega (arith, e, z)

any-insert :
    (p : Job → Bool) (id : String) (j : Job) (m : List (String × Job))
    → p j ≡ true
    → any p (insert String_discrete id j m) ≡ true
unfolding any insert
any-insert p id j [] h = ground arith
any-insert p id j ((i, k) ∷ m) h = ground (arith, any-insert p id j m h)

any-insert_elsewhere :
    (p : Job → Bool) (id : String) (j : Job) (m : List (String × Job))
    → lookup String_discrete id m ≡ none
    → p j ≡ false
    → any p (insert String_discrete id j m) ≡ any p m
unfolding any insert lookup
any-insert_elsewhere p id j [] e h = ground arith
any-insert_elsewhere p id j ((i, k) ∷ m) e h = ground (arith, any-insert_elsewhere p id j m)

-- A saved job takes its duplicate key, if it has one, for its tenant; a save under a new identifier
-- leaves every other key, and the key for every other tenant, as it was.
is_dedup_key_taken-save :
    (j : Job) (s : InMemoryStore)
    → (j.dedup_key ≢ "" → is_dedup_key_taken j.dedup_key j.tenant_id (save (some j) s).1 ≡ true)
      × ((key tenant : String)
          → stored j.id s ≡ none
          → has_dedup_key key tenant j ≡ false
          → is_dedup_key_taken key tenant (save (some j) s).1 ≡ is_dedup_key_taken key tenant s)
unfolding is_dedup_key_taken save
is_dedup_key_taken-save j s = (
  λ ne. ground (arith, any-insert (has_dedup_key j.dedup_key j.tenant_id) j.id j s.data_),
  λ key tenant new other.
      ground (arith, any-insert_elsewhere (has_dedup_key key tenant) j.id j s.data_ new other),
)
