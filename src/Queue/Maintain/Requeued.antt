-- ===== src/Queue/Maintain/Requeued.antt =====
-- One round of `reclaimTimedOutJobsScript`: a job is put back and forgotten.
use task_queue_system.Prelude.{
  ℕ, ◌≡◌, refl, ite, if_pos, Option, none, some, List, [], ◌∷◌, arith, String_discrete, String,
  if◌then◌else◌,
}
use mathlib.Core.List.{Mem, mem-cons_self, mem-cons_of_mem}
use task_queue_system.Prelude.Map.{lookup, erase, lookup-erase}
use task_queue_system.Jobs.Types.{Job}
use task_queue_system.Redis.Data.{Key, Key_discrete, payloads, Entry, Store, job_json}
use task_queue_system.Redis.Commands.{perform, set_has, hget, Reply, value, put_list}
use task_queue_system.Queue.Partition.{lua_partition_key}
use task_queue_system.Queue.Maintain.{requeue, forget, reclaim_loop, id_in}

unfoldable pub erase_all : List String → List (String × Entry) → List (String × Entry)
erase_all [] m = m
erase_all (id ∷ ids) m = erase_all ids (erase String_discrete id m)

pub lookup-erase_all :
    (i : String) (ids : List String) (m : List (String × Entry))
    → lookup String_discrete i (erase_all ids m)
      ≡ (if set_has i ids then none else lookup String_discrete i m)
unfolding erase_all set_has
lookup-erase_all i [] m = refl
lookup-erase_all i (id ∷ ids) m = ground (
  arith,
  lookup-erase_all i ids (erase String_discrete id m),
  lookup-erase String_discrete id i m,
)

-- Every list holds what it held.
abbrev pub Grown : Store → Store → Type 0
Grown d d' = (k : Key) (e : Entry) → Mem e (d.lists k) → Mem e (d'.lists k)

mem-put_list : (d : Store) (k : Key) (e : Entry) → Mem e ((put_list d k (e ∷ d.lists k)).lists k)
mem-put_list d k e = rw (if_pos (Key_discrete k k) refl (e ∷ d.lists k) (d.lists k)) mem-cons_self

put_list-Grown : (d : Store) (k : Key) (e : Entry) → Grown d (put_list d k (e ∷ d.lists k))
put_list-Grown d k e i x m =
    elim (Key_discrete k i) as (λ o. Mem x (ite o (e ∷ d.lists k) (d.lists i))) [
      | yes p ↦ mem-cons_of_mem e (rw p m)
      | no ne ↦ m
    ]

pub record Requeued (parts : ℕ) (id : String) (r : Reply) (d d1 : Store) : Type 0 where
  pub hashes : d1.hashes ≡ d.hashes
  pub zsets : d1.zsets ≡ d.zsets
  pub grown : Grown d d1
  pub back :
      (j : Job)
      → r ≡ value (job_json j)
      → Mem (job_json j) (d1.lists (lua_partition_key parts id j.priority))

requeue-Requeued :
    (parts : ℕ) (id : String) (r : Reply) (d d1 : Store)
    → requeue perform parts id r d ≡ some d1
    → Requeued parts id r d d1
unfolding requeue perform
requeue-Requeued parts id (value (job_json j)) d d1 h =
    let k = lua_partition_key parts id j.priority in
    let e : put_list d k (job_json j ∷ d.lists k) ≡ d1 = ground arith in
    rw (← e) (record {
      hashes = refl;
      zsets = refl;
      grown = put_list-Grown d k (job_json j);
      back = λ j' same. let p : j ≡ j' = ground arith in rw (← p) (mem-put_list d k (job_json j));
    })
requeue-Requeued parts id (value _) d d1 h = cc
requeue-Requeued parts id _ d d1 h =
    let e : d ≡ d1 = ground arith in
    rw (← e) (record { hashes = refl; zsets = refl; grown = λ k x m. m; back = λ j same. cc })

-- One round of the loop.
pub reclaim_loop-step :
    (parts : ℕ) (e : Entry) (es : List Entry) (d d' : Store)
    → reclaim_loop perform parts (e ∷ es) d ≡ (some tt, d')
    → (d1 : Store) × Requeued parts (id_in e) (perform (hget payloads (id_in e)) d).0 d d1
      × (reclaim_loop perform parts es (forget perform parts (id_in e) d1) ≡ (some tt, d'))
unfolding reclaim_loop
reclaim_loop-step parts e es d d' h = by_requeue (requeue perform parts (id_in e) r d) refl h
  where
    r : Reply
    r = (perform (hget payloads (id_in e)) d).0

    after : Option Store → Option (Unit {0}) × Store
    after none = (none, d)
    after (some d1) = reclaim_loop perform parts es (forget perform parts (id_in e) d1)

    by_requeue :
        (o : Option Store)
        → requeue perform parts (id_in e) r d ≡ o
        → after o ≡ (some tt, d')
        → (d1 : Store) × Requeued parts (id_in e) r d d1
          × (reclaim_loop perform parts es (forget perform parts (id_in e) d1) ≡ (some tt, d'))
    by_requeue none found rest = cc
    by_requeue (some d1) found rest = (d1, requeue-Requeued parts (id_in e) r d d1 found, rest)
