-- ===== src/Queue/Maintain/Reclaimed.antt =====
-- `reclaimTimedOutJobsScript`: the jobs whose worker has not settled them in time are queued again.
use task_queue_system.Prelude.{
  ℕ, suc, ◌≡◌, refl, sym, ap, ◌∙◌, if_pos, if_neg, true, none, some, List, [], ◌∷◌, map, arith,
  String_discrete, String, if◌then◌else◌, length,
}
use mathlib.Core.List.{Mem}
use task_queue_system.Prelude.Map.{lookup, erase, lookup-erase}
use task_queue_system.Jobs.Types.{Job}
use task_queue_system.Redis.Data.{
  Key, Key_discrete, in_flight, payloads, Entry, ident, Store, job_json,
}
use task_queue_system.Redis.Commands.{upto, perform, set_has, hget, zset_remove}
use task_queue_system.Redis.Client.{Call, Documented, by_document, Server, ok}
use task_queue_system.Redis.Sorted.{score}
use task_queue_system.Queue.Partition.{RedisQueue, lua_partition_key}
use task_queue_system.Queue.Submit.{unix}
use task_queue_system.Queue.Maintain.{forget, reclaim_loop, reclaim_script, reclaim_timed_out_jobs}
use task_queue_system.Queue.Maintain.Requeued.{
  Grown, Requeued, erase_all, lookup-erase_all, reclaim_loop-step,
}
use task_queue_system.Queue.Maintain.Promoted.{
  due, remove_all, kept_score, score-remove_all, finish_script-some, eval-count,
}

-- After the loop over the identifiers `ids`.
record Looped (parts : ℕ) (ids : List String) (d d' : Store) : Type 0 where
  hashes : d'.hashes payloads ≡ erase_all ids (d.hashes payloads)
  zsets : d'.zsets in_flight ≡ remove_all (map ident ids) (d.zsets in_flight)
  grown : Grown d d'
  back :
      (id : String) (j : Job)
      → set_has id ids ≡ true
      → lookup String_discrete id (d.hashes payloads) ≡ some (job_json j)
      → Mem (job_json j) (d'.lists (lua_partition_key parts id j.priority))

forgotten :
    (parts : ℕ) (id : String) (d : Store)
    → let d' = forget perform parts id d in
      (d'.hashes payloads ≡ erase String_discrete id (d.hashes payloads))
      × (d'.zsets in_flight ≡ zset_remove (ident id) (d.zsets in_flight))
      × (d'.lists ≡ d.lists)
unfolding forget perform
forgotten parts id d = (
  if_pos (Key_discrete payloads payloads) refl _ _,
  if_pos (Key_discrete in_flight in_flight) refl _ _,
  refl,
)

Looped-none : (parts : ℕ) (d : Store) → Looped parts [] d d
unfolding erase_all remove_all set_has
Looped-none parts d = record {
  hashes = refl;
  zsets = refl;
  grown = λ k x m. m;
  back = λ id j m held. cc;
}

Looped-more :
    (parts : ℕ) (id : String) (ids : List String) (d d1 d' : Store)
    → Requeued parts id (perform (hget payloads id) d).0 d d1
    → Looped parts ids (forget perform parts id d1) d'
    → Looped parts (id ∷ ids) d d'
unfolding erase_all remove_all set_has perform
Looped-more parts id ids d d1 d' r l =
    let (hs, zs, ls) = forgotten parts id d1 in
    let hs' = hs ∙ ap (λ x. erase String_discrete id (x payloads)) r.hashes in
    let zs' = zs ∙ ap (λ x. zset_remove (ident id) (x in_flight)) r.zsets in
    record {
      hashes = l.hashes ∙ ap (erase_all ids) hs';
      zsets = l.zsets ∙ ap (remove_all (map ident ids)) zs';
      grown = λ k x m. l.grown k x (rw ls (r.grown k x m));
      back = λ i j m held. elim (String_discrete id i) [
        | yes p ↦ first i j p held
        | no ne ↦ l.back i j (ground arith) (
            ap (lookup String_discrete i) hs'
            ∙ lookup-erase String_discrete id i (d.hashes payloads)
            ∙ if_neg (String_discrete id i) ne _ _
            ∙ held)
      ];
    }
  where
    first :
        (i : String) (j : Job)
        → id ≡ i
        → lookup String_discrete i (d.hashes payloads) ≡ some (job_json j)
        → Mem (job_json j) (d'.lists (lua_partition_key parts i j.priority))
    first i j p held = rw (← p) (
        l.grown (lua_partition_key parts id j.priority) (job_json j) (
          rw (forgotten parts id d1).2
            (r.back j (ground (arith, ap (λ y. lookup String_discrete y (d.hashes payloads)) p)))))

reclaim_loop-Looped :
    (parts : ℕ) (ids : List String) (d d' : Store)
    → reclaim_loop perform parts (map ident ids) d ≡ (some tt, d')
    → Looped parts ids d d'
unfolding reclaim_loop
reclaim_loop-Looped parts [] d d' h =
    let e : d ≡ d' = ground arith in rw (← e) (Looped-none parts d)
reclaim_loop-Looped parts (id ∷ ids) d d' h =
    let (d1, r, rest) = reclaim_loop-step parts (ident id) (map ident ids) d d' h in
    Looped-more parts id ids d d1 d' r
      (reclaim_loop-Looped parts ids (forget perform parts id d1) d' rest)

-- After a reclaim of the identifiers `ids`, whose timeout is at most `at`: each is no longer in processing, and its job, where a
-- payload was kept, lies in the list of its priority; every other job in processing stays there, and
-- no list has lost a job.
pub record Reclaimed (parts at : ℕ) (ids : List String) (d d' : Store) : Type 0 where
  pub payloads_left :
      (i : String)
      → lookup String_discrete i (d'.hashes payloads)
        ≡ (if set_has i ids then none else lookup String_discrete i (d.hashes payloads))
  pub timeouts_left :
      (e : Entry)
      → score e (d'.zsets in_flight)
        ≡ kept_score (score e (upto at (d.zsets in_flight))) (score e (d.zsets in_flight))
  pub back :
      (i : String) (j : Job)
      → set_has i ids ≡ true
      → lookup String_discrete i (d.hashes payloads) ≡ some (job_json j)
      → Mem (job_json j) (d'.lists (lua_partition_key parts i j.priority))
  pub grown : (k : Key) (e : Entry) → Mem e (d.lists k) → Mem e (d'.lists k)

length-idents : (ids : List String) → length (map ident ids) ≡ length ids
length-idents [] = refl
length-idents (id ∷ ids) = ap suc (length-idents ids)

reclaim_script-Reclaimed :
    (parts at n : ℕ) (ids : List String) (d d' : Store)
    → due at (d.zsets in_flight) ≡ map ident ids
    → reclaim_script perform parts at d ≡ (some n, d')
    → (n ≡ length ids) × Reclaimed parts at ids d d'
unfolding reclaim_script perform
reclaim_script-Reclaimed parts at n ids d d' e h =
    let z = d.zsets in_flight in
    let ended =
      finish_script-some perform parts (length (due at z)) n
        (reclaim_loop perform parts (due at z) d) d' h in
    let ran : reclaim_loop perform parts (map ident ids) d ≡ (some tt, d') =
      ap (λ es. reclaim_loop perform parts es d) (sym e) ∙ ended.0 in
    let l = reclaim_loop-Looped parts ids d d' ran in
    (
      ended.1 ∙ ap length e ∙ length-idents ids,
      record {
        payloads_left = λ i. ap (lookup String_discrete i) l.hashes ∙ lookup-erase_all i ids _;
        timeouts_left = λ x.
            ap (score x) (l.zsets ∙ ap (λ es. remove_all es z) (sym e))
            ∙ score-remove_all x (upto at z) z;
        back = l.back;
        grown = l.grown;
      },
    )

reclaim_performed :
    (q : RedisQueue) (now n : ℕ) (ids : List String) (s t : Server)
    → due (unix now) (s.store.zsets in_flight) ≡ map ident ids
    → reclaim_timed_out_jobs perform q now s ≡ (ok n, t)
    → (n ≡ length ids) × Reclaimed q.num_partitions (unix now) ids s.store t.store
unfolding reclaim_timed_out_jobs
reclaim_performed q now n ids s t e h =
    reclaim_script-Reclaimed q.num_partitions (unix now) n ids s.store t.store e
      (eval-count (reclaim_script perform q.num_partitions (unix now)) n s t h)

-- A successful reclaim returns the number of the jobs in processing whose timeout has passed, `ids`.
-- It takes these and no others out of processing, puts each of them that has a payload back into a
-- priority list, and no list loses a job.
pub reclaim_timed_out_jobs-Reclaimed :
    (call : Call) (q : RedisQueue) (now n : ℕ) (ids : List String) (s t : Server)
    → Documented call
    → due (unix now) (s.store.zsets in_flight) ≡ map ident ids
    → reclaim_timed_out_jobs call q now s ≡ (ok n, t)
    → (n ≡ length ids) × Reclaimed q.num_partitions (unix now) ids s.store t.store
reclaim_timed_out_jobs-Reclaimed call q now n ids s t doc e =
    by_document
      (λ c.
        reclaim_timed_out_jobs c q now s ≡ (ok n, t)
        → (n ≡ length ids) × Reclaimed q.num_partitions (unix now) ids s.store t.store)
      doc (reclaim_performed q now n ids s t e)
