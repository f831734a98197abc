-- ===== src/Queue/Maintain/Promoted.antt =====
-- `promoteScheduledJobsScript`: the due jobs, and no others, move to their priority lists.
use task_queue_system.Prelude.{
  ℕ, ◌≡◌, refl, ap, ◌∙◌, ite, if_pos, Option, none, some, List, [], ◌∷◌, map, arith, length,
}
use task_queue_system.Redis.Data.{Key, Key_discrete, delayed, Entry, Store, job_json}
use task_queue_system.Redis.Commands.{eval, put_zset, update, put_list, perform, upto, zset_remove}
use task_queue_system.Redis.Client.{◌>>=◌, Call, Documented, by_document, Server, ok, send}
use task_queue_system.Redis.Sorted.{score, score-zset_remove}
use task_queue_system.Queue.Partition.{RedisQueue, lua_partition_key}
use task_queue_system.Queue.Submit.{unix}
use task_queue_system.Queue.Maintain.{
  script_count, Script, promote_loop, promote_script, promote_scheduled_jobs, finish_script,
}

-- The list under a key after jobs have been pushed to their lists one by one.
pub arrivals : ℕ → Key → List Entry → List Entry → List Entry
arrivals n k [] l = l
arrivals n k (job_json j ∷ es) l =
    arrivals n k es (ite (Key_discrete (lua_partition_key n j.id j.priority) k) (job_json j ∷ l) l)
arrivals n k (_ ∷ es) l = arrivals n k es l

-- The members of a sorted set whose score is at most `n`, lowest first.
abbrev pub due : ℕ → List (Entry × ℕ) → List Entry
due n z = map (λ e. e.0) (upto n z)

unfoldable pub remove_all : List Entry → List (Entry × ℕ) → List (Entry × ℕ)
remove_all [] z = z
remove_all (e ∷ es) z = remove_all es (zset_remove e z)

abbrev pub kept_score : Option ℕ → Option ℕ → Option ℕ
kept_score none o = o
kept_score (some _) o = none

pub score-remove_all :
    (e : Entry) (w z : List (Entry × ℕ))
    → score e (remove_all (map (λ x. x.0) w) z) ≡ kept_score (score e w) (score e z)
unfolding remove_all score
score-remove_all e [] z = refl
score-remove_all e ((m, n) ∷ w) z =
    ground (arith, score-remove_all e w (zset_remove m z), score-zset_remove m e z)

-- After a promotion: a member that was due is gone from the scheduled jobs and every other keeps its
-- time; the due jobs have been pushed to the lists of their priorities in the order of their times.
pub record Promoted (parts at : ℕ) (d d' : Store) : Type 0 where
  pub scheduled :
      (e : Entry)
      → score e (d'.zsets delayed)
        ≡ kept_score (score e (upto at (d.zsets delayed))) (score e (d.zsets delayed))
  pub pushed : (k : Key) → d'.lists k ≡ arrivals parts k (due at (d.zsets delayed)) (d.lists k)
  pub hashes : d'.hashes ≡ d.hashes

pushed_list :
    (to k : Key) (e : Entry) (d : Store)
    → update d.lists to (e ∷ d.lists to) k ≡ ite (Key_discrete to k) (e ∷ d.lists k) (d.lists k)
pushed_list to k e d = ground arith

promote_loop-moves :
    (n : ℕ) (es : List Entry) (d d' : Store)
    → promote_loop perform n es d ≡ (some tt, d')
    → (d'.zsets delayed ≡ remove_all es (d.zsets delayed))
      × ((k : Key) → d'.lists k ≡ arrivals n k es (d.lists k))
      × (d'.hashes ≡ d.hashes)
unfolding promote_loop remove_all arrivals perform
promote_loop-moves n [] d d' h = (ground arith, λ k. ground arith, ground arith)
promote_loop-moves n (job_json j ∷ es) d d' h =
    let e = job_json j in
    let to = lua_partition_key n j.id j.priority in
    let pushed = put_list d to (e ∷ d.lists to) in
    let (zs, ls, hs) =
      promote_loop-moves n es (put_zset pushed delayed (zset_remove e (d.zsets delayed))) d' h in
    (
      zs ∙ ap (remove_all es) (if_pos (Key_discrete delayed delayed) refl _ _),
      λ k. ls k ∙ ap (arrivals n k es) (pushed_list to k e d),
      hs,
    )
promote_loop-moves n (_ ∷ es) d d' h = cc

-- A script that ended well, taken apart.
pub finish_script-some :
    (call : Call) (parts m n : ℕ) (p : Option (Unit {0}) × Store) (d : Store)
    → finish_script call parts m p ≡ (some n, d)
    → (p ≡ (some tt, d)) × (n ≡ m)
unfolding finish_script
finish_script-some call parts m n (none, d') d h = ground arith
finish_script-some call parts m n (some tt, d') d h = ground arith

-- A script whose count reached the caller has run on the store.
pub eval-count :
    (f : Script) (n : ℕ) (s t : Server)
    → (send perform (eval f) >>= script_count) s ≡ (ok n, t)
    → f s.store ≡ (some n, t.store)
unfolding send perform
eval-count f n s t h = ground arith

promote_script-Promoted :
    (parts at n : ℕ) (d d' : Store)
    → promote_script perform parts at d ≡ (some n, d')
    → (n ≡ length (due at (d.zsets delayed))) × Promoted parts at d d'
unfolding promote_script finish_script perform
promote_script-Promoted parts at n d d' h =
    let z = d.zsets delayed in
    let ended =
      finish_script-some perform parts (length (due at z)) n
        (promote_loop perform parts (due at z) d) d' h in
    let (zs, ls, hs) = promote_loop-moves parts (due at z) d d' ended.0 in
    (
      ended.1,
      record {
        scheduled = λ e. ap (score e) zs ∙ score-remove_all e (upto at z) z;
        pushed = ls;
        hashes = hs;
      },
    )

promote_performed :
    (q : RedisQueue) (now n : ℕ) (s t : Server)
    → promote_scheduled_jobs perform q now s ≡ (ok n, t)
    → (n ≡ length (due (unix now) (s.store.zsets delayed)))
      × Promoted q.num_partitions (unix now) s.store t.store
unfolding promote_scheduled_jobs
promote_performed q now n s t h =
    promote_script-Promoted q.num_partitions (unix now) n s.store t.store
      (eval-count (promote_script perform q.num_partitions (unix now)) n s t h)

-- A successful promotion takes the jobs whose time has come, and no others, out of the scheduled jobs
-- and pushes each to the list of its priority and partition; its result is their number.
pub promote_scheduled_jobs-Promoted :
    (call : Call) (q : RedisQueue) (now n : ℕ) (s t : Server)
    → Documented call
    → promote_scheduled_jobs call q now s ≡ (ok n, t)
    → (n ≡ length (due (unix now) (s.store.zsets delayed)))
      × Promoted q.num_partitions (unix now) s.store t.store
promote_scheduled_jobs-Promoted call q now n s t doc =
    by_document
      (λ c.
        promote_scheduled_jobs c q now s ≡ (ok n, t)
        → (n ≡ length (due (unix now) (s.store.zsets delayed)))
          × Promoted q.num_partitions (unix now) s.store t.store)
      doc (promote_performed q now n s t)
