-- ===== src/Queue/Maintain/Room.antt =====
-- `ReconcileDeferredJobs`: no more jobs come back than there is room for.
use task_queue_system.Prelude.{
  ℕ, zero, suc, ◌+◌, ◌-◌, ◌≤◌, ◌≡◌, Bool, true, false, some, [], arith, ◌==◌, if◌then◌else◌, length,
}
use task_queue_system.Redis.Data.{Key, Entry}
use task_queue_system.Redis.Commands.{llen, perform, Reply, value, rpop, after}
use task_queue_system.Redis.Client.{
  ◌>>=◌, pure, Call, Documented, by_document, Server, Result, ok, err, send, attempt, M, >>=-ok,
}
use task_queue_system.Queue.Partition.{RedisQueue}
use task_queue_system.Queue.Submit.{unix}
use task_queue_system.Queue.Maintain.{
  put_back, move_popped, move_deferred, available, reconcile_key, waiting,
}

put_back-le :
    (q : RedisQueue) (e : Entry) (n : ℕ) (s t : Server) → put_back perform q e s ≡ (ok n, t) → n ≤ 1
unfolding put_back
put_back-le q e n s t h = ground arith

-- One round of the loop, before a rest that counts at most `n` jobs.
move_popped-le :
    (q : RedisQueue) (n m : ℕ) (rest : M ℕ) (r : Result Reply) (s t : Server)
    → ((u : Server) (a : ℕ) → rest u ≡ (ok a, t) → a ≤ n)
    → move_popped perform q rest r s ≡ (ok m, t)
    → m ≤ suc n
unfolding move_popped
move_popped-le q n m rest (ok (value e)) s t small h =
    let (a, u, x, h1) = >>=-ok (put_back perform q e) (λ a. rest >>= λ b. pure (a + b)) s h in
    let (b, v, y, h2) = >>=-ok rest (λ b. pure (a + b)) u h1 in
    let sum : a + b ≡ m = ground arith in
    let end : v ≡ t = ground arith in
    omega (arith, put_back-le q e a s u x, small u b (rw (← end) y), sum)
move_popped-le q n m rest (ok _) s t small h = ground arith
move_popped-le q n m rest (err _) s t small h = omega (arith, small s m h)

-- The loop counts at most as many jobs as it has rounds.
move_deferred-le :
    (q : RedisQueue) (n m : ℕ) (k : Key) (s t : Server)
    → move_deferred perform q n k s ≡ (ok m, t)
    → m ≤ n
unfolding move_deferred
move_deferred-le q zero m k s t h = ground arith
move_deferred-le q (suc n) m k s t h =
    let rest = move_deferred perform q n k in
    let (r, u, x, h1) = >>=-ok (attempt (send perform (rpop k))) (move_popped perform q rest) s h in
    move_popped-le q n m rest r u t (λ v a y. move_deferred-le q n a k v t y) h1

available-le :
    (q : RedisQueue) (now : ℕ) (active : Key) (w l n : ℕ) (s t : Server)
    → s.faults ≡ []
    → available perform q now active w (some l) s ≡ (ok n, t)
    → n ≡ l - length (after (unix now) (s.store.zsets active))
unfolding available send perform
available-le q now active w l n s t f h = ground arith

llen-reads :
    (k : Key) (r : Result Reply) (s t : Server)
    → s.faults ≡ []
    → attempt (send perform (llen k)) s ≡ (ok r, t)
    → (waiting r ≡ length (s.store.lists k)) × (t ≡ s)
unfolding send perform
llen-reads k r s t f h = ground arith

available_or-le :
    (q : RedisQueue) (now : ℕ) (active : Key) (w l n : ℕ) (skip : Bool) (s t : Server)
    → s.faults ≡ []
    → (if skip then pure 0 else available perform q now active w (some l)) s ≡ (ok n, t)
    → n ≤ l - length (after (unix now) (s.store.zsets active))
available_or-le q now active w l n true s t f h = ground arith
available_or-le q now active w l n false s t f h =
    let e = available-le q now active w l n s t f h in omega (arith, e)

reconcile_key_performed :
    (q : RedisQueue) (now n l : ℕ) (list active : Key) (s t : Server)
    → s.faults ≡ []
    → reconcile_key perform q now list active (some l) s ≡ (ok n, t)
    → n ≤ l - length (after (unix now) (s.store.zsets active))
unfolding reconcile_key
reconcile_key_performed q now n l list active s t f h =
    let (r, u, x, h1) =
      >>=-ok (attempt (send perform (llen list)))
        (λ r.
          (if waiting r == 0 then pure 0 else available perform q now active (waiting r) (some l))
          >>= λ n. move_deferred perform q n list)
        s h in
    let (a, v, y, h2) =
      >>=-ok
        (if waiting r == 0 then pure 0 else available perform q now active (waiting r) (some l))
        (λ n. move_deferred perform q n list) u h1 in
    let same = (llen-reads list r s u f x).1 in
    let few = available_or-le q now active (waiting r) l a (waiting r == 0) s v f (rw (← same) y) in
    omega (arith, move_deferred-le q a n list v t h2, few)

-- While every request is delivered, `ReconcileDeferredJobs` puts back at most as many jobs of a type,
-- or of a tenant, as its limit exceeds those in progress whose timeout has not passed.
reconcile_key-le :
    (call : Call) (q : RedisQueue) (now n l : ℕ) (list active : Key) (s t : Server)
    → Documented call
    → s.faults ≡ []
    → reconcile_key call q now list active (some l) s ≡ (ok n, t)
    → n ≤ l - length (after (unix now) (s.store.zsets active))
reconcile_key-le call q now n l list active s t doc f =
    by_document
      (λ c.
        reconcile_key c q now list active (some l) s ≡ (ok n, t)
        → n ≤ l - length (after (unix now) (s.store.zsets active)))
      doc (reconcile_key_performed q now n l list active s t f)
