-- ===== src/Queue/Take/Loop.antt =====
-- The loop of `Dequeue`: rounds that put a job aside, then one that returns.
use task_queue_system.Prelude.{
  ℕ, ◌≡◌, refl, ap, ◌∙◌, ◌≢◌, Bool, true, false, Option, none, arith, if◌then◌else◌,
}
use task_queue_system.Prelude.Int.{ℤ}
use task_queue_system.Jobs.Types.{Job}
use task_queue_system.Redis.Data.{
  Tier, Key, active_type, active_tenant, deferred, deferred_tenant, Entry,
}
use task_queue_system.Redis.Commands.{perform}
use task_queue_system.Redis.Client.{send, Server, ok, >>=-ok}
use task_queue_system.Queue.Take.{
  positive_limit, over_limit, put_aside, start, admit_type, admit_tenant, admit, get_tenant_limit,
}
use task_queue_system.Queue.Take.Started.{over_limit-keeps}
use task_queue_system.Queue.Take.Granted.{
  Granted, Quiet, Quiet-trans, put_aside-keeps, over_limit-faults, get_tenant_limit-reads,
}

start-some : (now : ℕ) (j : Job) (s t : Server) → start perform now j s ≢ (ok none, t)
unfolding start
start-some now j s t h = ground arith

-- The lists of the priority partitions, which only `Dequeue`'s BRPOP shortens.
abbrev pub SameReady : Server → Server → Type 0
SameReady s t =
    (tier : Tier) (i : ℕ)
    → t.store.lists (Key.partition tier i) ≡ s.store.lists (Key.partition tier i)

pub record Aside (s t : Server) : Type 0 where
  pub quiet : Quiet s t
  pub ready : SameReady s t

Aside-trans : {s t u : Server} → Aside s t → Aside t u → Aside s u
Aside-trans a b = record {
  quiet = Quiet-trans a.quiet b.quiet;
  ready = λ tier i. b.ready tier i ∙ a.ready tier i;
}

abbrev pub is_ready : Key → Bool
is_ready (Key.partition tier i) = true
is_ready _ = false

put_aside-Aside :
    (k : Key) (e : Entry) (o : Option Job) (s t : Server)
    → is_ready k ≡ false
    → put_aside perform k e s ≡ (ok o, t)
    → Aside s t
unfolding put_aside send perform
put_aside-Aside k e o s t off h =
    let (a, b) = put_aside-keeps k e o s t h in
    record { quiet = record { hashes = a; faultless = b }; ready = λ tier i. ground arith }

over_limit-Aside :
    (now : ℕ) (k : Key) (o : Option ℕ) (b : Bool) (s t : Server)
    → over_limit perform now k o s ≡ (ok b, t)
    → Aside s t
over_limit-Aside now k o b s t h =
    let (hs, ls, _) = over_limit-keeps now k o b s t h in
    record {
      quiet = record { hashes = hs; faultless = over_limit-faults now k o b s t h };
      ready = λ tier i. ap (λ f. f (Key.partition tier i)) ls;
    }

module _ (now : ℕ) (e : Entry) (j : Job) where
  admit_type-Aside :
      (limit : ℤ) (s t : Server) → admit_type perform now e j limit s ≡ (ok none, t) → Aside s t
  unfolding admit_type
  admit_type-Aside limit s t h =
      let (full, u, m, rest) =
        >>=-ok (over_limit perform now (active_type j.type) (positive_limit limit)) _ s h in
      Aside-trans (over_limit-Aside now (active_type j.type) (positive_limit limit) full s u m)
        (by_full full u rest)
    where
      by_full :
          (full : Bool) (u : Server)
          → (if full then put_aside perform (deferred j.type) e else start perform now j) u
            ≡ (ok none, t)
          → Aside u t
      by_full true u rest = put_aside-Aside (deferred j.type) e none u t refl rest
      by_full false u rest = absurd (start-some now j u t rest)

  admit_tenant-Aside :
      (limit : ℤ) (s t : Server) → admit_tenant perform now e j limit s ≡ (ok none, t) → Aside s t
  unfolding admit_tenant
  admit_tenant-Aside limit s t h =
      let (tl, u, m, rest) = >>=-ok (get_tenant_limit perform j.tenant_id) _ s h in
      let (full, v, n, rest') =
        >>=-ok (over_limit perform now (active_tenant j.tenant_id) (positive_limit tl)) _ u rest in
      let (_, same, f) = get_tenant_limit-reads j.tenant_id tl s u m in
      Aside-trans
        (record {
          quiet = record { hashes = ap (λ d. d.hashes) same; faultless = f };
          ready = λ tier i. ap (λ d. d.lists (Key.partition tier i)) same;
        })
        (Aside-trans
          (over_limit-Aside now (active_tenant j.tenant_id) (positive_limit tl) full u v n)
          (by_full full v rest'))
    where
      by_full :
          (full : Bool) (v : Server)
          → (if full
                then put_aside perform (deferred_tenant j.tenant_id) e
                else admit_type perform now e j limit)
              v
            ≡ (ok none, t)
          → Aside v t
      by_full true v rest = put_aside-Aside (deferred_tenant j.tenant_id) e none v t refl rest
      by_full false v rest = admit_type-Aside limit v t rest

  pub admit-Aside :
      (st : ℤ × Bool) (s t : Server) → admit perform now e j st s ≡ (ok none, t) → Aside s t
  unfolding admit
  admit-Aside (limit, true) s t h = put_aside-Aside (deferred j.type) e none s t refl h
  admit-Aside (limit, false) s t h = admit_tenant-Aside limit s t h
