-- ===== src/Queue/Take/Total.antt =====
-- The loop of `Dequeue` ends.
use task_queue_system.Prelude.{
  ℕ, zero, suc, ◌+◌, ◌<◌, ◌≡◌, refl, ap, ◌≢◌, inl, inr, Bool, true, false, Option, none, some, List,
  [], ◌∷◌, ◌++◌, arith, String, if◌then◌else◌,
}
use task_queue_system.Prelude.Int.{ℤ}
use task_queue_system.Jobs.Types.{processing, Job}
use task_queue_system.Redis.Data.{
  Key, Tier, Entry, active_type, active_tenant, deferred, deferred_tenant,
}
use task_queue_system.Redis.Commands.{lpush, Command, perform, brpop}
use task_queue_system.Redis.Client.{
  exec, Call, Documented, by_document, Server, no_fuel, ok, err, send, >>=-err,
}
use task_queue_system.Queue.Partition.{
  RedisQueue, get_fair_partition_keys, keys_of_tier, tier_order,
}
use task_queue_system.Queue.Take.{
  start_commands, positive_limit, over_limit, put_aside, start, admit_type, admit_tenant, admit,
  round, finish_round, dequeue_loop, dequeue, get_tenant_limit, get_job_type_state, popped_entry,
  decode_job,
}
use task_queue_system.Queue.Take.Pending.{pending, AllReady, round-pending}

module _ (t : Server) where
  send-fuel : (c : Command) (s : Server) → send perform c s ≢ (err no_fuel, t)
  unfolding send
  send-fuel c s h = ground arith

  exec-fuel : (cs : List Command) (s : Server) → exec perform cs s ≢ (err no_fuel, t)
  unfolding exec
  exec-fuel cs s h = ground arith

  put_aside-fuel : (k : Key) (e : Entry) (s : Server) → put_aside perform k e s ≢ (err no_fuel, t)
  unfolding put_aside
  put_aside-fuel k e s h = ground (arith, send-fuel (lpush k e) s)

  start-fuel : (now : ℕ) (j : Job) (s : Server) → start perform now j s ≢ (err no_fuel, t)
  unfolding start
  start-fuel now j s h = ground (
    arith,
    exec-fuel (start_commands perform now (record j { status = processing; updated_at = now })) s,
  )

  over_limit-fuel :
      (now : ℕ) (k : Key) (o : Option ℕ) (s : Server)
      → over_limit perform now k o s ≢ (err no_fuel, t)
  unfolding over_limit send
  over_limit-fuel now k none s h = cc
  over_limit-fuel now k (some l) s h = ground arith

  get_tenant_limit-fuel :
      (id : String) (s : Server) → get_tenant_limit perform id s ≢ (err no_fuel, t)
  unfolding get_tenant_limit
  get_tenant_limit-fuel id s h = ground arith

  get_job_type_state-fuel :
      (ty : String) (s : Server) → get_job_type_state perform ty s ≢ (err no_fuel, t)
  unfolding get_job_type_state send
  get_job_type_state-fuel ty s h = ground arith

  module _ (now : ℕ) (e : Entry) (j : Job) where
    admit_type-fuel :
        (limit : ℤ) (s : Server) → admit_type perform now e j limit s ≢ (err no_fuel, t)
    unfolding admit_type
    admit_type-fuel limit s h =
        elim (>>=-err (over_limit perform now (active_type j.type) (positive_limit limit)) _ s h) [
          | inl m ↦ over_limit-fuel now (active_type j.type) (positive_limit limit) s m
          | inr (full, u, m, rest) ↦ by_full full u rest
        ]
      where
        by_full :
            (full : Bool) (u : Server)
            → (if full then put_aside perform (deferred j.type) e else start perform now j) u
              ≢ (err no_fuel, t)
        by_full true u rest = put_aside-fuel (deferred j.type) e u rest
        by_full false u rest = start-fuel now j u rest

    admit_tenant-fuel :
        (limit : ℤ) (s : Server) → admit_tenant perform now e j limit s ≢ (err no_fuel, t)
    unfolding admit_tenant
    admit_tenant-fuel limit s h = elim (>>=-err (get_tenant_limit perform j.tenant_id) _ s h) [
      | inl m ↦ get_tenant_limit-fuel j.tenant_id s m
      | inr (tl, u, m, rest) ↦
          elim (>>=-err (over_limit perform now (active_tenant j.tenant_id) (positive_limit tl)) _ u
            rest) [
              | inl n ↦ over_limit-fuel now (active_tenant j.tenant_id) (positive_limit tl) u n
              | inr (full, v, n, rest') ↦ by_full full v rest'
            ]
    ]
      where
        by_full :
            (full : Bool) (v : Server)
            → (if full
                  then put_aside perform (deferred_tenant j.tenant_id) e
                  else admit_type perform now e j limit)
                v
              ≢ (err no_fuel, t)
        by_full true v rest = put_aside-fuel (deferred_tenant j.tenant_id) e v rest
        by_full false v rest = admit_type-fuel limit v rest

    admit-fuel : (st : ℤ × Bool) (s : Server) → admit perform now e j st s ≢ (err no_fuel, t)
    unfolding admit
    admit-fuel (limit, true) s h = put_aside-fuel (deferred j.type) e s h
    admit-fuel (limit, false) s h = admit_tenant-fuel limit s h

  round-fuel :
      (now : ℕ) (keys : List Key) (s : Server) → round perform now keys s ≢ (err no_fuel, t)
  unfolding round
  round-fuel now keys s h = elim (>>=-err (send perform (brpop keys)) _ s h) [
    | inl m ↦ send-fuel (brpop keys) s m
    | inr (r, u, _, h1) ↦ elim (>>=-err (popped_entry r) _ u h1) [
      | inl m ↦ ground (arith, m)
      | inr (e, v, _, h2) ↦ elim (>>=-err (decode_job e) _ v h2) [
        | inl m ↦ ground (arith, m)
        | inr (j, w, _, h3) ↦ elim (>>=-err (get_job_type_state perform j.type) _ w h3) [
          | inl m ↦ get_job_type_state-fuel j.type w m
          | inr (st, x, _, h4) ↦ admit-fuel now e j st x h4
        ]
      ]
    ]
  ]

dequeue_loop-fuel :
    (fuel now : ℕ) (keys : List Key) (s t : Server)
    → AllReady keys
    → pending keys s.store < fuel
    → dequeue_loop perform fuel now keys s ≢ (err no_fuel, t)
unfolding dequeue_loop
dequeue_loop-fuel zero now keys s t a enough h = absurd (omega arith)
dequeue_loop-fuel (suc fuel) now keys s t a enough h =
    elim (>>=-err (round perform now keys) _ s h) [
      | inl m ↦ round-fuel t now keys s m
      | inr (o, u, m, rest) ↦ by_round o u m rest (dequeue_loop-fuel fuel now keys u t a)
    ]
  where
    by_round :
        (o : Option Job) (u : Server)
        → round perform now keys s ≡ (ok o, u)
        → finish_round perform (dequeue_loop perform fuel now keys) o u ≡ (err no_fuel, t)
        → (pending keys u.store < fuel → dequeue_loop perform fuel now keys u ≢ (err no_fuel, t))
        → ⊥
    by_round none u m rest ih = ih (omega (arith, round-pending now keys s u a m)) rest
    by_round (some j) u m rest ih = cc

AllReady-append : (ks js : List Key) → AllReady ks → AllReady js → AllReady (ks ++ js)
AllReady-append [] js a b = b
AllReady-append (k ∷ ks) js a b = (a.0, AllReady-append ks js a.1 b)

keys_of_tier-AllReady : (i n : ℕ) (tier : Tier) → AllReady (keys_of_tier i n tier)
unfolding keys_of_tier
keys_of_tier-AllReady i zero tier = tt
keys_of_tier-AllReady i (suc n) tier = (refl, keys_of_tier-AllReady (i + 1) n tier)

get_fair_partition_keys-AllReady : (q : RedisQueue) (r : ℕ) → AllReady (get_fair_partition_keys q r)
unfolding get_fair_partition_keys
get_fair_partition_keys-AllReady q r =
    let (a, b, c) = tier_order r in
    AllReady-append (keys_of_tier 1 q.num_partitions a) _
      (keys_of_tier-AllReady 1 q.num_partitions a)
      (AllReady-append (keys_of_tier 1 q.num_partitions b) _
        (keys_of_tier-AllReady 1 q.num_partitions b) (keys_of_tier-AllReady 1 q.num_partitions c))

dequeue-fuel :
    (fuel : ℕ) (q : RedisQueue) (now r : ℕ) (s : Server) {t : Server}
    → pending (get_fair_partition_keys q r) s.store < fuel
    → dequeue perform fuel q now r s ≢ (err no_fuel, t)
unfolding dequeue
dequeue-fuel fuel q now r s {t} enough =
    dequeue_loop-fuel fuel now (get_fair_partition_keys q r) s t
      (get_fair_partition_keys-AllReady q r) enough

-- The loop of `Dequeue` ends by a return of the source: fuel above the number of jobs in the lists
-- that it reads does not run out, whatever is limited, paused or lost on the way.
pub dequeue-returns :
    (call : Call) (fuel : ℕ) (q : RedisQueue) (now r : ℕ) (s : Server)
    → Documented call
    → pending (get_fair_partition_keys q r) s.store < fuel
    → (dequeue call fuel q now r s).0 ≢ err no_fuel
dequeue-returns call fuel q now r s doc enough =
    by_document (λ c. (dequeue c fuel q now r s).0 ≢ err no_fuel) doc
      (λ h.
        dequeue-fuel fuel q now r s enough (ap (λ x. (x, (dequeue perform fuel q now r s).1)) h))
