-- ===== src/Queue/Take/Started.antt =====
-- A job that `Dequeue` returns: what is recorded of it, and the limits that it respects.
use task_queue_system.Prelude.Int.{ℤ}
use task_queue_system.Prelude.{
  true, ap, if◌then◌else◌, none, ◌≢◌, ◌<◌, false, Bool, ◌≤◌, length, Option, ℕ, ◌+◌, ◌≡◌, some,
  arith, String_discrete,
}
use task_queue_system.Prelude.Map.{lookup, lookup-insert}
use task_queue_system.Jobs.Types.{Job, processing}
use task_queue_system.Redis.Data.{
  deferred, Entry, Key, in_flight, payloads, active_type, active_tenant, job_json, ident,
}
use task_queue_system.Redis.Commands.{perform}
use task_queue_system.Redis.Client.{>>=-ok, send, Server, ok, exec}
use task_queue_system.Redis.Sorted.{length-zset_add, score, score-zset_add}
use task_queue_system.Queue.Submit.{unix}
use task_queue_system.Queue.Take.{
  positive_limit, admit_type, put_aside, over_limit, visibility_timeout, start, start_commands,
}

-- The job is in processing, its payload is kept, and its timeout is recorded in all three sets.
pub record Started (now : ℕ) (j : Job) (t : Server) : Type 0 where
  pub in_processing : j.status ≡ processing
  pub updated : j.updated_at ≡ now
  pub kept : lookup String_discrete j.id (t.store.hashes payloads) ≡ some (job_json j)
  pub timed : score (ident j.id) (t.store.zsets in_flight) ≡ some (unix (now + visibility_timeout))
  pub timed_type :
      score (ident j.id) (t.store.zsets (active_type j.type))
      ≡ some (unix (now + visibility_timeout))
  pub timed_tenant :
      score (ident j.id) (t.store.zsets (active_tenant j.tenant_id))
      ≡ some (unix (now + visibility_timeout))

pub start-Started :
    (now : ℕ) (j j' : Job) (s t : Server)
    → start perform now j s ≡ (ok (some j'), t)
    → Started now j' t
unfolding start exec start_commands perform
start-Started now j j' s t e = ground (
  arith,
  lookup-insert String_discrete j.id j.id
      (job_json (record j { status = processing; updated_at = now })) (s.store.hashes payloads),
  score-zset_add (unix (now + visibility_timeout)) (ident j.id) (ident j.id)
      (s.store.zsets in_flight),
  score-zset_add (unix (now + visibility_timeout)) (ident j.id) (ident j.id)
      (s.store.zsets (active_type j.type)),
  score-zset_add (unix (now + visibility_timeout)) (ident j.id) (ident j.id)
      (s.store.zsets (active_tenant j.tenant_id)),
)

start-length :
    (now : ℕ) (j : Job) (r : Option Job) (s t : Server)
    → start perform now j s ≡ (ok r, t)
    → (length (t.store.zsets (active_type j.type))
        ≤ length (s.store.zsets (active_type j.type)) + 1)
      × (length (t.store.zsets (active_tenant j.tenant_id))
          ≤ length (s.store.zsets (active_tenant j.tenant_id)) + 1)
unfolding start exec start_commands perform
start-length now j r s t e = ground (
  arith,
  length-zset_add (unix (now + visibility_timeout)) (ident j.id)
      (s.store.zsets (active_type j.type)),
  length-zset_add (unix (now + visibility_timeout)) (ident j.id)
      (s.store.zsets (active_tenant j.tenant_id)),
)

start-same :
    (now : ℕ) (j j' : Job) (s t : Server)
    → start perform now j s ≡ (ok (some j'), t)
    → (j'.type ≡ j.type) × (j'.tenant_id ≡ j.tenant_id) × (j'.id ≡ j.id)
unfolding start exec
start-same now j j' s t e = ground arith

over_limit-room :
    (now : ℕ) (k : Key) (l : ℕ) (s t : Server)
    → over_limit perform now k (some l) s ≡ (ok false, t)
    → length (t.store.zsets k) < l
unfolding over_limit send perform
over_limit-room now k l s t e = ground arith

pub over_limit-keeps :
    (now : ℕ) (k : Key) (o : Option ℕ) (b : Bool) (s t : Server)
    → over_limit perform now k o s ≡ (ok b, t)
    → (t.store.hashes ≡ s.store.hashes)
      × (t.store.lists ≡ s.store.lists)
      × ((i : Key) → k ≢ i → t.store.zsets i ≡ s.store.zsets i)
unfolding over_limit send perform
over_limit-keeps now k none b s t e = ground arith
over_limit-keeps now k (some l) b s t e = (ground arith, ground arith, λ i ne. ground arith)

pub over_limit-within :
    (now : ℕ) (k : Key) (o : Option ℕ) (s t : Server)
    → over_limit perform now k o s ≡ (ok false, t)
    → (l : ℕ) → o ≡ some l
    → length (t.store.zsets k) < l
over_limit-within now k none s t e l h = cc
over_limit-within now k (some m) s t e l h =
    let p : m ≡ l = ground arith in rw (← p) (over_limit-room now k m s t e)

pub put_aside-none :
    (k : Key) (e : Entry) (j : Job) (s t : Server) → put_aside perform k e s ≢ (ok (some j), t)
unfolding put_aside send
put_aside-none k e j s t h = ground arith

-- The set under a key holds no more members than the limit, where there is one.
abbrev pub Within : ℤ → Key → Server → Type 0
Within limit k t = (l : ℕ) → positive_limit limit ≡ some l → length (t.store.zsets k) ≤ l

module _ (now : ℕ) (e : Entry) (j j' : Job) where
  -- What a round has settled when it returns the job: `limit` and `tenant_limit` are what it read.
  pub record Admitted (limit tenant_limit : ℤ) (t : Server) : Type 0 where
    pub started : Started now j' t
    pub same : (j'.type ≡ j.type) × (j'.tenant_id ≡ j.tenant_id) × (j'.id ≡ j.id)
    pub within_type : Within limit (active_type j.type) t
    pub within_tenant : Within tenant_limit (active_tenant j.tenant_id) t

  pub admit_type-Admitted :
      (limit tenant_limit : ℤ) (s t : Server)
      → ((l : ℕ)
          → positive_limit tenant_limit ≡ some l
          → length (s.store.zsets (active_tenant j.tenant_id)) < l)
      → admit_type perform now e j limit s ≡ (ok (some j'), t)
      → Admitted limit tenant_limit t
  unfolding admit_type
  admit_type-Admitted limit tenant_limit s t free h =
      let (full, u, m, rest) =
        >>=-ok (over_limit perform now (active_type j.type) (positive_limit limit)) _ s h in
      by_full full u m rest
    where
      by_full :
          (full : Bool) (u : Server)
          → over_limit perform now (active_type j.type) (positive_limit limit) s ≡ (ok full, u)
          → (if full then put_aside perform (deferred j.type) e else start perform now j) u
            ≡ (ok (some j'), t)
          → Admitted limit tenant_limit t
      by_full true u m rest = absurd (put_aside-none (deferred j.type) e j' u t rest)
      by_full false u m rest =
          let grown = start-length now j (some j') u t rest in
          let kept =
            (over_limit-keeps now (active_type j.type) (positive_limit limit) false s u m).2
              (active_tenant j.tenant_id) (λ p. cc) in
          record {
            started = start-Started now j j' u t rest;
            same = start-same now j j' u t rest;
            within_type = λ l o.
                let room =
                  over_limit-within now (active_type j.type) (positive_limit limit) s u m l o in
                omega (arith, grown.0);
            within_tenant = λ l o.
                let room = free l o in
                let same_length = ap length kept in omega (arith, grown.1, same_length);
          }
