-- ===== src/Queue/Take/Granted.antt =====
-- `Dequeue` as a whole: the job that it returns is one that the registered settings let run.
use task_queue_system.Prelude.{
  ℕ, ◌≡◌, refl, sym, ap, ◌∙◌, Bool, true, false, Option, none, some, List, [], ◌∷◌, arith,
  String_discrete, String, if◌then◌else◌,
}
use task_queue_system.Prelude.Map.{lookup}
use task_queue_system.Prelude.Int.{ℤ, pos}
use task_queue_system.Jobs.Types.{Job}
use task_queue_system.Redis.Data.{
  Key, job_types_registered, tenants_registered, active_type, active_tenant, deferred,
  deferred_tenant, Entry, settings, Store,
}
use task_queue_system.Redis.Commands.{pop_first, perform, Reply, brpop}
use task_queue_system.Redis.Client.{Server, ok, send, >>=-ok}
use task_queue_system.Queue.Take.{
  positive_limit, over_limit, put_aside, admit_type, admit_tenant, admit, round, get_job_type_state,
  get_tenant_limit, popped_entry, decode_job,
}
use task_queue_system.Queue.Take.Started.{
  Started, Within, Admitted, admit_type-Admitted, over_limit-within, put_aside-none,
}

-- The settings that the registries hold: no limit and no pause for what is not registered.
abbrev settings_of : Option Entry → ℤ × Bool
settings_of (some (settings limit paused)) = (limit, paused)
settings_of _ = (pos 0, false)

abbrev pub type_settings : Store → String → ℤ × Bool
type_settings d t = settings_of (lookup String_discrete t (d.hashes job_types_registered))

abbrev pub tenant_settings : Store → String → ℤ × Bool
tenant_settings d t = settings_of (lookup String_discrete t (d.hashes tenants_registered))

-- The job may run: its type is not paused, and with it the type has no more jobs in progress than its
-- limit. The tenant's limit is respected too if no request was lost, for a lost one counts as no limit.
pub record Granted (now : ℕ) (s : Server) (j : Job) (t : Server) : Type 0 where
  pub started : Started now j t
  pub not_paused : (type_settings s.store j.type).1 ≡ false
  pub within_type : Within (type_settings s.store j.type).0 (active_type j.type) t
  pub within_tenant :
      s.faults ≡ [] → Within (tenant_settings s.store j.tenant_id).0 (active_tenant j.tenant_id) t

pub get_job_type_state-reads :
    (t : String) (st : ℤ × Bool) (s u : Server)
    → get_job_type_state perform t s ≡ (ok st, u)
    → (st ≡ type_settings s.store t) × (u.store ≡ s.store) × (s.faults ≡ [] → u.faults ≡ [])
unfolding get_job_type_state send perform
get_job_type_state-reads t st s u e = ground arith

pub get_tenant_limit-reads :
    (t : String) (l : ℤ) (s u : Server)
    → get_tenant_limit perform t s ≡ (ok l, u)
    → (s.faults ≡ [] → l ≡ (tenant_settings s.store t).0)
      × (u.store ≡ s.store)
      × (s.faults ≡ [] → u.faults ≡ [])
unfolding get_tenant_limit send perform
get_tenant_limit-reads t l s u e = ground arith

pop_first-hashes : (d : Store) (keys : List Key) → (pop_first d keys).1.hashes ≡ d.hashes
unfolding pop_first
pop_first-hashes d [] = refl
pop_first-hashes d (k ∷ ks) = ground (arith, pop_first-hashes d ks)

brpop-keeps :
    (keys : List Key) (r : Reply) (s u : Server)
    → send perform (brpop keys) s ≡ (ok r, u)
    → (u.store.hashes ≡ s.store.hashes) × (s.faults ≡ [] → u.faults ≡ [])
unfolding send perform
brpop-keeps keys r s u e = ground (arith, pop_first-hashes s.store keys)

-- A round that ends in `continue` leaves the registries alone.
pub put_aside-keeps :
    (k : Key) (e : Entry) (o : Option Job) (s t : Server)
    → put_aside perform k e s ≡ (ok o, t)
    → (t.store.hashes ≡ s.store.hashes) × (s.faults ≡ [] → t.faults ≡ [])
unfolding put_aside send perform
put_aside-keeps k e o s t h = ground arith

pub over_limit-faults :
    (now : ℕ) (k : Key) (o : Option ℕ) (b : Bool) (s t : Server)
    → over_limit perform now k o s ≡ (ok b, t)
    → s.faults ≡ []
    → t.faults ≡ []
unfolding over_limit send perform
over_limit-faults now k none b s t e = ground arith
over_limit-faults now k (some l) b s t e = ground arith

Within-along : {a b : ℤ} {k i : Key} (t : Server) → a ≡ b → k ≡ i → Within a k t → Within b i t
Within-along t p q w l o = rw (← q) (w l (ap positive_limit p ∙ o))

module _ (now : ℕ) (e : Entry) (j j' : Job) where
  admit_tenant-Admitted :
      (limit : ℤ) (s t : Server)
      → admit_tenant perform now e j limit s ≡ (ok (some j'), t)
      → (tl : ℤ) × Admitted now e j j' limit tl t
        × (s.faults ≡ [] → tl ≡ (tenant_settings s.store j.tenant_id).0)
  unfolding admit_tenant
  admit_tenant-Admitted limit s t h =
      let (tl, u, m, rest) = >>=-ok (get_tenant_limit perform j.tenant_id) _ s h in
      let (full, v, n, rest') =
        >>=-ok (over_limit perform now (active_tenant j.tenant_id) (positive_limit tl)) _ u rest in
      (tl, by_full tl u full v n rest', (get_tenant_limit-reads j.tenant_id tl s u m).0)
    where
      by_full :
          (tl : ℤ) (u : Server) (full : Bool) (v : Server)
          → over_limit perform now (active_tenant j.tenant_id) (positive_limit tl) u ≡ (ok full, v)
          → (if full
                then put_aside perform (deferred_tenant j.tenant_id) e
                else admit_type perform now e j limit)
              v
            ≡ (ok (some j'), t)
          → Admitted now e j j' limit tl t
      by_full tl u true v n rest =
          absurd (put_aside-none (deferred_tenant j.tenant_id) e j' v t rest)
      by_full tl u false v n rest =
          admit_type-Admitted now e j j' limit tl v t
            (λ l o. over_limit-within now (active_tenant j.tenant_id) (positive_limit tl) u v n l o)
            rest

  admit-Granted :
      (st : ℤ × Bool) (s t : Server)
      → st ≡ type_settings s.store j.type
      → admit perform now e j st s ≡ (ok (some j'), t)
      → Granted now s j' t
  unfolding admit
  admit-Granted (limit, true) s t at h = absurd (put_aside-none (deferred j.type) e j' s t h)
  admit-Granted (limit, false) s t at h =
      let (tl, a, read) = admit_tenant-Admitted limit s t h in
      record {
        started = a.started;
        not_paused = rw (a.same.0, ← at);
        within_type =
            Within-along t (ap (λ x. x.0) at ∙ ap (λ x. (type_settings s.store x).0) (sym a.same.0))
              (ap active_type (sym a.same.0)) a.within_type;
        within_tenant = λ f.
            Within-along t (read f ∙ ap (λ x. (tenant_settings s.store x).0) (sym a.same.1))
              (ap active_tenant (sym a.same.1)) a.within_tenant;
      }

-- Between two moments of a call the registries stay, and no fault appears from nowhere.
pub record Quiet (s u : Server) : Type 0 where
  pub hashes : u.store.hashes ≡ s.store.hashes
  pub faultless : s.faults ≡ [] → u.faults ≡ []

pub Quiet-trans : {s t u : Server} → Quiet s t → Quiet t u → Quiet s u
Quiet-trans a b = record {
  hashes = b.hashes ∙ a.hashes;
  faultless = λ f. b.faultless (a.faultless f);
}

pub Granted-earlier :
    {now : ℕ} {s u t : Server} {j : Job} → Quiet s u → Granted now u j t → Granted now s j t
Granted-earlier {j = j} q g = record {
  started = g.started;
  not_paused =
      ap (λ h. (settings_of (lookup String_discrete j.type (h job_types_registered))).1)
        (sym q.hashes)
      ∙ g.not_paused;
  within_type = λ l o. g.within_type l (
      ap
        (λ h.
          positive_limit (settings_of (lookup String_discrete j.type (h job_types_registered))).0)
        q.hashes
      ∙ o);
  within_tenant = λ f l o. g.within_tenant (q.faultless f) l (
      ap
        (λ h.
          positive_limit
            (settings_of (lookup String_discrete j.tenant_id (h tenants_registered))).0)
        q.hashes
      ∙ o);
}

popped_entry-Quiet :
    (r : Reply) (e : Entry) (s u : Server) → popped_entry r s ≡ (ok e, u) → Quiet s u
popped_entry-Quiet r e s u h = ground arith

decode_job-Quiet : (e : Entry) (j : Job) (s u : Server) → decode_job e s ≡ (ok j, u) → Quiet s u
decode_job-Quiet e j s u h = ground arith

-- A round up to its checks.
pub round-parts :
    (now : ℕ) (keys : List Key) (o : Option Job) (s t : Server)
    → round perform now keys s ≡ (ok o, t)
    → (e : Entry) × (j : Job) × (st : ℤ × Bool) × (u : Server) × Quiet s u
      × (st ≡ type_settings u.store j.type)
      × (admit perform now e j st u ≡ (ok o, t))
unfolding round
round-parts now keys o s t h =
    let (r, u, m, h1) = >>=-ok (send perform (brpop keys)) _ s h in
    let (e, v, n, h2) = >>=-ok (popped_entry r) _ u h1 in
    let (k, w, d, h3) = >>=-ok (decode_job e) _ v h2 in
    let (st, x, g, h4) = >>=-ok (get_job_type_state perform k.type) _ w h3 in
    let (hs, f) = brpop-keeps keys r s u m in
    let (eq, same, f') = get_job_type_state-reads k.type st w x g in
    let q : Quiet s w =
      Quiet-trans (record { hashes = hs; faultless = f })
        (Quiet-trans (popped_entry-Quiet r e u v n) (decode_job-Quiet e k v w d)) in
    (
      e,
      k,
      st,
      x,
      Quiet-trans q (record { hashes = ap (λ d. d.hashes) same; faultless = f' }),
      eq ∙ ap (λ d. type_settings d k.type) (sym same),
      h4,
    )

pub round-Granted :
    (now : ℕ) (keys : List Key) (j : Job) (s t : Server)
    → round perform now keys s ≡ (ok (some j), t)
    → Granted now s j t
round-Granted now keys j s t h =
    let (e, k, st, u, q, eq, a) = round-parts now keys (some j) s t h in
    Granted-earlier q (admit-Granted now e k j st u t eq a)
