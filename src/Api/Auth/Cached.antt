-- ===== src/Api/Auth/Cached.antt =====
-- What the cache of verified keys may answer.
use task_queue_system.Prelude.{
  ℕ, ◌+◌, ◌≤◌, ◌≡◌, refl, ◌≢◌, ◌⊎◌, inl, inr, ite, Option, none, some, List, [], ◌∷◌, arith,
  String_discrete, String,
}
use task_queue_system.Prelude.{ite-intro}
use task_queue_system.Prelude.Map.{insert, lookup, lookup-insert}
use task_queue_system.Session.{Store}
use task_queue_system.Api.Auth.{
  Gate, Visit, Handler, Outcome, ApiKeyCache, cache_get, cache_set, cache_lifetime, require_auth,
  raw_key, by_key, by_cache, by_cookie, by_session, verified, unless_expired, served, key_context,
  invalid_key,
}

-- The cache is left alone, or it takes an answer of the store.
abbrev Changed : ApiKeyCache → Visit → ApiKeyCache → Type 0
Changed c v d =
    (d ≡ c) ⊎ ((h : String) × (t : String) × (v.verify h ≡ some t) × (d ≡ cache_set c v.after h t))

verified-Changed :
    (g : Gate) (v : Visit) (h : String) (o : Option String) (next : Handler)
    → v.verify h ≡ o
    → Changed g.cache v (verified g v.after h o next).1.cache
unfolding verified
verified-Changed g v h none next e = inl refl
verified-Changed g v h (some t) next e = inr (h, t, e, refl)

by_cache-Changed :
    (g : Gate) (v : Visit) (h : String) (o : Option String) (next : Handler)
    → Changed g.cache v (by_cache g v h o next).1.cache
unfolding by_cache
by_cache-Changed g v h none next = verified-Changed g v h (v.verify h) next refl
by_cache-Changed g v h (some t) next = inl refl

by_cookie-cache :
    (g : Gate) (now : ℕ) (c : Option String) (next : Handler)
    → (by_cookie g now c next).1.cache ≡ g.cache
unfolding by_cookie by_session
by_cookie-cache g now none next = refl
by_cookie-cache g now (some id) next = ground arith

module _ (hash : String → String) (api_key : String) where
  require_auth-Changed :
      (g : Gate) (v : Visit) (next : Handler)
      → Changed g.cache v (require_auth hash api_key g v next).1.cache
  unfolding require_auth by_key
  require_auth-Changed g v next =
      ite-intro P (String_discrete (raw_key v.request) "") _ _
        (λ _. inl (by_cookie-cache g v.now v.request.cookie next))
        (λ _.
          ite-intro P (String_discrete api_key "") _ _ (λ _. cached)
            (λ _.
              ite-intro P (String_discrete (raw_key v.request) api_key) _ _ (λ _. inl refl)
                (λ _. cached)))
    where
      P : Outcome × Gate → Type 0
      P r = Changed g.cache v r.1.cache

      k : String
      k = hash (raw_key v.request)

      cached : P (by_cache g v k (cache_get g.cache v.now k) next)
      cached = by_cache-Changed g v k (cache_get g.cache v.now k) next

cache_get-set :
    (c : ApiKeyCache) (after now : ℕ) (h k t t' : String)
    → cache_get (cache_set c after h t) now k ≡ some t'
    → ((h ≡ k) × (t ≡ t') × (now ≤ after + cache_lifetime)) ⊎ (cache_get c now k ≡ some t')
unfolding cache_get cache_set unless_expired
cache_get-set c after now h k t t' e = elim (String_discrete h k) [
  | yes p ↦ inl (ground (arith, found, p))
  | no n ↦ inr (ground (arith, found, n))
]
  where
    found :
        lookup String_discrete k (
          insert String_discrete h
            (record { tenant_id = t; expires_at = after + cache_lifetime })
            c)
        ≡ ite
            (String_discrete h k)
            (some (record { tenant_id = t; expires_at = after + cache_lifetime }))
            (lookup String_discrete k c)
    found =
        lookup-insert String_discrete h k
          (record { tenant_id = t; expires_at = after + cache_lifetime }) c

-- Visits one after the other, the last one first, each with the sessions that it finds.
abbrev pub Visits : Type 0
Visits = List (Store × Visit)

-- One of the visits found the key of hash `h` to be that of `t`, at most a minute before `now`.
abbrev pub Verified : String → String → ℕ → Visits → Type 0
Verified h t now [] = ⊥
Verified h t now ((s, v) ∷ vs) =
    ((v.verify h ≡ some t) × (now ≤ v.after + cache_lifetime)) ⊎ Verified h t now vs

module _ (hash : String → String) (api_key : String) where
  -- The cache after the visits.
  unfoldable pub cache_after : Visits → ApiKeyCache
  cache_after [] = []
  cache_after ((s, v) ∷ vs) =
      (require_auth hash api_key (record { cache = cache_after vs; sessions = s }) v served).1.cache

  cache_get-Verified :
      (vs : Visits) (now : ℕ) (h t : String)
      → cache_get (cache_after vs) now h ≡ some t
      → Verified h t now vs
  unfolding cache_get unless_expired cache_after lookup
  cache_get-Verified [] now h t e = ground arith
  cache_get-Verified ((s, v) ∷ vs) now h t e =
      elim (require_auth-Changed hash api_key (record { cache = cache_after vs; sessions = s }) v
        served) [
          | inl same ↦ inr (cache_get-Verified vs now h t (rw (← same) e))
          | inr (k, u, answer, set) ↦
              elim (cache_get-set (cache_after vs) v.after now k h u t (rw (← set) e)) [
                | inl (p, q, soon) ↦ inl (ground (arith, answer, p, q), soon)
                | inr old ↦ inr (cache_get-Verified vs now h t old)
              ]
        ]

  -- Why a key is accepted: it is the operator's, or the store verifies it, now or in the last minute.
  abbrev Granted : Visits → Visit → String → Type 0
  Granted vs v t =
      ((api_key ≢ "") × (raw_key v.request ≡ api_key) × (t ≡ "operator"))
      ⊎ ((v.verify (hash (raw_key v.request)) ≡ some t)
          ⊎ Verified (hash (raw_key v.request)) t v.now vs)

  abbrev pub Answered : Visits → Visit → Outcome × Gate → Type 0
  Answered vs v r =
      ((t : String) × (r.0 ≡ served (key_context t)) × Granted vs v t)
      ⊎ ((r.0 ≡ invalid_key) × (v.verify (hash (raw_key v.request)) ≡ none))

  verified-Answered :
      (vs : Visits) (g : Gate) (v : Visit) (o : Option String)
      → v.verify (hash (raw_key v.request)) ≡ o
      → Answered vs v (verified g v.after (hash (raw_key v.request)) o served)
  unfolding verified
  verified-Answered vs g v none e = inr (refl, e)
  verified-Answered vs g v (some t) e = inl (t, refl, inr (inl e))

  by_cache-Answered :
      (vs : Visits) (g : Gate) (v : Visit) (o : Option String)
      → ((t : String) → o ≡ some t → Verified (hash (raw_key v.request)) t v.now vs)
      → Answered vs v (by_cache g v (hash (raw_key v.request)) o served)
  unfolding by_cache
  by_cache-Answered vs g v none c = verified-Answered vs g v _ refl
  by_cache-Answered vs g v (some t) c = inl (t, refl, inr (inr (c t refl)))

  -- A request that brings a key reaches the handler as the tenant of the key, which is then the
  -- operator's own key, or verified by the store now or by a visit at most a minute ago; or it is
  -- refused with status 401, and then the store does not verify the key now.
  pub require_auth-Answered :
      (vs : Visits) (s : Store) (v : Visit)
      → raw_key v.request ≢ ""
      → Answered vs v
          (require_auth hash api_key (record { cache = cache_after vs; sessions = s }) v served)
  unfolding require_auth by_key
  require_auth-Answered vs s v given =
      ite-intro (Answered vs v) (String_discrete (raw_key v.request) "") _ _
        (λ e. elim (given e) [ ])
        (λ _.
          ite-intro (Answered vs v) (String_discrete api_key "") _ _ (λ _. cached)
            (λ m.
              ite-intro (Answered vs v) (String_discrete (raw_key v.request) api_key) _ _
                (λ e. inl ("operator", refl, inl (m, e, refl))) (λ _. cached)))
    where
      g : Gate
      g = record { cache = cache_after vs; sessions = s }

      k : String
      k = hash (raw_key v.request)

      cached : Answered vs v (by_cache g v k (cache_get g.cache v.now k) served)
      cached =
          by_cache-Answered vs g v (cache_get g.cache v.now k)
            (λ t e. cache_get-Verified vs v.now k t e)
