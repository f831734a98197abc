-- ===== src/Api/Auth/Guarded.antt =====
-- Who reaches the handler of a route that changes something.
use task_queue_system.Prelude.{
  ◌⊎◌, ℕ, ◌≤◌, ◌≡◌, refl, sym, ap, ◌∙◌, ◌≢◌, ◌↔◌, inl, inr, ite, if_neg, Bool, true, false, Option,
  none, some, arith, String_discrete, String, if◌then◌else◌, Option-cases,
}
use task_queue_system.Prelude.{ite-intro}
use task_queue_system.Session.{Session, Store, get, find}
use task_queue_system.Session.Lifetime.{get_lem}
use task_queue_system.Api.Auth.{
  refused, csrf_failed, Request, Gate, Visit, Handler, Outcome, Context, cache_get, require_auth,
  write_route, read_route, raw_key, by_key, by_cache, by_cookie, by_session, verified, served,
  key_context, session_context, csrf_protect, require_role, role_admin, state_changing, token_of,
  auth_type_from_context, role_from_context,
}

abbrev chain : Request → Handler
chain r = csrf_protect r (require_role role_admin served)

chain-key : (r : Request) (t : String) → chain r (key_context t) ≡ served (key_context t)
unfolding csrf_protect require_role auth_type_from_context role_from_context String_discrete
chain-key r t = refl

-- The methods of a request that changes something.
abbrev pub ChangesState : String → Type 0
ChangesState m = (m ≡ "POST") ⊎ (m ≡ "PUT") ⊎ (m ≡ "PATCH") ⊎ (m ≡ "DELETE")

state_changing-exact : (m : String) → (state_changing m ≡ true) ↔ ChangesState m
unfolding state_changing
state_changing-exact m = (λ h. ground arith, λ h. ground arith)

-- The session that the request's cookie names may call the route.
abbrev pub Permitted : Request → Session → Type 0
Permitted r sess = (sess.role ≡ role_admin) × (ChangesState r.method → r.csrf_token ≡ sess.csrf)

abbrev if_admin : Session → Outcome
if_admin sess =
    ite (String_discrete sess.role role_admin) (served (session_context sess))
      (refused 403 "FORBIDDEN" "insufficient permissions")

abbrev if_token : Request → Session → Outcome
if_token r sess =
    if state_changing r.method
    then ite (String_discrete r.csrf_token sess.csrf) (if_admin sess) csrf_failed
    else if_admin sess

chain-tests : (r : Request) (sess : Session) → chain r (session_context sess) ≡ if_token r sess
unfolding csrf_protect require_role auth_type_from_context role_from_context token_of
    String_discrete
chain-tests r sess = refl

-- A test that sends an error lets the request pass exactly if it holds.
ite-served :
    {X : Type 0} (d : Dec X) (o : Outcome) (status : ℕ) (code message : String) (ctx : Context)
    → (ite d o (refused status code message) ≡ served ctx) ↔ (X × (o ≡ served ctx))
ite-served (yes x) o status code message ctx = (λ e. (x, e), λ h. h.1)
ite-served (no n) o status code message ctx = (λ e. ground arith, λ h. elim (n h.0) [ ])

if-served :
    {X : Type 0} (b : Bool) (c o : Outcome) (ctx : Context)
    → (c ≡ served ctx) ↔ (X × (o ≡ served ctx))
    → ((if b then c else o) ≡ served ctx) ↔ ((b ≡ true → X) × (o ≡ served ctx))
if-served true c o ctx h = (λ e. (λ _. (h.0 e).0, (h.0 e).1), λ k. h.1 (k.0 refl, k.1))
if-served false c o ctx h = (λ e. (λ t. ground arith, e), λ k. k.1)

chain-session :
    (r : Request) (sess : Session) (ctx : Context)
    → (chain r (session_context sess) ≡ served ctx)
      ↔ (Permitted r sess × (ctx ≡ session_context sess))
unfolding csrf_failed
chain-session r sess ctx = rw (chain-tests r sess) (
  λ e.
      let (t, a) = token.0 e in
      let (q, s) = admin.0 a in
      ((q, λ m. t ((state_changing-exact r.method).1 m)), ground (arith, s)),
  λ ((q, t), c).
      token.1 (λ m. t ((state_changing-exact r.method).0 m), admin.1 (q, ap served (sym c))),
)
  where
    admin :
        (if_admin sess ≡ served ctx)
        ↔ ((sess.role ≡ role_admin) × (served (session_context sess) ≡ served ctx))
    admin = ite-served (String_discrete sess.role role_admin) _ _ _ _ ctx

    token : (if_token r sess ≡ served ctx) ↔ (
        (state_changing r.method ≡ true → r.csrf_token ≡ sess.csrf) × (if_admin sess ≡ served ctx))
    token =
        if-served (state_changing r.method) _ _ ctx
          (ite-served (String_discrete r.csrf_token sess.csrf) _ _ _ _ ctx)

-- The live session that a cookie names.
abbrev pub Named : Store → ℕ → Option String → Session → Type 0
Named s now cookie sess =
    (id : String) × (cookie ≡ some id)
    × (id ≢ "")
    × (find id s ≡ some sess)
    × (now ≤ sess.expires_at)

by_session-served :
    (g : Gate) (r : Request) (o : Option Session) (s : Store) (ctx : Context)
    → ((by_session g (o, s) (chain r)).0 ≡ served ctx)
      ↔ ((sess : Session) × (o ≡ some sess) × Permitted r sess × (ctx ≡ session_context sess))
unfolding by_session
by_session-served g r none s ctx = (λ e. ground arith, λ h. ground arith)
by_session-served g r (some sess) s ctx = (
  λ e. let (p, c) = (chain-session r sess ctx).0 e in (sess, refl, p, c),
  λ (sess', e, p, c).
      let q : sess ≡ sess' = ground (arith, e) in rw q ((chain-session r sess' ctx).1 (p, c)),
)

by_cookie-served :
    (g : Gate) (now : ℕ) (r : Request) (c : Option String) (ctx : Context)
    → ((by_cookie g now c (chain r)).0 ≡ served ctx) ↔ (
        (sess : Session) × Named g.sessions now c sess
        × Permitted r sess
        × (ctx ≡ session_context sess))
unfolding by_cookie
by_cookie-served g now r none ctx = (λ e. ground arith, λ h. ground arith)
by_cookie-served g now r (some id) ctx =
    ite-intro P (String_discrete id "") _ _
      (λ e. (
        λ h. ground arith,
        λ (sess, (j, same, ne, _, _), _, _). elim (ne (ground (arith, same, e))) [ ],
      ))
      (λ n. (
        λ h.
            let (sess, found, p, c) = by_get.0 h in
            let live = ((get_lem g.sessions now id).0 sess).0 found in
            (sess, (id, refl, n, live.0, live.1), p, c),
        λ (sess, (j, same, _, found, soon), p, c).
            let q : id ≡ j = ground (arith, same) in
            by_get.1 (sess, ((get_lem g.sessions now id).0 sess).1 (rw q found, soon), p, c),
      ))
  where
    P : Outcome × Gate → Type 0
    P o = (o.0 ≡ served ctx) ↔ (
        (sess : Session) × Named g.sessions now (some id) sess
        × Permitted r sess
        × (ctx ≡ session_context sess))

    by_get : ((by_session g (get g.sessions now id) (chain r)).0 ≡ served ctx) ↔ (
        (sess : Session) × ((get g.sessions now id).0 ≡ some sess)
        × Permitted r sess
        × (ctx ≡ session_context sess))
    by_get = by_session-served g r (get g.sessions now id).0 (get g.sessions now id).1 ctx

module _ (hash : String → String) (api_key : String) where
  by_cache-same :
      (g : Gate) (v : Visit) (h : String) (o : Option String)
      → by_cache g v h o (chain v.request) ≡ by_cache g v h o served
  unfolding by_cache verified
  by_cache-same g v h (some t) = rw (chain-key v.request t)
  by_cache-same g v h none = elim (Option-cases (v.verify h)) [
    | inl e ↦ rw e
    | inr (t, e) ↦ rw (e, chain-key v.request t)
  ]

  by_key-same :
      (g : Gate) (v : Visit) (key : String)
      → by_key hash api_key g v key (chain v.request) ≡ by_key hash api_key g v key served
  unfolding by_key
  by_key-same g v key = rw (
    by_cache-same g v (hash key) (cache_get g.cache v.now (hash key)),
    chain-key v.request "operator",
  )

  -- A request with a key fares on a route of `write` as on one of `read`: it needs no CSRF token, and
  -- its role is that of an admin. A request without a key reaches the handler exactly if its cookie
  -- names a session that is stored and has not expired, whose role is admin, and, if the method is
  -- POST, PUT, PATCH or DELETE, it carries that session's CSRF token; the handler then sees that session.
  pub write_route-Guarded :
      (g : Gate) (v : Visit)
      → (raw_key v.request ≢ ""
          → write_route hash api_key g v served ≡ read_route hash api_key g v served)
        × (raw_key v.request ≡ ""
            → (ctx : Context)
            → ((write_route hash api_key g v served).0 ≡ served ctx) ↔ (
                (sess : Session) × Named g.sessions v.now v.request.cookie sess
                × Permitted v.request sess
                × (ctx ≡ session_context sess)))
  unfolding write_route read_route require_auth
  write_route-Guarded g v = (
    λ ne.
        if_neg (String_discrete (raw_key v.request) "") ne _ _
        ∙ by_key-same g v (raw_key v.request)
        ∙ sym (if_neg (String_discrete (raw_key v.request) "") ne _ _),
    λ e ctx.
        ite-intro {A = Outcome × Gate}
          (λ o. (o.0 ≡ served ctx) ↔ (
            (sess : Session) × Named g.sessions v.now v.request.cookie sess
            × Permitted v.request sess
            × (ctx ≡ session_context sess)))
          (String_discrete (raw_key v.request) "") _ _
          (λ _. by_cookie-served g v.now v.request v.request.cookie ctx) (λ n. elim (n e) [ ]),
  )
