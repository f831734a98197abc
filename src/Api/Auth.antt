-- ===== src/Api/Auth.antt =====
-- internal/api/middleware/session.go and context.go: who may call a route. A middleware is a function
-- of the next handler. A visit is one request with what it reads: the clock before and after the
-- store's `VerifyClient` (`now`, `after`), and the answers of that method (`verify`, `none` for an
-- error). `hash` is the hexadecimal SHA-256, `api_key` the operator's key of the configuration.
pub mod Cached
pub mod Guarded
use task_queue_system.Prelude.{
  ℕ, zero, suc, ◌+◌, ◌-◌, ◌*◌, ◌/◌, ◌%◌, ◌^◌, ◌≤◌, ◌<◌, ◌≡◌, refl, sym, ap, ◌∙◌, ◌≢◌, ◌↔◌, ◌⊎◌, inl,
  inr, ite, if_pos, if_neg, Bool, true, false, not, ◌&&◌, ◌||◌, Option, none, some, List, [], ◌∷◌,
  ◌++◌, map, arith, dec_lt, dec_le, ℕ_discrete, String_discrete, String, ltb, leb, ◌==◌,
  if◌then◌else◌, length, Bool-cases, Option-cases, if-intro,
}
use task_queue_system.Prelude.Map.{lookup, insert}
use task_queue_system.Session.{Session, Store, get}

-- `http.Request`, as far as the middleware reads it; a missing header or parameter reads as "".
pub record Request : Type 0 where
  pub method : String
  pub path : String
  pub header_key : String
  pub query_key : String
  pub cookie : Option String
  pub csrf_token : String

-- The values of the request's context.
pub record Context : Type 0 where
  pub session : Option Session
  pub auth_type : Option String
  pub role : Option String
  pub tenant_id : Option String

-- What a request comes to: it reaches the handler, or an error is sent.
pub data Outcome : Type 0 where
  served : Context → Outcome
  refused : (status : ℕ) (code message : String) → Outcome

abbrev pub Handler : Type 0
Handler = Context → Outcome

abbrev pub auth_type_api_key : String
auth_type_api_key = "api_key"

abbrev pub auth_type_session : String
auth_type_session = "session"

abbrev pub role_admin : String
role_admin = "admin"

abbrev or_empty : Option String → String
or_empty none = ""
or_empty (some s) = s

unfoldable pub role_from_context : Context → String
role_from_context ctx = or_empty ctx.role

unfoldable pub auth_type_from_context : Context → String
auth_type_from_context ctx = or_empty ctx.auth_type

unfoldable pub tenant_id_from_context : Context → String
tenant_id_from_context ctx = or_empty ctx.tenant_id

unfoldable pub is_client_tenant : String → Bool
is_client_tenant t =
    ite (String_discrete t "") false (ite (String_discrete t "operator") false true)

-- `apiKeyCache`.
pub record ApiKeyCacheEntry : Type 0 where
  pub tenant_id : String
  pub expires_at : ℕ

abbrev pub ApiKeyCache : Type 0
ApiKeyCache = List (String × ApiKeyCacheEntry)

abbrev pub cache_lifetime : ℕ
cache_lifetime = 60000000000

unless_expired : ℕ → Option ApiKeyCacheEntry → Option String
unless_expired now none = none
unless_expired now (some e) = if ltb e.expires_at now then none else some e.tenant_id

unfoldable pub cache_get : ApiKeyCache → ℕ → String → Option String
unfolding unless_expired
cache_get c now hash = unless_expired now (lookup String_discrete hash c)

unfoldable pub cache_set : ApiKeyCache → ℕ → String → String → ApiKeyCache
cache_set c now hash tenant =
    insert String_discrete hash (record { tenant_id = tenant; expires_at = now + cache_lifetime }) c

-- What the requests share: the cache of the middleware and the sessions.
pub record Gate : Type 0 where
  pub cache : ApiKeyCache
  pub sessions : Store

pub record Visit : Type 0 where
  pub request : Request
  pub now : ℕ
  pub after : ℕ
  pub verify : String → Option String

unfoldable pub is_sse_endpoint : String → Bool
is_sse_endpoint path =
    ite (String_discrete path "/events") true
      (ite (String_discrete path "/api/v1/events") true false)

unfoldable pub state_changing : String → Bool
state_changing m = ite (String_discrete m "POST") true (
    ite (String_discrete m "PUT") true
      (ite (String_discrete m "PATCH") true (ite (String_discrete m "DELETE") true false)))

unfoldable pub raw_key : Request → String
raw_key r =
    ite (String_discrete r.header_key "")
      (if is_sse_endpoint r.path then r.query_key else r.header_key) r.header_key

abbrev pub key_context : String → Context
key_context tenant = record {
  session = none;
  auth_type = some auth_type_api_key;
  role = some role_admin;
  tenant_id = some tenant;
}

abbrev pub session_context : Session → Context
session_context sess = record {
  session = some sess;
  auth_type = some auth_type_session;
  role = some sess.role;
  tenant_id = none;
}

abbrev pub invalid_key : Outcome
invalid_key = refused 401 "UNAUTHORIZED" "invalid API key"

abbrev pub no_credentials : Outcome
no_credentials = refused 401 "UNAUTHORIZED" "missing or invalid credentials"

-- The answer of the store, where the cache had none.
verified : Gate → ℕ → String → Option String → Handler → Outcome × Gate
verified g after h none next = (invalid_key, g)
verified g after h (some t) next =
    (next (key_context t), record g { cache = cache_set g.cache after h t })

by_cache : Gate → Visit → String → Option String → Handler → Outcome × Gate
unfolding verified
by_cache g v h none next = verified g v.after h (v.verify h) next
by_cache g v h (some t) next = (next (key_context t), g)

by_session : Gate → Option Session × Store → Handler → Outcome × Gate
by_session g (none, s) next = (no_credentials, record g { sessions = s })
by_session g (some sess, s) next = (next (session_context sess), record g { sessions = s })

by_cookie : Gate → ℕ → Option String → Handler → Outcome × Gate
unfolding by_session
by_cookie g now none next = (no_credentials, g)
by_cookie g now (some id) next =
    ite (String_discrete id "") (no_credentials, g) (by_session g (get g.sessions now id) next)

-- `RequireRole`.
unfoldable pub require_role : String → Handler → Handler
require_role role next ctx =
    ite (String_discrete (role_from_context ctx) role) (next ctx)
      (refused 403 "FORBIDDEN" "insufficient permissions")

csrf_failed : Outcome
csrf_failed = refused 403 "CSRF_FAILED" "missing or invalid CSRF token"

token_of : Option Session → String → Handler → Handler
unfolding csrf_failed
token_of none token next ctx = csrf_failed
token_of (some sess) token next ctx = ite (String_discrete token sess.csrf) (next ctx) csrf_failed

-- `CSRFProtect`.
unfoldable pub csrf_protect : Request → Handler → Handler
unfolding token_of state_changing auth_type_from_context
csrf_protect r next ctx =
    ite (String_discrete (auth_type_from_context ctx) auth_type_session)
      (if state_changing r.method then token_of ctx.session r.csrf_token next ctx else next ctx)
      (next ctx)

module _ (hash : String → String) (api_key : String) where
  by_key : Gate → Visit → String → Handler → Outcome × Gate
  unfolding by_cache
  by_key g v key next =
      let checked = by_cache g v (hash key) (cache_get g.cache v.now (hash key)) next in
      ite (String_discrete api_key "") checked
        (ite (String_discrete key api_key) (next (key_context "operator"), g) checked)

  -- `RequireAuth`.
  unfoldable pub require_auth : Gate → Visit → Handler → Outcome × Gate
  unfolding by_key by_cookie
  require_auth g v next =
      ite (String_discrete (raw_key v.request) "") (by_cookie g v.now v.request.cookie next)
        (by_key g v (raw_key v.request) next)

  -- The chains of routes.go: `read`, `write` and the one of the logout.
  unfoldable pub read_route : Gate → Visit → Handler → Outcome × Gate
  read_route g v next = require_auth g v next

  unfoldable pub write_route : Gate → Visit → Handler → Outcome × Gate
  write_route g v next = require_auth g v (csrf_protect v.request (require_role role_admin next))

  unfoldable logout_route : Gate → Visit → Handler → Outcome × Gate
  logout_route g v next = require_auth g v (csrf_protect v.request next)
