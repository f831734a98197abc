-- ===== src/Session.antt =====
-- internal/api/session/session.go: the operator sessions (this file) and the login limiter (`Login`).
-- Each method holds the store's lock, so it is one step; `now` is the clock's reading, and the two
-- tokens that `Create` draws from crypto/rand are arguments, `none` where the reading fails.
pub mod Lifetime
pub mod Login
use task_queue_system.Prelude.{
  ℕ, zero, suc, ◌+◌, ◌-◌, ◌*◌, ◌/◌, ◌%◌, ◌^◌, ◌≤◌, ◌<◌, ◌≡◌, refl, sym, ap, ◌∙◌, ◌≢◌, ◌↔◌, ◌⊎◌, inl,
  inr, ite, if_pos, if_neg, Bool, true, false, not, ◌&&◌, ◌||◌, Option, none, some, List, [], ◌∷◌,
  ◌++◌, map, arith, dec_lt, dec_le, ℕ_discrete, String_discrete, String, ltb, leb, ◌==◌,
  if◌then◌else◌, length, Bool-cases, Option-cases,
}
use task_queue_system.Prelude.Map.{lookup, insert, erase, retain}

pub record Session : Type 0 where
  pub id : String
  pub username : String
  pub role : String
  pub csrf : String
  pub expires_at : ℕ

-- `Store`.
pub record Store : Type 0 where
  pub ttl : ℕ
  pub items : List (String × Session)

unfoldable pub new_store : ℕ → Store
new_store ttl = record { ttl = ttl; items = [] }

abbrev pub find : String → Store → Option Session
find id s = lookup String_discrete id s.items

abbrev put : String → Session → Store → Store
put id sess s = record s { items = insert String_discrete id sess s.items }

abbrev drop_item : String → Store → Store
drop_item id s = record s { items = erase String_discrete id s.items }

create_with : Store → ℕ → String → String → Option String → Option String → Option Session × Store
create_with s now username role none csrf = (none, s)
create_with s now username role (some id) none = (none, s)
create_with s now username role (some id) (some csrf) =
    let sess : Session = record {
      id = id;
      username = username;
      role = role;
      csrf = csrf;
      expires_at = now + s.ttl;
    } in
    (some sess, put id sess s)

-- `Create`; the first error of `newToken` ends it.
unfoldable pub create :
    Store → ℕ → String → String → Option String → Option String → Option Session × Store
unfolding create_with
create s now username role id csrf = create_with s now username role id csrf

get_found : Store → ℕ → String → Option Session → Option Session × Store
get_found s now id none = (none, s)
get_found s now id (some sess) =
    if ltb sess.expires_at now then (none, drop_item id s) else (some sess, s)

-- `Get`.
unfoldable pub get : Store → ℕ → String → Option Session × Store
unfolding get_found
get s now id = get_found s now id (find id s)

touch_found : Store → ℕ → String → Option Session → Bool × Store
touch_found s now id none = (false, s)
touch_found s now id (some sess) =
    if ltb sess.expires_at now
    then (false, drop_item id s)
    else (true, put id (record sess { expires_at = now + s.ttl }) s)

-- `Touch`.
unfoldable pub touch : Store → ℕ → String → Bool × Store
unfolding touch_found
touch s now id = touch_found s now id (find id s)

-- `Delete`.
unfoldable pub delete : Store → String → Store
delete s id = drop_item id s

abbrev live_at : ℕ → String → Session → Bool
live_at now id sess = not (ltb sess.expires_at now)

-- `Cleanup`: the entries left, and the number of those deleted.
count_expired : ℕ → List (String × Session) → ℕ
count_expired now [] = 0
count_expired now ((id, sess) ∷ m) =
    let n = count_expired now m in if ltb sess.expires_at now then n + 1 else n

unfoldable pub cleanup : Store → ℕ → ℕ × Store
unfolding count_expired
cleanup s now =
    (count_expired now s.items, record s { items = retain String_discrete (live_at now) s.items })
