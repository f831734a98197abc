-- ===== src/Session/Lifetime.antt =====
-- When a session is honoured, and that the store stays a map.
use task_queue_system.Prelude.{
  if-intro, ℕ, ◌+◌, ◌≤◌, ◌<◌, ◌≡◌, refl, ◌∙◌, ◌≢◌, ◌↔◌, inl, inr, if_pos, Bool, true, false, Option,
  none, some, List, [], ◌∷◌, arith, String_discrete, String, ltb, length, Option-cases,
}
use task_queue_system.Prelude.Map.{
  retain, Unique, lookup-insert, lookup-erase, lookup-retain, insert-Unique, erase-Unique,
  retain-Unique,
}
use task_queue_system.Session.{
  create_with, Session, Store, find, put, drop_item, create, get, touch, delete, cleanup,
  count_expired, live_at, get_found, touch_found,
}

-- `Get` returns a session exactly if it is stored and has not expired. It then changes nothing; an
-- expired session is dropped, and every other session stays as it was.
pub get_lem :
    (s : Store) (now : ℕ) (id : String)
    → ((sess : Session)
        → ((get s now id).0 ≡ some sess) ↔ ((find id s ≡ some sess) × (now ≤ sess.expires_at)))
      × ((j : String) → j ≢ id → find j (get s now id).1 ≡ find j s)
      × ((get s now id).0 ≡ none → find id (get s now id).1 ≡ none)
unfolding get
get_lem s now id = (
  λ sess. (λ e. ground arith, λ e. ground arith),
  λ j ne. ground (arith, lookup-erase String_discrete id j s.items),
  λ e. ground (arith, lookup-erase String_discrete id id s.items),
)

-- A session that `Create` returns is honoured until its time to live from that moment has passed, and
-- refused after it.
get-create :
    (s : Store) (now later : ℕ) (username role id csrf : String)
    → let (sess, t) = create s now username role (some id) (some csrf) in
      (later ≤ now + s.ttl → (get t later id).0 ≡ sess)
      × (now + s.ttl < later → (get t later id).0 ≡ none)
unfolding create get
get-create s now later username role id csrf =
    (λ soon. ground (arith, found), λ late. ground (arith, found))
  where
    sess : Session
    sess = record {
      id = id;
      username = username;
      role = role;
      csrf = csrf;
      expires_at = now + s.ttl;
    }

    found : find id (put id sess s) ≡ some sess
    found =
        lookup-insert String_discrete id id sess s.items ∙ if_pos (String_discrete id id) refl _ _

-- A session that `Touch` accepts is honoured until its time to live from that moment has passed, and
-- refused after it.
get-touch :
    (s : Store) (now later : ℕ) (id : String)
    → (touch s now id).0 ≡ true
    → let t = (touch s now id).1 in
      (later ≤ now + s.ttl → (get t later id).0 ≢ none)
      × (now + s.ttl < later → (get t later id).0 ≡ none)
unfolding touch get
get-touch s now later id ok = elim (Option-cases (find id s)) [
  | inl e ↦ ground arith
  | inr (sess, e) ↦
      let sess' : Session = record sess { expires_at = now + s.ttl } in
      let found =
        lookup-insert String_discrete id id sess' s.items
        ∙ if_pos (String_discrete id id) refl _ _ in
      (λ soon. ground (arith, found, e), λ late. ground (arith, found, e))
]

-- A deleted session is refused at once, whatever the time.
get-delete : (s : Store) (now : ℕ) (id : String) → (get (delete s id) now id).0 ≡ none
unfolding get delete
get-delete s now id = ground (arith, lookup-erase String_discrete id id s.items)

count-retain :
    (now : ℕ) (m : List (String × Session))
    → count_expired now m + length (retain String_discrete (live_at now) m) ≡ length m
unfolding count_expired retain
count-retain now [] = refl
count-retain now ((id, sess) ∷ m) = ground (arith, count-retain now m)

-- `Cleanup` drops exactly the expired sessions, and its result is how many entries that are.
cleanup_lem :
    (s : Store) (now : ℕ)
    → Unique String_discrete s.items
    → ((id : String) (sess : Session)
        → (find id (cleanup s now).1 ≡ some sess)
          ↔ ((find id s ≡ some sess) × (now ≤ sess.expires_at)))
      × ((cleanup s now).0 + length (cleanup s now).1.items ≡ length s.items)
unfolding cleanup
cleanup_lem s now u = (
  λ id sess.
      let e = lookup-retain String_discrete (live_at now) id s.items u in
      (λ h. ground (arith, e), λ h. ground (arith, e)),
  count-retain now s.items,
)

abbrev IsMap : Store → Type 0
IsMap s = Unique String_discrete s.items

create_with-IsMap :
    (s : Store) (now : ℕ) (user role : String) (a b : Option String)
    → IsMap s
    → IsMap (create_with s now user role a b).1
unfolding create_with
create_with-IsMap s now user role none b u = u
create_with-IsMap s now user role (some id) none u = u
create_with-IsMap s now user role (some id) (some csrf) u =
    insert-Unique String_discrete id _ s.items u

get_found-IsMap :
    (s : Store) (now : ℕ) (id : String) (o : Option Session)
    → IsMap s
    → IsMap (get_found s now id o).1
unfolding get_found
get_found-IsMap s now id none u = u
get_found-IsMap s now id (some sess) u =
    if-intro {A = Option Session × Store} (λ r. IsMap r.1) (ltb sess.expires_at now)
      (none, drop_item id s) (some sess, s) (erase-Unique String_discrete id s.items u) u

touch_found-IsMap :
    (s : Store) (now : ℕ) (id : String) (o : Option Session)
    → IsMap s
    → IsMap (touch_found s now id o).1
unfolding touch_found
touch_found-IsMap s now id none u = u
touch_found-IsMap s now id (some sess) u =
    if-intro {A = Bool × Store} (λ r. IsMap r.1) (ltb sess.expires_at now) (false, drop_item id s)
      (true, put id (record sess { expires_at = now + s.ttl }) s)
      (erase-Unique String_discrete id s.items u) (insert-Unique String_discrete id _ s.items u)

-- Every method keeps the store a map, with one entry to an identifier.
store-Unique :
    (s : Store) (now : ℕ) (user role id : String) (a b : Option String)
    → Unique String_discrete s.items
    → Unique String_discrete (create s now user role a b).1.items
      × Unique String_discrete (get s now id).1.items
      × Unique String_discrete (touch s now id).1.items
      × Unique String_discrete (delete s id).items
      × Unique String_discrete (cleanup s now).1.items
unfolding create get touch delete cleanup
store-Unique s now user role id a b u = (
  create_with-IsMap s now user role a b u,
  get_found-IsMap s now id (find id s) u,
  touch_found-IsMap s now id (find id s) u,
  erase-Unique String_discrete id s.items u,
  retain-Unique String_discrete (live_at now) s.items u,
)
