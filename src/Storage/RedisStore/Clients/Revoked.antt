-- ===== src/Storage/RedisStore/Clients/Revoked.antt =====
-- `RevokeClient` of `RedisStore`.
use task_queue_system.Storage.RedisStore.{all_pages-cons, all_pages}
use task_queue_system.Redis.Commands.{set_has, put_string, value, string_at, perform}
use task_queue_system.Redis.Data.{ident, client, Cell}
use task_queue_system.Redis.Client.{
  io_failed, by_document, Documented, bind_result, not_found, err, ok, Result, Server, send, Call,
}
use task_queue_system.Storage.RedisStore.Clients.{
  revoke_each, revoke_client, verify_client, is_tenant,
}
use task_queue_system.Prelude.{
  ◌≡◌, refl, ap, ◌∙◌, ◌≢◌, ite, Bool, true, false, ◌&&◌, Option, none, some, List, [], ◌∷◌, ◌++◌,
  arith, String_discrete, String, if◌then◌else◌,
}

-- The key holds the tenant.
abbrev pub holds : String → Option Cell → Bool
holds tenant none = false
holds tenant (some c) = is_tenant tenant (ok (value c.entry))

-- What is left of a key that is among the scanned ones, or not.
abbrev pub cleared : String → Bool → Option Cell → Option Cell
cleared tenant found o = if found && holds tenant o then none else o

record Cleared (tenant : String) (hs : List String) (s : Server) (a : Result (Unit {0}) × Server)
    : Type 0 where
  answer : a.0 ≡ ok tt
  delivers : a.1.faults ≡ []
  keys :
      (h : String)
      → string_at a.1.store (client h)
        ≡ cleared tenant (set_has h hs) (string_at s.store (client h))

-- The store after one round of the loop.
abbrev after_key : String → String → Server → Server
after_key tenant h s = record {
  store =
      if holds tenant (string_at s.store (client h))
      then put_string s.store (client h) none
      else s.store;
  faults = [];
}

revoke_each-cons :
    (tenant h : String) (hs : List String) (s : Server)
    → s.faults ≡ []
    → revoke_each perform tenant (h ∷ hs) s ≡ revoke_each perform tenant hs (after_key tenant h s)
unfolding revoke_each send perform
revoke_each-cons tenant h hs s f = ground arith

after_key-cleared :
    (tenant h i : String) (s : Server)
    → string_at (after_key tenant h s).store (client i)
      ≡ cleared tenant (ite (String_discrete h i) true false) (string_at s.store (client i))
after_key-cleared tenant h i s = ground arith

revoke_each-Cleared :
    (tenant : String) (hs : List String) (s : Server)
    → s.faults ≡ []
    → Cleared tenant hs s (revoke_each perform tenant hs s)
unfolding set_has
revoke_each-Cleared tenant [] s f =
    unfold revoke_each in record { answer = refl; delivers = f; keys = λ i. ground arith }
revoke_each-Cleared tenant (h ∷ hs) s f =
    let u = after_key tenant h s in
    let rest = revoke_each-Cleared tenant hs u refl in
    rw (revoke_each-cons tenant h hs s f) (record {
      answer = rest.answer;
      delivers = rest.delivers;
      keys = λ i. ground (arith, rest.keys i, after_key-cleared tenant h i s);
    })

revoke_each-append :
    (tenant : String) (hs gs : List String) (s : Server)
    → s.faults ≡ []
    → revoke_each perform tenant (hs ++ gs) s
      ≡ revoke_each perform tenant gs (revoke_each perform tenant hs s).1
revoke_each-append tenant [] gs s f = unfold revoke_each in refl
revoke_each-append tenant (h ∷ hs) gs s f =
    rw (revoke_each-cons tenant h (hs ++ gs) s f, revoke_each-cons tenant h hs s f)
      (revoke_each-append tenant hs gs (after_key tenant h s) refl)

revoke_client-all_pages :
    (tenant : String) (ps : List (Option (List String))) (hs : List String) (s : Server)
    → s.faults ≡ []
    → all_pages ps ≡ some hs
    → revoke_client perform tenant ps s ≡ revoke_each perform tenant hs s
unfolding revoke_client all_pages
revoke_client-all_pages tenant [] hs s f e = let e' : [] ≡ hs = cc in rw (← e', revoke_each) refl
revoke_client-all_pages tenant (none ∷ ps) hs s f e = cc
revoke_client-all_pages tenant (some xs ∷ ps) hs s f e =
    let (rest, q, same) = all_pages-cons xs ps e in
    let first = revoke_each-Cleared tenant xs s f in
    let t = (revoke_each perform tenant xs s).1 in
    rw (← same, revoke_each-append tenant xs rest s f)
      (ap (λ r. bind_result (r, t) (λ _. revoke_client perform tenant ps)) first.answer
        ∙ revoke_client-all_pages tenant ps rest t first.delivers q)

-- After a revocation: the answer for a scanned key of the tenant, and for a key that is not the tenant's.
abbrev Revokes :
    (tenant hash : String) → List (Option (List String)) → List String → Server → Call → Type 0
Revokes tenant hash ps hs s c =
    let t = (revoke_client c tenant ps s).1 in
    (set_has hash hs ≡ true
      → (verify_client c hash s).0 ≡ ok tenant
      → (verify_client c hash t).0 ≡ err not_found)
    × ((verify_client c hash s).0 ≢ ok tenant
        → (verify_client c hash t).0 ≡ (verify_client c hash s).0)

abbrev answer_of : Option Cell → Result String
answer_of none = err not_found
answer_of (some c) = elim c.entry [ ident t ↦ ok t | _ ↦ err io_failed ]

verify_client-answer_of :
    (hash : String) (s : Server)
    → s.faults ≡ []
    → (verify_client perform hash s).0 ≡ answer_of (string_at s.store (client hash))
unfolding verify_client send perform
verify_client-answer_of hash s f = ground arith

answer_of-cleared :
    (tenant : String) (found : Bool) (o : Option Cell)
    → (found ≡ true → answer_of o ≡ ok tenant → answer_of (cleared tenant found o) ≡ err not_found)
      × (answer_of o ≢ ok tenant → answer_of (cleared tenant found o) ≡ answer_of o)
unfolding is_tenant
answer_of-cleared tenant found none = (λ f v. cc, λ ne. ground arith)
answer_of-cleared tenant found (some c) = (λ f v. ground arith, λ ne. ground arith)

revoke_client_performed :
    (tenant hash : String) (ps : List (Option (List String))) (hs : List String) (s : Server)
    → s.faults ≡ []
    → all_pages ps ≡ some hs
    → Revokes tenant hash ps hs s perform
revoke_client_performed tenant hash ps hs s f e =
    let c = revoke_each-Cleared tenant hs s f in
    let t = (revoke_each perform tenant hs s).1 in
    rw
      (
        revoke_client-all_pages tenant ps hs s f e,
        verify_client-answer_of hash s f,
        verify_client-answer_of hash t c.delivers,
        c.keys hash,
      )
      (answer_of-cleared tenant (set_has hash hs) (string_at s.store (client hash)))

-- With a documented server, while every request is delivered and every round of SCAN is answered: after
-- `RevokeClient` of `RedisStore` no key that SCAN gave is accepted for the tenant any more, and a key that
-- was not the tenant's is answered as before.
pub verify_client-revoke_client :
    (call : Call) (tenant hash : String) (ps : List (Option (List String))) (hs : List String)
    (s : Server)
    → Documented call
    → s.faults ≡ []
    → all_pages ps ≡ some hs
    → let t = (revoke_client call tenant ps s).1 in
      (set_has hash hs ≡ true
        → (verify_client call hash s).0 ≡ ok tenant
        → (verify_client call hash t).0 ≡ err not_found)
      × ((verify_client call hash s).0 ≢ ok tenant
          → (verify_client call hash t).0 ≡ (verify_client call hash s).0)
verify_client-revoke_client call tenant hash ps hs s doc f e =
    by_document (Revokes tenant hash ps hs s) doc (revoke_client_performed tenant hash ps hs s f e)
