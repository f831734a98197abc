-- ===== src/Queue/Settle/Released.antt =====
-- `Ack`: what a settled job leaves behind, and that it is settled once.
use task_queue_system.Prelude.{
  ℕ, ◌≡◌, refl, ap, ◌∙◌, ◌≢◌, if_pos, true, Option, none, some, List, arith, String_discrete,
  String,
}
use task_queue_system.Prelude.Map.{lookup, lookup-erase}
use task_queue_system.Redis.Data.{
  job_active_tenant_key, Key_discrete, Entry_discrete, Key, in_flight, payloads, Entry, ident,
  job_active_key,
}
use task_queue_system.Redis.Commands.{get, update, Reply, zset_remove, perform}
use task_queue_system.Redis.Client.{
  attempt, >>=-ok, ◌>>=◌, Result, Call, Documented, by_document, Server, ok, send, exec,
}
use task_queue_system.Redis.Sorted.{score, score-zset_remove}
use task_queue_system.Queue.Settle.{
  tracked_key, removed_any, acknowledged, ack, release, release_commands,
}

-- The identifier's payload and timeout are gone, and the lists are as they were.
pub record Forgotten (id : String) (s t : Server) : Type 0 where
  pub dropped : lookup String_discrete id (t.store.hashes payloads) ≡ none
  pub untimed : score (ident id) (t.store.zsets in_flight) ≡ none
  pub lists : t.store.lists ≡ s.store.lists

abbrev pub Holds : String → Server → Type 0
Holds id s = lookup String_discrete id (s.store.hashes payloads) ≢ none

exec-dropped :
    (id : String) (a b : Option Key) (rs : List Reply) (s t : Server)
    → exec perform (release_commands id a b) s ≡ (ok rs, t)
    → lookup String_discrete id (t.store.hashes payloads) ≡ none
unfolding exec perform
exec-dropped id none none rs s t h =
    ground (arith, lookup-erase String_discrete id id (s.store.hashes payloads))
exec-dropped id none (some b) rs s t h =
    ground (arith, lookup-erase String_discrete id id (s.store.hashes payloads))
exec-dropped id (some a) none rs s t h =
    ground (arith, lookup-erase String_discrete id id (s.store.hashes payloads))
exec-dropped id (some a) (some b) rs s t h =
    ground (arith, lookup-erase String_discrete id id (s.store.hashes payloads))

exec-lists :
    (id : String) (a b : Option Key) (rs : List Reply) (s t : Server)
    → exec perform (release_commands id a b) s ≡ (ok rs, t)
    → t.store.lists ≡ s.store.lists
unfolding exec perform
exec-lists id none none rs s t h = ground arith
exec-lists id none (some b) rs s t h = ground arith
exec-lists id (some a) none rs s t h = ground arith
exec-lists id (some a) (some b) rs s t h = ground arith

score-removed : (e : Entry) (z : List (Entry × ℕ)) → score e (zset_remove e z) ≡ none
score-removed e z = score-zset_remove e e z ∙ if_pos (Entry_discrete e e) refl none (score e z)

-- ZREM of a member that is not there, under whatever key.
score-absent :
    (e : Entry) (k : Key) (zs : Key → List (Entry × ℕ))
    → score e (zs in_flight) ≡ none
    → score e (update zs k (zset_remove e (zs k)) in_flight) ≡ none
score-absent e k zs h = ground (arith, score-removed e (zs k))

module _ (id : String) (s t : Server) where
  abbrev without : Key → (Key → List (Entry × ℕ)) → Key → List (Entry × ℕ)
  without k zs = update zs k (zset_remove (ident id) (zs k))

  abbrev cleared : Key → List (Entry × ℕ)
  cleared = without in_flight s.store.zsets

  score-cleared : score (ident id) (cleared in_flight) ≡ none
  score-cleared =
      ap (score (ident id)) (if_pos (Key_discrete in_flight in_flight) refl _ _)
      ∙ score-removed (ident id) (s.store.zsets in_flight)

  score-along :
      (zs : Key → List (Entry × ℕ))
      → t.store.zsets ≡ zs
      → score (ident id) (zs in_flight) ≡ none
      → score (ident id) (t.store.zsets in_flight) ≡ none
  score-along zs e h = ap (λ z. score (ident id) (z in_flight)) e ∙ h

  exec-untimed :
      (a b : Option Key) (rs : List Reply)
      → exec perform (release_commands id a b) s ≡ (ok rs, t)
      → score (ident id) (t.store.zsets in_flight) ≡ none
  unfolding exec perform
  exec-untimed none none rs h = score-along cleared (ground arith) score-cleared
  exec-untimed none (some b) rs h =
      score-along (without b cleared) (ground arith)
        (score-absent (ident id) b cleared score-cleared)
  exec-untimed (some a) none rs h =
      score-along (without a cleared) (ground arith)
        (score-absent (ident id) a cleared score-cleared)
  exec-untimed (some a) (some b) rs h = score-along (without b (without a cleared)) (ground arith) (
      score-absent (ident id) b (without a cleared)
        (score-absent (ident id) a cleared score-cleared))

exec-Holds :
    (id : String) (a b : Option Key) (rs : List Reply) (s t : Server)
    → exec perform (release_commands id a b) s ≡ (ok rs, t)
    → removed_any rs ≡ true
    → Holds id s
unfolding exec perform
exec-Holds id none none rs s t h r = ground arith
exec-Holds id none (some b) rs s t h r = ground arith
exec-Holds id (some a) none rs s t h r = ground arith
exec-Holds id (some a) (some b) rs s t h r = ground arith

get-keeps :
    (k : Key) (r : Result Reply) (s t : Server)
    → attempt (send perform (get k)) s ≡ (ok r, t)
    → t.store ≡ s.store
unfolding send perform
get-keeps k r s t h = ground arith

-- What `Ack` and `Fail` have in common.
pub release-Forgotten :
    (id : String) (rs : List Reply) (s t : Server)
    → release perform id s ≡ (ok rs, t)
    → Forgotten id s t × (removed_any rs ≡ true → Holds id s)
unfolding release
release-Forgotten id rs s t h =
    let last =
      λ (a b : Result Reply). exec perform (release_commands id (tracked_key a) (tracked_key b)) in
    let tenant = attempt (send perform (get (job_active_tenant_key id))) in
    let (a, u, m, h1) =
      >>=-ok (attempt (send perform (get (job_active_key id)))) (λ a. tenant >>= last a) s h in
    let (b, v, n, h2) = >>=-ok tenant (last a) u h1 in
    let same =
      get-keeps (job_active_tenant_key id) b u v n ∙ get-keeps (job_active_key id) a s u m in
    let x = tracked_key a in
    let y = tracked_key b in
    (
      record {
        dropped = exec-dropped id x y rs v t h2;
        untimed = exec-untimed id v t x y rs h2;
        lists = exec-lists id x y rs v t h2 ∙ ap (λ d. d.lists) same;
      },
      λ r e.
          exec-Holds id x y rs v t h2 r
            (ap (λ d. lookup String_discrete id (d.hashes payloads)) same ∙ e),
    )

-- The job was in processing and is no longer.
pub record Released (id : String) (s t : Server) : Type 0 where
  pub held : Holds id s
  pub forgotten : Forgotten id s t

acknowledged-keeps :
    (rs : List Reply) (s t : Server)
    → acknowledged perform rs s ≡ (ok tt, t)
    → (removed_any rs ≡ true)
      × (t.store.hashes ≡ s.store.hashes)
      × (t.store.zsets ≡ s.store.zsets)
      × (t.store.lists ≡ s.store.lists)
unfolding acknowledged send perform
acknowledged-keeps rs s t h = ground arith

ack_performed : (id : String) (s t : Server) → ack perform id s ≡ (ok tt, t) → Released id s t
unfolding ack
ack_performed id s t h =
    let nonempty : id ≢ "" = ground arith in
    let e : (release perform id >>= acknowledged perform) s ≡ (ok tt, t) = ground arith in
    let (rs, u, m, rest) = >>=-ok (release perform id) (acknowledged perform) s e in
    let (f, held) = release-Forgotten id rs s u m in
    let (r, hs, zs, ls) = acknowledged-keeps rs u t rest in
    record {
      held = held r;
      forgotten = record {
        dropped = ap (λ x. lookup String_discrete id (x payloads)) hs ∙ f.dropped;
        untimed = ap (λ x. score (ident id) (x in_flight)) zs ∙ f.untimed;
        lists = ls ∙ f.lists;
      };
    }

-- A successful `Ack` settles a job that was in processing: its payload and its timeout are gone, and
-- no list has changed.
pub ack-Released :
    (call : Call) (id : String) (s t : Server)
    → Documented call
    → ack call id s ≡ (ok tt, t)
    → Released id s t
ack-Released call id s t doc =
    by_document (λ c. ack c id s ≡ (ok tt, t) → Released id s t) doc (ack_performed id s t)

ack-absent_performed :
    (id : String) (s : Server)
    → lookup String_discrete id (s.store.hashes payloads) ≡ none
    → (ack perform id s).0 ≢ ok tt
ack-absent_performed id s e h =
    (ack_performed id s (ack perform id s).1 (ap (λ x. (x, (ack perform id s).1)) h)).held e

-- A job is settled once: after a successful `Ack` of an identifier another one is an error, whatever
-- is lost, as long as the payloads are as the first one left them.
ack-ack :
    (call : Call) (id : String) (s t u : Server)
    → Documented call
    → ack call id s ≡ (ok tt, t)
    → u.store.hashes payloads ≡ t.store.hashes payloads
    → (ack call id u).0 ≢ ok tt
ack-ack call id s t u doc h same =
    by_document (λ c. (ack c id u).0 ≢ ok tt) doc
      (ack-absent_performed id u
        (ap (lookup String_discrete id) same ∙ (ack-Released call id s t doc h).forgotten.dropped))
