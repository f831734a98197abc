-- ===== src/Service/Admin/Purged.antt =====
-- What `PurgeJobsBefore` leaves in the memory store.
use task_queue_system.Webhooks.Types.{RegisteredWebhook}
use task_queue_system.Service.World.{memory_backend, World, ServiceCall}
use task_queue_system.Storage.Dual.{in_memory_write}
use task_queue_system.Prelude.Map.{retain-Unique, keep_if, Unique}
use task_queue_system.Storage.Query.Counts.{deletions-Purged, Purged, to_delete}
use task_queue_system.Storage.Query.{
  delete_jobs_before, accepts, status_text, list_matches, is_final,
}
use task_queue_system.Storage.{stored, InMemoryStore}
use task_queue_system.Jobs.Types.{
  recurring, cancelled, failed, completed, processing, pending, JobStatus, Job,
}
use mathlib.Core.Path.{fun_ext, subst}
use task_queue_system.Service.Admin.{purge_jobs_before, purge_each, purge_then}
use task_queue_system.Prelude.{
  ℕ, ◌+◌, ◌≡◌, refl, ◌∙◌, inr, Bool, true, false, ◌&&◌, ◌||◌, Option, none, some, List, arith,
  String_discrete, String, ltb,
}

Purged-then :
    {p q : Job → Bool} {s t u : InMemoryStore} {n m : ℕ}
    → Purged p s n t
    → Purged q t m u
    → Purged (λ j. p j || q j) s (n + m) u
Purged-then {p} {q} {s} {t} {u} {n} {m} a c = record {
  left = λ id. ground (arith, a.left id, c.left id);
  counted = let x = a.counted in let y = c.counted in omega arith;
  clients = c.clients ∙ a.clients;
}

-- A finished job that was created before the given time.
abbrev pub is_expired : ℕ → Job → Bool
is_expired before j = is_final j.status && ltb j.created_at before

-- The three deletions together.
abbrev any_deletion : ℕ → Job → Bool
any_deletion before j =
    to_delete "" "completed" "" before j
    || (to_delete "" "failed" "" before j || (to_delete "" "cancelled" "" before j || false))

-- The three tests of a status against the texts.
abbrev any_text : String → Bool → Bool
any_text st old =
    ((true && accepts "completed" st && true) && old)
    || (((true && accepts "failed" st && true) && old)
        || (((true && accepts "cancelled" st && true) && old) || false))

any_text-is_final :
    (st : JobStatus) (old : Bool) → any_text (status_text st) old ≡ is_final st && old
unfolding String_discrete
any_text-is_final pending old = refl
any_text-is_final processing old = refl
any_text-is_final completed true = refl
any_text-is_final completed false = refl
any_text-is_final failed true = refl
any_text-is_final failed false = refl
any_text-is_final cancelled true = refl
any_text-is_final cancelled false = refl
any_text-is_final recurring old = refl

any_deletion-is_expired : (before : ℕ) (j : Job) → any_deletion before j ≡ is_expired before j
unfolding list_matches String_discrete
any_deletion-is_expired before j = any_text-is_final j.status (ltb j.created_at before)

nothing-Purged : (s : InMemoryStore) → Purged (λ j. false) s 0 s
nothing-Purged s = record {
  left = λ id. keep_all id (stored id s);
  counted = omega arith;
  clients = refl;
}
  where
    keep_all : (id : String) (o : Option Job) → o ≡ keep_if String_discrete (λ i j. true) id o
    keep_all id none = refl
    keep_all id (some j) = refl

-- One of the deletions.
abbrev deleted : (status : String) (before : ℕ) → InMemoryStore → ℕ × InMemoryStore
deleted status before s = delete_jobs_before "" status "" before s

deleted-Unique :
    (status : String) (before : ℕ) (s : InMemoryStore)
    → Unique String_discrete s.data_
    → Unique String_discrete (deleted status before s).1.data_
unfolding delete_jobs_before
deleted-Unique status before s u = retain-Unique String_discrete _ s.data_ u

-- The service over the memory store with one record to an identifier: `PurgeJobsBefore` deletes exactly the
-- completed, failed and cancelled jobs that were created before the given time, and returns how many.
pub purge_jobs_before-Purged :
    (accepts : List ServiceCall → Job → Bool)
    (endpoints : (tenant event : String) → Option (List RegisteredWebhook)) (has_broker : Bool)
    (before : ℕ) (w : World InMemoryStore)
    → Unique String_discrete w.state.data_
    → let (a, v) = purge_jobs_before (memory_backend accepts endpoints has_broker) before w in
      (n : ℕ) × (a ≡ inr n) × Purged (is_expired before) w.state n v.state
unfolding purge_jobs_before purge_each purge_then in_memory_write
purge_jobs_before-Purged accepts endpoints has_broker before w u =
    let s = w.state in
    let (n, t) = deleted "completed" before s in
    let (m, t') = deleted "failed" before t in
    let (k, t'') = deleted "cancelled" before t' in
    let ut = deleted-Unique "completed" before s u in
    let ut' = deleted-Unique "failed" before t ut in
    let all = Purged-then ((deletions-Purged "" "completed" "" before s u).0) (
      Purged-then ((deletions-Purged "" "failed" "" before t ut).0) (
        Purged-then ((deletions-Purged "" "cancelled" "" before t' ut').0) (nothing-Purged t''))) in
    (
      n + (m + (k + 0)),
      refl,
      subst (λ p. Purged p s (n + (m + (k + 0))) t'') (fun_ext (any_deletion-is_expired before))
          all,
    )
