-- ===== src/Worker/Registry.antt =====
-- internal/worker/plugin/registry.go: the plugins by job type. A plugin is known by its type and what it
-- is, `P`; the registry is the map, under the registry's lock. `RegisterGlobal` calls `Register` on the one
-- registry of the process and drops its error.
use task_queue_system.Prelude.{
  ◌≡◌, ◌≢◌, ◌↔◌, Bool, true, false, Option, none, some, List, [], arith, String_discrete, String,
}
use task_queue_system.Prelude.Map.{lookup, insert, lookup-insert}

module _ {P : Type 0} where
  unfoldable new_registry : List (String × P)
  new_registry = []

  register_new : List (String × P) → String → P → Option P → Bool × List (String × P)
  register_new r job_type p none = (true, insert String_discrete job_type p r)
  register_new r job_type p (some q) = (false, r)

  -- `Register`; false for the error.
  unfoldable register : List (String × P) → String → P → Bool × List (String × P)
  unfolding register_new
  register r job_type p = register_new r job_type p (lookup String_discrete job_type r)

  -- `Get`; `none` for the error.
  unfoldable get : List (String × P) → String → Option P
  get r job_type = lookup String_discrete job_type r

  unfoldable register_global : List (String × P) → String → P → List (String × P)
  unfolding register
  register_global r job_type p = (register r job_type p).1

  -- `Register` succeeds exactly if the type has no plugin; afterwards the type has the plugin that was
  -- registered first, and the plugins of the other types are as before.
  get-register :
      (r : List (String × P)) (job_type : String) (p : P)
      → ((register r job_type p).0 ≡ true ↔ get r job_type ≡ none)
        × ((q : P) → get r job_type ≡ some q → get (register r job_type p).1 job_type ≡ some q)
        × (get r job_type ≡ none → get (register r job_type p).1 job_type ≡ some p)
        × ((j : String) → j ≢ job_type → get (register r job_type p).1 j ≡ get r j)
  unfolding register register_new get
  get-register r job_type p = (
    (λ e. ground arith, λ e. ground arith),
    λ q e. ground arith,
    λ e. ground (arith, lookup-insert String_discrete job_type job_type p r),
    λ j ne. ground (arith, lookup-insert String_discrete job_type j p r),
  )
