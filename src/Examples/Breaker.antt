-- ===== src/Examples/Breaker.antt =====
-- A breaker that opens at two failures, and calls about two job types.
use task_queue_system.Prelude.Map.{insert, lookup}
use task_queue_system.Prelude.{◌+◌, ◌≤◌, ◌≡◌, refl, false, List, [], ◌∷◌, String_discrete}
use task_queue_system.Prelude.Int.{pos}
use task_queue_system.Breaker.{
  record_success, record_failure, new_circuit_breaker, check, CircuitBreaker,
}
use task_queue_system.Breaker.Invariant.{
  BreakerCall, succeeds, fails, run, step, IsConsistent, run-IsConsistent,
}
use task_queue_system.Breaker.History.{check-refuses_only, consecutive, last_failure_at}

abbrev breaker : CircuitBreaker
breaker = new_circuit_breaker (pos 2) (pos 30)

-- Two failures of one type and one of another, the latest call first.
abbrev calls : List BreakerCall
calls = fails "email" 7 ∷ fails "http" 6 ∷ fails "email" 5 ∷ succeeds "email" ∷ []

run-IsConsistent_example : IsConsistent (run breaker calls)
run-IsConsistent_example = run-IsConsistent (pos 2) (pos 30) calls

refused : (check (run breaker calls) "email" 20).0 ≡ false
unfolding check run step record_failure record_success new_circuit_breaker String_discrete lookup
    insert
refused = refl

check-refuses_only_example :
    (2 ≤ consecutive "email" calls) × (20 ≤ last_failure_at "email" calls + 30)
unfolding new_circuit_breaker
check-refuses_only_example = check-refuses_only (pos 2) (pos 30) "email" 20 calls refused

-- Another type's failure after the one that opens the breaker.
abbrev later : List BreakerCall
later = fails "http" 8 ∷ []

abbrev earlier : List BreakerCall
earlier = fails "http" 6 ∷ fails "email" 5 ∷ succeeds "email" ∷ []
