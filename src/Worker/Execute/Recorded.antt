-- ===== src/Worker/Execute/Recorded.antt =====
-- What one execution records in the circuit breaker.
use task_queue_system.Prelude.{ℕ, ◌≡◌, true, Option, some, [], arith, String}
use task_queue_system.Jobs.Types.{Job, Value}
use task_queue_system.Breaker.{CircuitBreaker, is_allowed, record_success, record_failure}
use task_queue_system.Worker.Execute.{
  Failure, returned, failed_with, panicked, ends, panics, Plugin, build_chain, execute,
}

-- Without middlewares, a job that the breaker admits and whose plugin is registered is recorded
-- as one success, as one failure, or, after a panic, as two failures.
execute-records :
    (registry : String → Option Plugin) (handler_for : String → String) (now : ℕ) (j : Job)
    (p : Plugin) (cb : CircuitBreaker)
    → (is_allowed cb j.type now).0 ≡ true
    → registry j.type ≡ some p
    → let cb' = (is_allowed cb j.type now).1 in
      let r = execute registry handler_for [] now (some j) cb in
      ((v : Value) → p j ≡ ends (returned v) → r ≡ (returned v, record_success cb' j.type))
      × ((e : Failure)
          → p j ≡ ends (failed_with e)
          → r ≡ (failed_with e, record_failure cb' j.type now))
      × (p j ≡ panics
          → r ≡ (failed_with panicked, record_failure (record_failure cb' j.type now) j.type now))
unfolding execute build_chain
execute-records registry handler_for now j p cb ok reg =
    (λ v e. ground arith, λ f e. ground arith, λ e. ground arith)
