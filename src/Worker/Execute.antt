-- ===== src/Worker/Execute.antt =====
-- internal/worker/executor/job_executor.go, `Execute`, and internal/worker/plugin/middleware.go. What a
-- plugin does with a job is an argument; a panic is one of its outcomes.
pub mod Recorded
use task_queue_system.Prelude.{
  ℕ, zero, suc, ◌+◌, ◌-◌, ◌*◌, ◌/◌, ◌%◌, ◌^◌, ◌≤◌, ◌<◌, ◌≡◌, refl, sym, ap, ◌∙◌, ◌≢◌, ◌↔◌, ◌⊎◌, inl,
  inr, ite, if_pos, if_neg, Bool, true, false, not, ◌&&◌, ◌||◌, Option, none, some, List, [], ◌∷◌,
  ◌++◌, map, arith, dec_lt, dec_le, ℕ_discrete, String_discrete, String, ltb, leb, ◌==◌,
  if◌then◌else◌, length, Bool-cases, Option-cases, if-intro,
}
use task_queue_system.Jobs.Types.{Job, Value}
use task_queue_system.Breaker.{CircuitBreaker, is_allowed, record_success, record_failure}

-- The errors of `Execute` and of the plugins.
pub data Failure : Type 0 where
  no_job circuit_open no_plugin panicked expired : Failure
  errored : String → Failure

pub data Outcome : Type 0 where
  returned : Value → Outcome
  failed_with : Failure → Outcome

-- What a plugin does: it returns, or it panics.
pub data PluginRun : Type 0 where
  ends : Outcome → PluginRun
  panics : PluginRun

-- `JobPlugin.Execute`, `Handler` and `Middleware`, over the breaker that the executor shares.
abbrev pub Plugin : Type 0
Plugin = Job → PluginRun

abbrev pub Handler : Type 0
Handler = Job → CircuitBreaker → Outcome × CircuitBreaker

abbrev pub Middleware : Type 0
Middleware = Handler → Handler

-- `BuildChain`: the first middleware is the outermost.
unfoldable pub build_chain : List Middleware → Handler → Handler
build_chain [] final = final
build_chain (m ∷ ms) final = m (build_chain ms final)

-- `registry.Get(job.Type)`, and the handler of the job type's store where that fails.
abbrev resolve : (String → Option Plugin) → (String → String) → String → Option Plugin
resolve registry handler_for type = elim (registry type) [
  | some p ↦ some p
  | none ↦ ite (String_discrete (handler_for type) "") none (registry (handler_for type))
]

-- `finalHandler`: a panic is recorded at once and becomes an error.
recover_panic : ℕ → PluginRun → Job → CircuitBreaker → Outcome × CircuitBreaker
recover_panic now (ends o) j cb = (o, cb)
recover_panic now panics j cb = (failed_with panicked, record_failure cb j.type now)

pub final_handler : ℕ → Plugin → Handler
unfolding recover_panic
final_handler now p j cb = recover_panic now (p j) j cb

-- The outcome of the chain is recorded.
pub record_outcome : ℕ → Job → Outcome × CircuitBreaker → Outcome × CircuitBreaker
record_outcome now j (returned v, cb) = (returned v, record_success cb j.type)
record_outcome now j (failed_with e, cb) = (failed_with e, record_failure cb j.type now)

module _ (registry : String → Option Plugin) (handler_for : String → String)
    (middlewares : List Middleware) where
  with_plugin : ℕ → Job → CircuitBreaker → Option Plugin → Outcome × CircuitBreaker
  unfolding final_handler record_outcome
  with_plugin now j cb none = (failed_with no_plugin, cb)
  with_plugin now j cb (some p) =
      record_outcome now j (build_chain middlewares (final_handler now p) j cb)

  if_allowed : ℕ → Job → Bool × CircuitBreaker → Outcome × CircuitBreaker
  unfolding with_plugin
  if_allowed now j (false, cb) = (failed_with circuit_open, cb)
  if_allowed now j (true, cb) = with_plugin now j cb (resolve registry handler_for j.type)

  -- `Execute`; the moment is the same for all its readings of the clock.
  unfoldable pub execute : ℕ → Option Job → CircuitBreaker → Outcome × CircuitBreaker
  unfolding if_allowed
  execute now none cb = (failed_with no_job, cb)
  execute now (some j) cb = if_allowed now j (is_allowed cb j.type now)
