-- ===== src/Worker/Pool.antt =====
-- internal/worker/pool/pool.go: the state that a pool's goroutines share. A cancel function is a number,
-- and `cancelled` lists those called, the last one first; `started` says that `Start` has set
-- `p.cancel`, and `stopped` that it was called. The heartbeats and the metrics are left out.
pub mod Signalled
use task_queue_system.Prelude.{
  ℕ, zero, suc, ◌+◌, ◌-◌, ◌*◌, ◌/◌, ◌%◌, ◌^◌, ◌≤◌, ◌<◌, ◌≡◌, refl, sym, ap, ◌∙◌, ◌≢◌, ◌↔◌, ◌⊎◌, inl,
  inr, ite, if_pos, if_neg, Bool, true, false, not, ◌&&◌, ◌||◌, Option, none, some, List, [], ◌∷◌,
  ◌++◌, map, arith, dec_lt, dec_le, ℕ_discrete, String_discrete, String, ltb, leb, ◌==◌,
  if◌then◌else◌, length, Bool-cases, Option-cases, if-intro,
}
use task_queue_system.Prelude.Map.{lookup, insert, erase}
use task_queue_system.Prelude.Int.{ℤ, pos, negsuc}
use task_queue_system.Worker.Limiter.{NewLimiter, nil, new_token_bucket_limiter}

pub record Config : Type 0 where
  pub num_workers : ℤ
  pub jobs_per_second : ℤ

-- `limiter` is what came of its creation; the panic of a limiter ends the program.
pub record Pool : Type 0 where
  pub active_jobs : List (String × ℕ)
  pub limiter : NewLimiter
  pub cancelled : List ℕ
  pub started : Bool
  pub stopped : Bool
  pub shutting_down : Bool
  pub busy_count : ℤ

is_positive : ℤ → Bool
is_positive (pos n) = ltb 0 n
is_positive (negsuc n) = false

-- `New`; `none` is the error.
unfoldable pub new_pool : Config → Option Pool
unfolding is_positive
new_pool cfg =
    if is_positive cfg.num_workers
    then some (record {
      active_jobs = [];
      limiter =
          if is_positive cfg.jobs_per_second
          then new_token_bucket_limiter cfg.jobs_per_second
          else nil;
      cancelled = [];
      started = false;
      stopped = false;
      shutting_down = false;
      busy_count = pos 0;
    })
    else none

-- The part of `Start` that the other methods see.
unfoldable pub start : Pool → Pool
start p = record p { started = true; stopped = false }

-- `InitiateDrain`.
unfoldable pub initiate_drain : Pool → Bool × Pool
initiate_drain p =
    if p.shutting_down
    then (false, p)
    else (true, record p { shutting_down = true; stopped = if p.started then true else p.stopped })

-- `Stop`, up to the wait for the workers.
unfoldable pub stop : Pool → Pool
unfolding initiate_drain
stop p = (initiate_drain p).1

-- `RegisterActiveJob` and `UnregisterActiveJob`.
unfoldable pub register_active_job : String → ℕ → Pool → Pool
register_active_job id cancel p = record p {
  active_jobs = insert String_discrete id cancel p.active_jobs;
}

unfoldable pub unregister_active_job : String → Pool → Pool
unregister_active_job id p = record p { active_jobs = erase String_discrete id p.active_jobs }

cancel_found : String → Pool → Option ℕ → Pool
cancel_found id p none = p
cancel_found id p (some cancel) = record p {
  cancelled = cancel ∷ p.cancelled;
  active_jobs = erase String_discrete id p.active_jobs;
}

-- The body of the loop of `listenForCancellations`.
unfoldable pub on_cancellation : String → Pool → Pool
unfolding cancel_found
on_cancellation id p = cancel_found id p (lookup String_discrete id p.active_jobs)
