-- ===== src/Examples/Worker.antt =====
-- One job executed by the worker, which fails and is retried; a rate limiter; a pool that is signalled.
use task_queue_system.Worker.Limiter.{
  NewLimiter, limits, TokenBucketLimiter, new_token_bucket_limiter, tick, wait, granted,
}
use task_queue_system.Worker.Limiter.Granted.{
  grants_bounds, grants, after, waits, ticks, count_ticks,
}
use task_queue_system.Worker.Pool.{Config, Pool}
use task_queue_system.Worker.Pool.Signalled.{PoolCall, stops, registers, signals}
use task_queue_system.Prelude.{
  List, ◌+◌, ◌≤◌, ◌∷◌, ℕ, ◌≡◌, refl, true, false, none, some, [], ℕ_discrete, String,
}
use task_queue_system.Prelude.Int.{pos}
use task_queue_system.Jobs.Create.{new_job}
use task_queue_system.Worker.Execute.{Failure, errored, failed_with}
use task_queue_system.Worker.Process.{a_job, Answers, process_once}
use task_queue_system.Worker.Process.Bounded.{starts}
use task_queue_system.Examples.Jobs.{email_job}

abbrev text_of : Failure → String
text_of (errored s) = s
text_of _ = "failed"

abbrev no_random : ℕ → ℕ
no_random n = 0

abbrev answers : Answers
answers = record {
  now = 9;
  dequeued = a_job email_job;
  is_processed = none;
  paused = some false;
  stored = none;
  token = none;
  outcome = failed_with (errored "boom");
  shutdown = true;
  accepted = false;
  int63n = no_random;
}

started : starts (process_once "w1" text_of answers).0 ≡ true
unfolding process_once starts new_job ℕ_discrete
started = refl

-- Two operations a second, at full bucket, and three callers before the next tick.
two_a_second :
    new_token_bucket_limiter (pos 2000000)
    ≡ limits (record { size = 2; tokens = 2; interval = 500000000 })
unfolding new_token_bucket_limiter
two_a_second = refl

grants_bounds_example :
    let l : TokenBucketLimiter = record { size = 2; tokens = 2; interval = 500000000 } in
    (grants (after l (waits false ∷ [])) (waits false ∷ waits false ∷ ticks ∷ []) ≤ 2 + 1)
    × ((wait false (tick (after l (waits false ∷ [])))).0 ≡ granted)
unfolding count_ticks
grants_bounds_example =
    grants_bounds (pos 2000000) (record { size = 2; tokens = 2; interval = 500000000 })
      (waits false ∷ []) (waits false ∷ waits false ∷ ticks ∷ []) two_a_second

abbrev config : Config
config = record { num_workers = pos 2; jobs_per_second = pos 0 }

abbrev pool : Pool
pool = record {
  active_jobs = [];
  limiter = NewLimiter.nil;
  cancelled = [];
  started = false;
  stopped = false;
  shutting_down = false;
  busy_count = pos 0;
}

-- A job is registered twice and cancelled twice, before the pool stops; the last call comes first.
abbrev pool_calls : List PoolCall
pool_calls =
    stops
    ∷ signals "job1"
    ∷ signals "job1"
    ∷ registers "job1" 8
    ∷ registers "job1" 7
    ∷ PoolCall.starts
    ∷ []
