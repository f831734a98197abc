-- ===== src/Service/Schedule/Recurring.antt =====
-- What `RecurringJobsDue` spawns.
use task_queue_system.Service.Results.Promotes.{enqueued}
use task_queue_system.Service.Schedule.{advanced, is_due, instance_of}
use task_queue_system.Storage.Dual.{save_of}
use task_queue_system.Jobs.Types.{Job}
use task_queue_system.Service.World.{enqueues, World, as_done, writes, ServiceCall, Backend}
use task_queue_system.Prelude.{
  ℕ, ◌<◌, ◌≡◌, inr, true, Option, none, some, List, [], ◌∷◌, ◌++◌, String, if◌then◌else◌, length,
}

-- The jobs saved one by one.
unfoldable pub written_jobs : List ServiceCall → List Job
written_jobs [] = []
written_jobs (writes (save_of (some j)) ∷ cs) = j ∷ written_jobs cs
written_jobs (_ ∷ cs) = written_jobs cs

-- The store saves every job, and the queue accepts every job.
pub record IsHealthy {S : Type 0} (b : Backend S) : Type 0 where
  pub saves : (j : Job) (s : S) → as_done (b.store.write (save_of (some j)) s).0 ≡ inr tt
  pub accepted : (cs : List ServiceCall) (j : Job) → b.accepts cs j ≡ true

-- The templates that are due and whose expression is valid, with their next times.
abbrev with_next : Job → Option ℕ → List (Job × ℕ) → List (Job × ℕ)
with_next t none rest = rest
with_next t (some at) rest = (t, at) ∷ rest

unfoldable pub due : ℕ → (String → Option ℕ) → List Job → List (Job × ℕ)
due now next [] = []
due now next (t ∷ ts) =
    let rest = due now next ts in if is_due now t then with_next t (next t.cron_expr) rest else rest

-- The instances of these templates, and all the jobs that are saved for them.
unfoldable pub instances : ℕ → (Job → String) → List (Job × ℕ) → List Job
instances now fresh [] = []
instances now fresh ((t, at) ∷ ds) = instance_of now (fresh t) t ∷ instances now fresh ds

unfoldable pub renewals : ℕ → (Job → String) → List (Job × ℕ) → List Job
renewals now fresh [] = []
renewals now fresh ((t, at) ∷ ds) =
    instance_of now (fresh t) t ∷ advanced now at t ∷ renewals now fresh ds

module _ {S : Type 0} (b : Backend S) (now : ℕ) (fresh : Job → String)
    (next : String → Option ℕ) where
  -- What the scan of these templates adds to the calls.
  record Spawns (ds : List (Job × ℕ)) (w : World S) (a : ℕ × World S) : Type 0 where
    number : a.0 ≡ length ds
    queue : enqueued a.1.calls ≡ enqueued w.calls ++ instances now fresh ds
    saves : written_jobs a.1.calls ≡ written_jobs w.calls ++ renewals now fresh ds

  module _ (h : IsHealthy b) where
    -- The calls for one template.
    renewal : Job → ℕ → List ServiceCall
    renewal t at =
        writes (save_of (some (instance_of now (fresh t) t)))
        ∷ enqueues (instance_of now (fresh t) t)
        ∷ writes (save_of (some (advanced now at t)))
        ∷ []

    abbrev due_one : Job → List (Job × ℕ)
    due_one t = if is_due now t then with_next t (next t.cron_expr) [] else []

-- The templates as they are saved, and the moments before all of their next times.
unfoldable pub renewed : ℕ → List (Job × ℕ) → List Job
renewed now [] = []
renewed now ((t, at) ∷ ds) = advanced now at t ∷ renewed now ds

abbrev pub IsBeforeAll : ℕ → List (Job × ℕ) → Type 0
IsBeforeAll later [] = Unit {0}
IsBeforeAll later ((t, at) ∷ ds) = (later < at) × IsBeforeAll later ds
