-- ===== src/Service/Create/Accepted.antt =====
-- When `CreateJob` saves a job, and when it gives it to the queue.
use task_queue_system.Prelude.{
  drop, ℕ, ◌≡◌, ◌≢◌, inl, inr, Bool, true, false, List, [], ◌∷◌, arith, if◌then◌else◌,
}
use task_queue_system.Jobs.Types.{Job, recurring}
use task_queue_system.Service.Create.{
  CreateRequest, CreateAnswers, not_enqueued, CreateCall, saves, enqueues, Saved, saved, Created,
  is_duplicate, create_job, is_false,
}

unfoldable pub saved_jobs : List CreateCall → List Job
saved_jobs [] = []
saved_jobs (saves j ∷ cs) = j ∷ saved_jobs cs
saved_jobs (_ ∷ cs) = saved_jobs cs

unfoldable pub enqueued_jobs : List CreateCall → List Job
enqueued_jobs [] = []
enqueued_jobs (enqueues j ∷ cs) = j ∷ enqueued_jobs cs
enqueued_jobs (_ ∷ cs) = enqueued_jobs cs

-- The answer `c` to a request whose save ended as `stored`, where the queue accepts the job or not. The
-- save of a job that is returned came first and succeeded. A job that the queue was given was saved
-- before, successfully, is no recurring template, and is returned exactly if the queue accepted it.
pub record IsSound (stored : Saved) (accepted : Bool) (c : Created) : Type 0 where
  pub returned_stored : (j : Job) → c.1 ≡ inr j → (stored ≡ saved) × (c.0 ≡ saves j ∷ drop 1 c.0)
  pub given_stored :
      (j : Job) (js : List Job)
      → enqueued_jobs c.0 ≡ j ∷ js
      → (stored ≡ saved) × (js ≡ []) × (c.0 ≡ saves j ∷ enqueues j ∷ drop 2 c.0)
  pub returned : (j : Job) → c.1 ≡ inr j → saved_jobs c.0 ≡ j ∷ []
  pub given : (j : Job) (js : List Job) → enqueued_jobs c.0 ≡ j ∷ js → saved_jobs c.0 ≡ j ∷ []
  pub live : (j : Job) (js : List Job) → enqueued_jobs c.0 ≡ j ∷ js → j.status ≢ recurring
  pub answered :
      (j : Job) (js : List Job)
      → enqueued_jobs c.0 ≡ j ∷ js
      → c.1 ≡ (if accepted then inr j else inl not_enqueued)

module _ (max_queue_size : ℕ) (r : CreateRequest) (a : CreateAnswers) where
  abbrev Sound : Created → Type 0
  Sound c = IsSound a.saved a.enqueued c

  -- Nothing is saved unless the type is supported, the duplicate key is not known to be taken, and
  -- the tenant is not known to be over its rate.
  create_job-guards :
      (j : Job) (js : List Job)
      → saved_jobs (create_job max_queue_size r a).0 ≡ j ∷ js
      → (a.type_allowed ≡ true)
        × (is_duplicate max_queue_size r a ≡ false)
        × (is_false a.rate_allowed ≡ false)
  unfolding create_job saved_jobs
  create_job-guards j js e = (ground arith, ground arith, ground arith)
