-- ===== src/Service/Schedule.antt =====
-- internal/service/job_service.go: what brings jobs to the queue and takes them from it (`Dequeue`,
-- `ReconcileOrphanedJobs`, `RecurringJobsDue`, `PromoteReadyDAGJobs`).
pub mod Recurring
pub mod Taken
use task_queue_system.Storage.Query.{status_text}
use task_queue_system.Prelude.Int.{pos}
use task_queue_system.Storage.{JobFilter}
use task_queue_system.Storage.Dual.{
  get_by_ids_of, update_status_of, search_jobs_of, save_of, get_ready_dag_jobs_of,
  get_by_worker_and_status_of,
}
use task_queue_system.Jobs.Types.{
  recurring, completed, processing, pending, JobStatus_discrete, Job,
}
use task_queue_system.Worker.Process.{dequeue_failed, nothing, a_job, Dequeued}
use task_queue_system.Service.World.{
  as_jobs, as_done, M, Answer, Backend, ◌>>=◌, ◌>>◌, pure, read, write, enqueue, tell, acks,
}
use task_queue_system.Prelude.{
  ℕ, zero, suc, ◌+◌, ◌-◌, ◌*◌, ◌/◌, ◌%◌, ◌^◌, ◌≤◌, ◌<◌, ◌≡◌, refl, sym, ap, ◌∙◌, ◌≢◌, ◌↔◌, ◌⊎◌, inl,
  inr, ite, if_pos, if_neg, Bool, true, false, not, ◌&&◌, ◌||◌, Option, none, some, List, [], ◌∷◌,
  ◌++◌, map, arith, dec_lt, dec_le, ℕ_discrete, String_discrete, String, ltb, leb, ◌==◌,
  if◌then◌else◌, length, Bool-cases, Option-cases, if-intro,
}

abbrev pub all_done : List Job → Bool
all_done [] = true
all_done (j ∷ js) = let rest = all_done js in ite (JobStatus_discrete j.status completed) rest false

-- A template that is not paused, has an expression, and is not in the future.
abbrev pub is_due : ℕ → Job → Bool
is_due now t = not t.paused && ite (String_discrete t.cron_expr "") false (leb t.run_at now)

-- The active job that a template spawns, and the template afterwards.
abbrev pub instance_of : ℕ → String → Job → Job
instance_of now id t = record t {
  id = id;
  status = pending;
  cron_expr = "";
  created_at = now;
  updated_at = now;
  run_at = now;
  retries = 0;
}

abbrev pub advanced : (now at : ℕ) → Job → Job
advanced now at t = record t { run_at = at; updated_at = now }

-- The filter that finds the templates.
abbrev pub templates : JobFilter
templates = record {
  tenant_id = "";
  status = status_text recurring;
  type = "";
  search_query = "";
  label_key = "";
  label_value = "";
  created_after = 0;
  created_before = 0;
  limit = pos 10000;
  offset = pos 0;
}

module _ {S : Type 0} (b : Backend S) where
  -- The first dependency that is not completed sends the job back.
  check_found : Job → Answer (List Job) → M S Dequeued
  check_found j (inl e) = pure (a_job j)
  check_found j (inr deps) =
      if all_done deps
      then pure (a_job j)
      else (write b (update_status_of j.id pending "") >> tell (acks j.id) >> pure nothing)

  check_dependencies : Job → List String → M S Dequeued
  unfolding check_found
  check_dependencies j [] = pure (a_job j)
  check_dependencies j (id ∷ ids) =
      read b (get_by_ids_of (id ∷ ids)) >>= λ r. check_found j (as_jobs r)

  -- `Dequeue`, for what the queue gave.
  unfoldable pub dequeue : Dequeued → M S Dequeued
  unfolding check_dependencies
  dequeue dequeue_failed = pure dequeue_failed
  dequeue nothing = pure nothing
  dequeue (a_job j) = check_dependencies j j.dependencies

  -- `ReconcileOrphanedJobs`.
  ack_if : Bool → String → M S (Unit {0})
  ack_if true id = tell (acks id)
  ack_if false id = pure tt

  unfoldable pub reconcile_each : List Job → M S (Unit {0})
  unfolding ack_if
  reconcile_each [] = pure tt
  reconcile_each (j ∷ js) =
      write b (update_status_of j.id pending "")
      >> (enqueue b j >>= λ accepted. ack_if accepted j.id)
      >> reconcile_each js

  reconcile_found : Answer (List Job) → M S (Answer ℕ)
  unfolding reconcile_each
  reconcile_found (inl e) = pure (inl e)
  reconcile_found (inr js) = reconcile_each js >> pure (inr (length js))

  unfoldable pub reconcile_orphaned_jobs : String → M S (Answer ℕ)
  unfolding reconcile_found
  reconcile_orphaned_jobs worker =
      read b (get_by_worker_and_status_of worker processing) >>= λ r. reconcile_found (as_jobs r)

  -- `PromoteReadyDAGJobs`.
  unfoldable pub enqueue_ready : List Job → M S ℕ
  enqueue_ready [] = pure 0
  enqueue_ready (j ∷ js) =
      enqueue b j >>= λ accepted. enqueue_ready js >>= λ n. pure (if accepted then n + 1 else n)

  ready_found : Answer (List Job) → M S (Answer ℕ)
  unfolding enqueue_ready
  ready_found (inl e) = pure (inl e)
  ready_found (inr js) = enqueue_ready js >>= λ n. pure (inr n)

  unfoldable pub promote_ready_dag_jobs : M S (Answer ℕ)
  unfolding ready_found
  promote_ready_dag_jobs = read b (get_ready_dag_jobs_of (pos 100)) >>= λ r. ready_found (as_jobs r)

  -- `RecurringJobsDue`, at the time `now`; `fresh` gives the identifiers of the instances, and `next` the
  -- next time of a cron expression, `none` if it is invalid.
  module _ (now : ℕ) (fresh : Job → String) (next : String → Option ℕ) where
    after_queued : Job → ℕ → Bool → M S ℕ
    after_queued t at true = write b (save_of (some (advanced now at t))) >> pure 1
    after_queued t at false = pure 0

    after_saved : Job → ℕ → Answer (Unit {0}) → M S ℕ
    unfolding after_queued
    after_saved t at (inl e) = pure 0
    after_saved t at (inr _) =
        enqueue b (instance_of now (fresh t) t) >>= λ accepted. after_queued t at accepted

    spawn : Job → Option ℕ → M S ℕ
    unfolding after_saved
    spawn t none = pure 0
    spawn t (some at) =
        write b (save_of (some (instance_of now (fresh t) t))) >>= λ r. after_saved t at (as_done r)

    unfoldable pub spawn_if_due : Job → M S ℕ
    unfolding spawn
    spawn_if_due t = if is_due now t then spawn t (next t.cron_expr) else pure 0

    unfoldable pub spawn_each : List Job → M S ℕ
    unfolding spawn_if_due
    spawn_each [] = pure 0
    spawn_each (t ∷ ts) = spawn_if_due t >>= λ n. spawn_each ts >>= λ m. pure (n + m)

    spawn_found : Answer (List Job) → M S (Answer ℕ)
    unfolding spawn_each
    spawn_found (inl e) = pure (inl e)
    spawn_found (inr ts) = spawn_each ts >>= λ n. pure (inr n)

    unfoldable pub recurring_jobs_due : M S (Answer ℕ)
    unfolding spawn_found
    recurring_jobs_due = read b (search_jobs_of templates) >>= λ r. spawn_found (as_jobs r)
