-- ===== src/Service/Create.antt =====
-- internal/service/job_service.go, `CreateJob`. What the store, the queue and the parsers answer is an
-- argument; the calls that change the store or the queue are listed in the order in which they are made.
pub mod Accepted
use task_queue_system.Prelude.{
  ℕ, zero, suc, ◌+◌, ◌-◌, ◌*◌, ◌/◌, ◌%◌, ◌^◌, ◌≤◌, ◌<◌, ◌≡◌, refl, sym, ap, ◌∙◌, ◌≢◌, ◌↔◌, ◌⊎◌, inl,
  inr, ite, if_pos, if_neg, Bool, true, false, not, ◌&&◌, ◌||◌, Option, none, some, List, [], ◌∷◌,
  ◌++◌, map, arith, dec_lt, dec_le, ℕ_discrete, String_discrete, String, ltb, leb, ◌==◌,
  if◌then◌else◌, length, Bool-cases, Option-cases, if-intro,
}
use task_queue_system.Prelude.Int.{ℤ, pos, negsuc, leb_ℤ}
use task_queue_system.Jobs.Types.{
  Job, JobStatus, JobStatus_discrete, pending, recurring, completed, WebhookConfig, Value,
  BackoffAlgorithm, BackoffJitter,
}
use task_queue_system.Jobs.Create.{NewJobArgs, new_job}

-- The arguments of `CreateJob`, those of `NewJob` apart; `run_at` is set by `run_at_text`.
pub record CreateRequest : Type 0 where
  pub args : NewJobArgs
  pub backoff_algorithm : BackoffAlgorithm
  pub backoff_jitter : BackoffJitter
  pub cron_expr : String
  pub run_at_text : String
  pub webhook : Option WebhookConfig
  pub dedup_key : String
  pub dependencies : List String
  pub shard_key : String

-- The kinds of error that `CreateJob` returns.
pub data CreateError : Type 0 where
  unsupported_type duplicate missing_dependency too_many_requests bad_run_at queue_full :
      CreateError
  not_saved not_enqueued : CreateError

-- The answer of `store.Save`.
pub data Saved : Type 0 where
  saved duplicate_key save_failed : Saved

-- `none` is a failed call or parse.
pub record CreateAnswers : Type 0 where
  pub now : ℕ
  pub id : String
  pub correlation : String
  pub type_allowed : Bool
  pub dedup_taken : Option Bool
  pub dependencies : Option (List Job)
  pub rate_allowed : Option Bool
  pub run_at : Option ℕ
  pub size : Option ℕ
  pub cron_next : Option ℕ
  pub saved : Saved
  pub enqueued : Bool

pub data CreateCall : Type 0 where
  saves enqueues publishes : Job → CreateCall

abbrev pub Created : Type 0
Created = List CreateCall × (CreateError ⊎ Job)

abbrev pub all_completed : List Job → Bool
all_completed [] = true
all_completed (j ∷ js) =
    let rest = all_completed js in ite (JobStatus_discrete j.status completed) rest false

abbrev pub is_true : Option Bool → Bool
is_true none = false
is_true (some b) = b

abbrev pub is_false : Option Bool → Bool
is_false none = false
is_false (some b) = not b

abbrev pub is_at_least : ℕ → Option ℕ → Bool
is_at_least m none = false
is_at_least m (some n) = leb m n

module _ (max_queue_size : ℕ) (r : CreateRequest) (a : CreateAnswers) where
  -- `defaultMaxRetries` and the default timeout.
  pub with_defaults : ℕ → NewJobArgs
  with_defaults at = record r.args {
    run_at = at;
    max_retries = if leb_ℤ r.args.max_retries (pos 0) then pos 3 else r.args.max_retries;
    timeout = if leb_ℤ r.args.timeout (pos 0) then pos 60 else r.args.timeout;
  }

  abbrev or_given : String → String → String
  or_given given default = ite (String_discrete given "") default given

  pub set_fields : Job → Job
  set_fields j = record j {
    webhook = r.webhook;
    dedup_key = r.dedup_key;
    dependencies = r.dependencies;
    shard_key = r.shard_key;
    backoff_algorithm = or_given r.backoff_algorithm j.backoff_algorithm;
    backoff_jitter = or_given r.backoff_jitter j.backoff_jitter;
  }

  abbrev next_run : Option ℕ → ℕ → ℕ
  next_run none at = at
  next_run (some n) at = n

  -- A cron expression makes the job a recurring template.
  pub set_schedule : Job → Job
  set_schedule j = ite (String_discrete r.cron_expr "") j (record j {
    cron_expr = r.cron_expr;
    status = recurring;
    run_at = next_run a.cron_next j.run_at;
  })

  pub built_job : ℕ → Job
  unfolding with_defaults set_fields set_schedule
  built_job at = set_schedule (set_fields (new_job a.id a.correlation a.now (with_defaults at)))

  -- After a successful save: the queue gets the job if it is to run and nothing holds it back.
  pub after_save : Bool → Job → Created
  after_save met j =
      if ite (JobStatus_discrete j.status recurring) false met
      then (if a.enqueued
          then (saves j ∷ enqueues j ∷ publishes j ∷ [], inr j)
          else (saves j ∷ enqueues j ∷ [], inl not_enqueued))
      else (saves j ∷ publishes j ∷ [], inr j)

  pub save_as : Saved → Bool → Job → Created
  save_as saved met j = after_save met j
  save_as duplicate_key met j = (saves j ∷ [], inl duplicate)
  save_as save_failed met j = (saves j ∷ [], inl not_saved)

  pub if_room : Bool → ℕ → Created
  if_room met at =
      if ltb 0 max_queue_size && is_at_least max_queue_size a.size
      then ([], inl queue_full)
      else save_as a.saved met (built_job at)

  pub at_time : Bool → Option ℕ → Created
  at_time met none = ([], inl bad_run_at)
  at_time met (some at) = if ltb at a.now then ([], inl bad_run_at) else if_room met at

  pub if_within_rate : Bool → Created
  if_within_rate met =
      if is_false a.rate_allowed
      then ([], inl too_many_requests)
      else ite (String_discrete r.run_at_text "") (if_room met 0) (at_time met a.run_at)

  pub with_dependencies : Option (List Job) → Created
  with_dependencies none = ([], inl missing_dependency)
  with_dependencies (some deps) =
      if length deps == length r.dependencies
      then if_within_rate (all_completed deps)
      else ([], inl missing_dependency)

  pub if_new : Created
  if_new =
      if length r.dependencies == 0 then if_within_rate true else with_dependencies a.dependencies

  abbrev pub is_duplicate : Bool
  is_duplicate = ite (String_discrete r.dedup_key "") false (is_true a.dedup_taken)

  -- `CreateJob`.
  unfoldable pub create_job : Created
  unfolding built_job after_save save_as if_room at_time if_within_rate with_dependencies if_new
  create_job =
      if a.type_allowed
      then (if is_duplicate then ([], inl duplicate) else if_new)
      else ([], inl unsupported_type)
