-- ===== src/Worker/Process.antt =====
-- internal/worker/executor/worker_processor.go, `ProcessOnce`. The calls of the service, the limiter and
-- the executor are listed in the order in which they are made; what they answer is an argument.
pub mod Bounded
use task_queue_system.Prelude.{
  ℕ, zero, suc, ◌+◌, ◌-◌, ◌*◌, ◌/◌, ◌%◌, ◌^◌, ◌≤◌, ◌<◌, ◌≡◌, refl, sym, ap, ◌∙◌, ◌≢◌, ◌↔◌, ◌⊎◌, inl,
  inr, ite, if_pos, if_neg, Bool, true, false, not, ◌&&◌, ◌||◌, Option, none, some, List, [], ◌∷◌,
  ◌++◌, map, arith, dec_lt, dec_le, ℕ_discrete, String_discrete, String, ltb, leb, ◌==◌,
  if◌then◌else◌, length, Bool-cases, Option-cases, if-intro,
}
use task_queue_system.Prelude.Int.{ℤ, pos, negsuc, ltb_ℤ}
use task_queue_system.Jobs.Types.{
  Job, JobStatus, pending, processing, completed, failed, cancelled, Value, Float,
}
use task_queue_system.Jobs.Backoff.{backoff_delay, second, int64}
use task_queue_system.Worker.Execute.{
  Failure, circuit_open, expired, Outcome, returned, failed_with,
}

-- The calls that change the queue, the store or the job, and the waits.
pub data WorkerCall : Type 0 where
  acks : String → WorkerCall
  fails : String → Failure → WorkerCall
  enqueues : Job → WorkerCall
  marks_processed : String → WorkerCall
  sets_status : String → JobStatus → String → WorkerCall
  sets_progress : String → Float → WorkerCall
  sets_result : String → JobStatus → String → Value → WorkerCall
  registers unregisters : String → WorkerCall
  executes : Job → (timeout : ℤ) → WorkerCall
  waits : ℤ → WorkerCall

-- `service.Dequeue`: an error, no job without an error, or a job.
pub data Dequeued : Type 0 where
  dequeue_failed nothing : Dequeued
  a_job : Job → Dequeued

-- What the calls answer. `is_processed`, `paused` and `stored` are `none` where the lookup fails, which the
-- source reads as not processed, not paused and not over; `token` is `none` without
-- a limiter, and false where the shutdown comes first; `shutdown` says that it comes before the delay ends.
pub record Answers : Type 0 where
  pub now : ℕ
  pub dequeued : Dequeued
  pub is_processed : Option Bool
  pub paused : Option Bool
  pub stored : Option JobStatus
  pub token : Option Bool
  pub outcome : Outcome
  pub shutdown : Bool
  pub accepted : Bool
  pub int63n : ℕ → ℕ

-- How `ProcessOnce` ends: without an error, with one, or by the use of a nil job.
pub data Ending : Type 0 where
  finished transient nil_dereference : Ending

-- `job.Timeout` in seconds, or 60.
abbrev timeout_of : ℤ → ℤ
timeout_of (pos n) = if ltb 0 n then int64 (n * second) else pos (60 * second)
timeout_of (negsuc n) = pos (60 * second)

-- The answers of the checks.
abbrev pub is_over : Option JobStatus → Bool
is_over (some completed) = true
is_over (some failed) = true
is_over (some cancelled) = true
is_over _ = false

abbrev pub has_expired : ℕ → Job → Bool
has_expired now j = not (j.expires_at == 0) && ltb j.expires_at now

-- The answer of a lookup; one that failed counts as no.
abbrev pub is_yes : Option Bool → Bool
is_yes (some b) = b
is_yes none = false

-- `text_of` is the text of an error.
module _ (name : String) (text_of : Failure → String) (a : Answers) where
  -- The re-enqueued copy, and the Ack of the entry in processing: not after a refusal, unless the shutdown
  -- came first.
  pub hand_back : ℤ → Job → List WorkerCall
  hand_back delay j =
      if a.shutdown
      then enqueues j ∷ acks j.id ∷ []
      else if a.accepted
      then waits delay ∷ enqueues j ∷ acks j.id ∷ []
      else waits delay ∷ enqueues j ∷ []

  pub retry : Job → List WorkerCall
  retry j =
      let j' : Job = record j { retries = j.retries + 1; status = pending; updated_at = a.now } in
      hand_back (backoff_delay a.int63n (some j')) j'

  pub defer_job : Job → List WorkerCall
  defer_job j = hand_back (pos (5 * second)) (record j { status = pending; updated_at = a.now })

  pub after_failure : Job → Failure → List WorkerCall
  after_failure j circuit_open = sets_status j.id pending name ∷ defer_job j
  after_failure j e =
      if ltb_ℤ (pos j.retries) j.max_retries
      then sets_status j.id pending name ∷ retry j
      else sets_result j.id failed name (Value.text (text_of e)) ∷ fails j.id e ∷ []

  pub after_outcome : Job → Outcome → List WorkerCall
  after_outcome j (returned v) =
      marks_processed j.id
      ∷ sets_progress j.id (Float.millionths (pos 100000000))
      ∷ sets_result j.id completed name v
      ∷ acks j.id
      ∷ []
  after_outcome j (failed_with e) = after_failure j e

  pub run_job : Job → List WorkerCall × Ending
  run_job j = (
    registers j.id
        ∷ executes j (timeout_of j.timeout)
        ∷ (after_outcome j a.outcome ++ unregisters j.id ∷ []),
    finished,
  )

  pub with_token : Job → Option Bool → List WorkerCall × Ending
  with_token j (some false) = ([], transient)
  with_token j _ = run_job j

  pub mark_and_run : Job → List WorkerCall × Ending
  mark_and_run j =
      let (calls, end) = with_token j a.token in (sets_status j.id processing name ∷ calls, end)

  -- The checks, in the order of the source.
  pub checked : Job → List WorkerCall × Ending
  checked j =
      if is_yes a.is_processed
      then (acks j.id ∷ [], finished)
      else if is_yes a.paused
      then (defer_job j, finished)
      else if has_expired a.now j
      then (fails j.id expired ∷ acks j.id ∷ [], finished)
      else if is_over a.stored
      then (acks j.id ∷ [], finished)
      else mark_and_run j

  pub on_dequeued : Dequeued → List WorkerCall × Ending
  on_dequeued dequeue_failed = ([], transient)
  on_dequeued nothing = ([], nil_dereference)
  on_dequeued (a_job j) = checked (record j { processed_by = name })

  -- `ProcessOnce`.
  unfoldable pub process_once : List WorkerCall × Ending
  unfolding on_dequeued checked mark_and_run with_token run_job after_outcome after_failure
      defer_job retry hand_back
  process_once = on_dequeued a.dequeued
