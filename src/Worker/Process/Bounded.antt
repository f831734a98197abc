-- ===== src/Worker/Process/Bounded.antt =====
-- When a worker starts a job, what it puts back, and what it acknowledges.
use task_queue_system.Prelude.{
  ◌++◌, refl, ◌≤◌, Option, ℕ, ◌+◌, ◌≡◌, ◌≢◌, ◌⊎◌, inl, inr, Bool, true, false, some, List, [], ◌∷◌,
  arith, ℕ_discrete, String, Bool-cases,
}
use task_queue_system.Prelude.Int.{ℤ, pos, negsuc, ltb_ℤ, leb_ℤ}
use task_queue_system.Jobs.Types.{processing, cancelled, failed, completed, JobStatus, pending, Job}
use task_queue_system.Worker.Execute.{Failure, circuit_open, failed_with}
use task_queue_system.Worker.Process.{
  run_job, with_token, mark_and_run, checked, after_outcome, unregisters, timeout_of, hand_back,
  registers, defer_job, retry, sets_status, after_failure, WorkerCall, acks, fails, enqueues,
  executes, a_job, Answers, process_once,
}

-- Whether a job is given to its plugin, acknowledged, or failed for good.
unfoldable pub starts : List WorkerCall → Bool
starts [] = false
starts (executes j t ∷ cs) = true
starts (_ ∷ cs) = starts cs

unfoldable pub acked : List WorkerCall → Bool
acked [] = false
acked (acks id ∷ cs) = true
acked (_ ∷ cs) = acked cs

unfoldable pub buried : List WorkerCall → Bool
buried [] = false
buried (fails id e ∷ cs) = true
buried (_ ∷ cs) = buried cs

-- The job may be run at `now`: it never expires, or not yet.
abbrev pub Unexpired : ℕ → Job → Type 0
Unexpired now j = (j.expires_at ≡ 0) ⊎ (now ≤ j.expires_at)

-- The record is not known to be completed, failed or cancelled.
abbrev pub IsOpen : Option JobStatus → Type 0
IsOpen o = (o ≢ some completed) × (o ≢ some failed) × (o ≢ some cancelled)

-- What the queue is told: the copies it is given and the acknowledgements, in their order.
unfoldable pub handed : List WorkerCall → List WorkerCall
handed [] = []
handed (enqueues j ∷ cs) = enqueues j ∷ handed cs
handed (acks id ∷ cs) = acks id ∷ handed cs
handed (_ ∷ cs) = handed cs

-- A run that the breaker refused is not counted as a retry.
abbrev pub retries_after : Failure → ℕ → ℕ
retries_after circuit_open n = n
retries_after _ n = n + 1

-- The jobs put back into the queue.
unfoldable pub copies : List WorkerCall → List Job
copies [] = []
copies (enqueues j ∷ cs) = j ∷ copies cs
copies (_ ∷ cs) = copies cs

within :
    (n m : ℕ) (max : ℤ)
    → leb_ℤ (pos m) max ≡ true
    → (n ≡ m) ⊎ ((ltb_ℤ (pos m) max ≡ true) × (n ≡ m + 1))
    → leb_ℤ (pos n) max ≡ true
within n m (pos x) h (inl e) = ground arith
within n m (negsuc x) h (inl e) = ground arith
within n m (pos x) h (inr (l, e)) = ground arith
within n m (negsuc x) h (inr (l, e)) = ground arith

module _ (name : String) (text_of : Failure → String) (a : Answers) where
  abbrev calls_of_run : Job → List WorkerCall
  calls_of_run j =
      sets_status j.id processing name
      ∷ registers j.id
      ∷ executes j (timeout_of j.timeout)
      ∷ (after_outcome name text_of a j a.outcome ++ unregisters j.id ∷ [])

  checked-started :
      (j : Job)
      → starts (checked name text_of a j).0 ≡ true
      → (checked name text_of a j).0 ≡ calls_of_run j
  unfolding checked mark_and_run with_token run_job defer_job hand_back starts
  checked-started j st = ground arith

module _ (name : String) (text_of : Failure → String) (a : Answers) (j : Job)
    (d : a.dequeued ≡ a_job j) where
  not_retried :
      (k : Job) (ks : List Job)
      → ltb_ℤ (pos j.retries) j.max_retries ≡ false
      → copies (process_once name text_of a).0 ≡ k ∷ ks
      → k.retries ≡ j.retries
  unfolding process_once copies
  not_retried k ks h e = ground arith

  retried_once :
      (k : Job) (ks : List Job)
      → copies (process_once name text_of a).0 ≡ k ∷ ks
      → k.retries ≢ j.retries
      → k.retries ≡ j.retries + 1
  unfolding process_once copies
  retried_once k ks e ne = ground arith

  same_job :
      (k : Job) (ks : List Job) → copies (process_once name text_of a).0 ≡ k ∷ ks → k.id ≡ j.id
  unfolding process_once copies
  same_job k ks e = ground arith

  only_one : (k : Job) (ks : List Job) → copies (process_once name text_of a).0 ≡ k ∷ ks → ks ≡ []
  unfolding process_once copies
  only_one k ks e = ground arith

  retries_of :
      (k : Job) (ks : List Job)
      → copies (process_once name text_of a).0 ≡ k ∷ ks
      → (k.retries ≡ j.retries)
        ⊎ ((ltb_ℤ (pos j.retries) j.max_retries ≡ true) × (k.retries ≡ j.retries + 1))
  retries_of k ks e = elim (ℕ_discrete k.retries j.retries) [
    | yes p ↦ inl p
    | no ne ↦ elim (Bool-cases (ltb_ℤ (pos j.retries) j.max_retries)) [
      | inl t ↦ inr (t, retried_once k ks e ne)
      | inr f ↦ inl (not_retried k ks f e)
    ]
  ]

  -- Where the job dequeued has been retried at most as often as it may be, `ProcessOnce` puts back at
  -- most one copy, and the copy has its identifier and has been retried at most as often as it may be.
  process_once-copies :
      (k : Job) (ks : List Job)
      → leb_ℤ (pos j.retries) j.max_retries ≡ true
      → copies (process_once name text_of a).0 ≡ k ∷ ks
      → (k.id ≡ j.id) × (leb_ℤ (pos k.retries) j.max_retries ≡ true) × (ks ≡ [])
  unfolding process_once copies
  process_once-copies k ks h e = (
    same_job k ks e,
    within k.retries j.retries j.max_retries h (retries_of k ks e),
    only_one k ks e,
  )

  process_once-checked :
      process_once name text_of a ≡ checked name text_of a (record j { processed_by = name })
  unfolding process_once
  process_once-checked = rw d refl

  -- The calls of a job that was started.
  calls-started :
      starts (process_once name text_of a).0 ≡ true
      → (process_once name text_of a).0
        ≡ calls_of_run name text_of a (record j { processed_by = name })
  calls-started st =
      rw process_once-checked (checked-started name text_of a _ (rw (← process_once-checked) st))

  -- The copy that is put back after a failure.
  abbrev copy_after : Failure → Job
  copy_after e = record j {
    processed_by = name;
    retries = retries_after e j.retries;
    status = pending;
    updated_at = a.now;
  }

  -- A job that was started and fails with no retry left, unless the breaker refused it, goes to the dead-letter
  -- list; it is neither put back nor acknowledged.
  process_once-buries :
      (e : Failure)
      → e ≢ circuit_open
      → starts (process_once name text_of a).0 ≡ true
      → a.outcome ≡ failed_with e
      → ltb_ℤ (pos j.retries) j.max_retries ≡ false
      → (buried (process_once name text_of a).0 ≡ true)
        × (acked (process_once name text_of a).0 ≡ false)
        × (copies (process_once name text_of a).0 ≡ [])
  unfolding after_outcome after_failure retry defer_job hand_back acked buried copies
  process_once-buries e ne st f h = rw (calls-started st, f) (ground arith)
