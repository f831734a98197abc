-- ===== src/Service/Results.antt =====
-- internal/service/job_service.go: the end of a job and its progress (`UpdateJobResult`, `UpdateJobStatus`,
-- `UpdateJobProgress`, `CancelJob`, `GetJobStatus`), and whom the service tells.
pub mod Promotes
use task_queue_system.Storage.{job_not_found}
use task_queue_system.Storage.Query.{status_text}
use task_queue_system.Prelude.Int.{pos, ltb_ℤ}
use task_queue_system.Storage.Dual.{
  update_status_of, update_result_of, update_progress_of, get_dependent_jobs_of, get_by_id_of,
}
use task_queue_system.Webhooks.Events.{normalize_event}
use task_queue_system.Webhooks.Types.{RegisteredWebhook}
use task_queue_system.Jobs.Types.{
  cancelled, completed, Value, JobStatus_discrete, JobStatus, Float, WebhookConfig, Job,
}
use task_queue_system.Service.World.{
  query_failed, no_such_job, store_failed, as_jobs, as_job, as_done, ◌>>=◌, broadcasts, ◌>>◌, shows,
  notifies, enqueue, bad_progress, acks, write, tell, read, pure, M, Answer, Backend,
}
use task_queue_system.Prelude.{
  ℕ, zero, suc, ◌+◌, ◌-◌, ◌*◌, ◌/◌, ◌%◌, ◌^◌, ◌≤◌, ◌<◌, ◌≡◌, refl, sym, ap, ◌∙◌, ◌≢◌, ◌↔◌, ◌⊎◌, inl,
  inr, ite, if_pos, if_neg, Bool, true, false, not, ◌&&◌, ◌||◌, Option, none, some, List, [], ◌∷◌,
  ◌++◌, map, arith, dec_lt, dec_le, ℕ_discrete, String_discrete, String, ltb, leb, ◌==◌,
  if◌then◌else◌, length, Bool-cases, Option-cases, if-intro,
}

-- The loop over the events of the job's own webhook.
wants : String → List String → Bool
wants event [] = false
wants event (e ∷ es) =
    let rest = wants event es in
    ite (String_discrete (normalize_event e) (normalize_event event)) true rest

own_target : String → Option WebhookConfig → List (String × String)
unfolding wants
own_target event none = []
own_target event (some c) =
    ite (String_discrete c.url "") [] (if wants event c.events then (c.url, c.secret) ∷ [] else [])

stored_targets : Option (List RegisteredWebhook) → List (String × String)
stored_targets none = []
stored_targets (some ws) = map (λ w. (w.url, w.secret)) ws

tell_targets : {S : Type 0} → String → Job → List (String × String) → M S (Unit {0})
tell_targets event j [] = pure tt
tell_targets event j (t ∷ ts) = tell (notifies event t.0 t.1 j) >> tell_targets event j ts

module _ {S : Type 0} (b : Backend S) where
  -- `collectWebhookTargetsForEvent`.
  unfoldable pub collect_webhook_targets : Job → String → List (String × String)
  unfolding own_target stored_targets
  collect_webhook_targets j event =
      own_target event j.webhook ++ stored_targets (b.endpoints j.tenant_id event)

  -- `publishWebhookEvent`; the queue's answer is only logged.
  unfoldable pub publish_webhook_event : Job → String → M S (Unit {0})
  unfolding tell_targets collect_webhook_targets
  publish_webhook_event j event = tell_targets event j (collect_webhook_targets j event)

  -- `publishSSE`.
  unfoldable pub publish_sse : (id status type tenant : String) → M S (Unit {0})
  publish_sse id status type tenant =
      if b.has_broker then tell (shows id status type tenant) else pure tt

  -- The dependent jobs are given to the queue; its answer is only logged.
  unfoldable pub enqueue_each : List Job → M S (Unit {0})
  enqueue_each [] = pure tt
  enqueue_each (j ∷ js) = enqueue b j >> enqueue_each js

  promote_found : Answer (List Job) → M S (Unit {0})
  promote_found (inl e) = pure tt
  promote_found (inr js) = enqueue_each js

  unfoldable pub promote_dependents : String → JobStatus → M S (Unit {0})
  unfolding promote_found enqueue_each
  promote_dependents id status =
      ite (JobStatus_discrete status completed)
        (read b (get_dependent_jobs_of id) >>= λ r. promote_found (as_jobs r)) (pure tt)

  tell_found : String → JobStatus → Answer Job → M S (Unit {0})
  tell_found id status (inl e) = pure tt
  tell_found id status (inr j) =
      publish_sse id (status_text status) j.type j.tenant_id
      >> publish_webhook_event j (status_text status)
      >> promote_dependents id status

  after_result : String → JobStatus → Answer (Unit {0}) → M S (Answer (Unit {0}))
  unfolding tell_found
  after_result id status (inl e) = pure (inl e)
  after_result id status (inr _) =
      read b (get_by_id_of id) >>= λ r. tell_found id status (as_job r) >> pure (inr tt)

  -- `UpdateJobResult`.
  unfoldable pub update_job_result :
      ℕ → String → JobStatus → String → Value → M S (Answer (Unit {0}))
  unfolding after_result
  update_job_result now id status worker result =
      write b (update_result_of now id status worker result) >>= λ r.
      after_result id status (as_done r)

  -- `UpdateJobStatus`.
  unfoldable pub update_job_status : String → JobStatus → String → M S (Answer (Unit {0}))
  update_job_status id status worker =
      write b (update_status_of id status worker) >>= λ r. pure (as_done r)

  -- `UpdateJobProgress`: Go's comparisons with a NaN are false.
  abbrev out_of_range : Float → Bool
  out_of_range Float.nan = false
  out_of_range (Float.millionths n) = ltb_ℤ n (pos 0) || ltb_ℤ (pos 100000000) n

  unfoldable pub update_job_progress : ℕ → String → Float → M S (Answer (Unit {0}))
  update_job_progress now id progress =
      if out_of_range progress
      then pure (inl bad_progress)
      else (write b (update_progress_of now id progress) >>= λ r. pure (as_done r))

  after_cancelled : String → Answer (Unit {0}) → M S (Answer (Unit {0}))
  after_cancelled id (inl e) = pure (inl e)
  after_cancelled id (inr _) =
      tell (acks id)
      >> tell (broadcasts id)
      >> publish_sse id (status_text cancelled) "" ""
      >> pure (inr tt)

  -- `CancelJob`; the answers of Ack and of the broadcast are dropped.
  unfoldable pub cancel_job : String → M S (Answer (Unit {0}))
  unfolding after_cancelled
  cancel_job id = write b (update_status_of id cancelled "") >>= λ r. after_cancelled id (as_done r)

  -- `GetJobStatus`.
  abbrev translated : Answer Job → Answer Job
  translated (inr j) = inr j
  translated (inl (store_failed job_not_found)) = inl no_such_job
  translated (inl e) = inl query_failed

  unfoldable pub get_job_status : String → M S (Answer Job)
  get_job_status id = read b (get_by_id_of id) >>= λ r. pure (translated (as_job r))
