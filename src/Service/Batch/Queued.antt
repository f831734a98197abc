-- ===== src/Service/Batch/Queued.antt =====
-- What `CreateJobBatch` saves and gives to the queue.
use task_queue_system.Service.Results.{publish_webhook_event, enqueue_each}
use task_queue_system.Service.Results.Promotes.{
  publish_webhook_event-Enqueues, enqueued-append, enqueue_each-Enqueues, Enqueues-then,
  Enqueues-nothing, enqueued, Enqueues,
}
use task_queue_system.Storage.Dual.{save_batch_of}
use task_queue_system.Service.Batch.{
  ready_of, BatchRequest, create_job_batch, batch_job, announce_each, after_batch_saved, batch_of,
}
use task_queue_system.Jobs.Types.{pending, Job}
use task_queue_system.Service.World.{writes, not_persisted, as_done, World, Answer, Backend}
use mathlib.Core.List.{append-nil}
use task_queue_system.Prelude.{
  ℕ, ◌≡◌, refl, ap, ◌∙◌, ◌≢◌, inl, inr, Option, List, [], ◌∷◌, ◌++◌, String,
}

-- What no job of a batch has, whatever was asked for.
abbrev IsPlain : Job → Type 0
IsPlain j =
    (j.labels ≡ [])
    × (j.backoff_algorithm ≡ "")
    × (j.backoff_jitter ≡ "")
    × (j.status ≡ pending)
    × (j.expires_at ≡ 0)

abbrev ArePlain : List Job → Type 0
ArePlain [] = Unit {0}
ArePlain (j ∷ js) = IsPlain j × ArePlain js

batch_of-ArePlain :
    (now : ℕ) (parse : String → Option ℕ) (qs : List (String × BatchRequest))
    → ArePlain (batch_of now parse qs)
unfolding batch_of batch_job
batch_of-ArePlain now parse [] = tt
batch_of-ArePlain now parse ((id, q) ∷ qs) =
    ((refl, refl, refl, refl, refl), batch_of-ArePlain now parse qs)

module _ {S : Type 0} (b : Backend S) where
  announce_each-Enqueues : (js : List Job) (w : World S) → Enqueues [] w (announce_each b js w).1
  unfolding announce_each
  announce_each-Enqueues [] w = Enqueues-nothing w
  announce_each-Enqueues (j ∷ js) w =
      let v = (publish_webhook_event b j "created" w).1 in
      Enqueues-then (publish_webhook_event-Enqueues b j "created" w) (announce_each-Enqueues js v)

  by_answer :
      (js : List Job) (r : Answer (Unit {0})) (v w : World S)
      → enqueued v.calls ≡ enqueued w.calls
      → let (a, u) = after_batch_saved b js r v in
        (r ≡ inr tt → (a ≡ inr js) × (enqueued u.calls ≡ enqueued w.calls ++ ready_of js))
        × (r ≢ inr tt → (a ≡ inl not_persisted) × (enqueued u.calls ≡ enqueued w.calls))
  unfolding after_batch_saved
  by_answer js (inl e) v w same = (λ h. cc, λ h. (refl, same))
  by_answer js (inr tt) v w same = (
    λ h.
        let x = (enqueue_each b (ready_of js) v).1 in
        let all =
          Enqueues-then (enqueue_each-Enqueues b (ready_of js) v) (announce_each-Enqueues js x) in
        (
          refl,
          all.queue
              ∙ ap (λ l. l ++ (ready_of js ++ [])) same
              ∙ ap (λ l. enqueued w.calls ++ l) (append-nil (ready_of js)),
        ),
    λ h. absurd (h refl),
  )

  -- Whatever the store and the queue answer: if the store refuses the batch, `CreateJobBatch` gives nothing
  -- to the queue and returns an error; else it returns the jobs of all requests, in their order, and has
  -- given the queue exactly those of them without dependencies. No job has the labels or
  -- the backoff settings of its request or expires, and each is pending, even with a cron expression.
  create_job_batch-enqueues :
      (now : ℕ) (parse : String → Option ℕ) (q : String × BatchRequest)
      (qs : List (String × BatchRequest)) (w : World S)
      → let js = batch_of now parse (q ∷ qs) in
        let saved = as_done (b.store.write (save_batch_of js) w.state).0 in
        let (a, v) = create_job_batch b now parse (q ∷ qs) w in
        (saved ≡ inr tt → (a ≡ inr js) × (enqueued v.calls ≡ enqueued w.calls ++ ready_of js))
        × (saved ≢ inr tt → (a ≡ inl not_persisted) × (enqueued v.calls ≡ enqueued w.calls))
        × ArePlain js
  unfolding create_job_batch
  create_job_batch-enqueues now parse q qs w =
      let js = batch_of now parse (q ∷ qs) in
      let c = save_batch_of js in
      let v : World S = record {
        state = (b.store.write c w.state).1;
        calls = w.calls ++ writes c ∷ [];
      } in
      let unchanged : enqueued v.calls ≡ enqueued w.calls =
        enqueued-append w.calls (writes c ∷ [])
        ∙ (unfold enqueued in append-nil (enqueued w.calls)) in
      let p = by_answer js (as_done (b.store.write c w.state).0) v w unchanged in
      (p.0, p.1, batch_of-ArePlain now parse (q ∷ qs))
