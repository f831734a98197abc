-- ===== src/Service/Results/Promotes.antt =====
-- Which jobs the end of a job brings to the queue.
use task_queue_system.Storage.Query.{status_text}
use task_queue_system.Storage.Dual.{update_result_of, get_by_id_of, get_dependent_jobs_of}
use task_queue_system.Service.Results.{
  update_job_result, tell_found, promote_found, promote_dependents, after_result,
  collect_webhook_targets, publish_webhook_event, publish_sse, enqueue_each, tell_targets,
}
use task_queue_system.Jobs.Types.{Value, completed, JobStatus_discrete, JobStatus, Job}
use task_queue_system.Service.World.{
  ◌>>=◌, pure, as_done, read, as_job, broadcasts, as_jobs, acks, writes, shows, logged, enqueues,
  notifies, Answer, World, ServiceCall, Backend,
}
use mathlib.Core.List.{append-nil, append_assoc}
use mathlib.Core.Path.{subst}
use task_queue_system.Prelude.{
  ℕ, ◌≡◌, refl, sym, ap, ◌∙◌, inl, inr, ite, List, [], ◌∷◌, ◌++◌, String, Bool-cases,
}

-- The jobs given to the queue.
unfoldable pub enqueued : List ServiceCall → List Job
enqueued [] = []
enqueued (enqueues j ∷ cs) = j ∷ enqueued cs
enqueued (_ ∷ cs) = enqueued cs

pub enqueued-append : (cs ds : List ServiceCall) → enqueued (cs ++ ds) ≡ enqueued cs ++ enqueued ds
unfolding enqueued
enqueued-append [] ds = refl
enqueued-append (enqueues j ∷ cs) ds = ap (λ js. j ∷ js) (enqueued-append cs ds)
enqueued-append (writes c ∷ cs) ds = enqueued-append cs ds
enqueued-append (acks id ∷ cs) ds = enqueued-append cs ds
enqueued-append (broadcasts id ∷ cs) ds = enqueued-append cs ds
enqueued-append (shows id st ty te ∷ cs) ds = enqueued-append cs ds
enqueued-append (notifies e u s j ∷ cs) ds = enqueued-append cs ds

module _ {S : Type 0} where
  -- What a part of a method does to the queue and to the store.
  pub record Enqueues (js : List Job) (w v : World S) : Type 0 where
    pub queue : enqueued v.calls ≡ enqueued w.calls ++ js
    pub store : v.state ≡ w.state

  pub Enqueues-nothing : (w : World S) → Enqueues [] w w
  Enqueues-nothing w = record { queue = sym (append-nil (enqueued w.calls)); store = refl }

  pub Enqueues-then :
      {js ks : List Job} {u v w : World S}
      → Enqueues js u v
      → Enqueues ks v w
      → Enqueues (js ++ ks) u w
  Enqueues-then {js} {ks} {u} p q = record {
    queue = q.queue ∙ ap (λ l. l ++ ks) p.queue ∙ append_assoc (enqueued u.calls) js ks;
    store = q.store ∙ p.store;
  }

  -- A call that gives the queue nothing.
  pub Enqueues-call : (c : ServiceCall) (w : World S) → Enqueues (enqueued (c ∷ [])) w (logged c w)
  Enqueues-call c w = record { queue = enqueued-append w.calls (c ∷ []); store = refl }

  tell_targets-Enqueues :
      (event : String) (j : Job) (ts : List (String × String)) (w : World S)
      → Enqueues [] w (tell_targets event j ts w).1
  unfolding tell_targets enqueued
  tell_targets-Enqueues event j [] w = Enqueues-nothing w
  tell_targets-Enqueues event j (t ∷ ts) w =
      Enqueues-then (Enqueues-call (notifies event t.0 t.1 j) w)
        (tell_targets-Enqueues event j ts (logged (notifies event t.0 t.1 j) w))

module _ {S : Type 0} (b : Backend S) where
  pub publish_webhook_event-Enqueues :
      (j : Job) (event : String) (w : World S) → Enqueues [] w (publish_webhook_event b j event w).1
  unfolding publish_webhook_event
  publish_webhook_event-Enqueues j event w =
      tell_targets-Enqueues event j (collect_webhook_targets b j event) w

  pub publish_sse-Enqueues :
      (id status type tenant : String) (w : World S)
      → Enqueues [] w (publish_sse b id status type tenant w).1
  unfolding publish_sse enqueued
  publish_sse-Enqueues id status type tenant w = elim (Bool-cases b.has_broker) [
    | inl p ↦ rw p (Enqueues-call (shows id status type tenant) w)
    | inr q ↦ rw q (Enqueues-nothing w)
  ]

  pub enqueue_each-Enqueues : (js : List Job) (w : World S) → Enqueues js w (enqueue_each b js w).1
  unfolding enqueue_each enqueued
  enqueue_each-Enqueues [] w = Enqueues-nothing w
  enqueue_each-Enqueues (j ∷ js) w =
      Enqueues-then (Enqueues-call (enqueues j) w)
        (enqueue_each-Enqueues js (logged (enqueues j) w))

  -- The dependent jobs of a completed job.
  abbrev pub listed : Answer (List Job) → List Job
  listed (inl e) = []
  listed (inr js) = js

  abbrev pub dependents : String → JobStatus → S → List Job
  dependents id status s =
      ite (JobStatus_discrete status completed)
        (listed (as_jobs (b.store.read (get_dependent_jobs_of id) s))) []

  promote_found-Enqueues :
      (a : Answer (List Job)) (w : World S) → Enqueues (listed a) w (promote_found b a w).1
  unfolding promote_found
  promote_found-Enqueues (inl e) w = Enqueues-nothing w
  promote_found-Enqueues (inr js) w = enqueue_each-Enqueues js w

  promote_dependents-Enqueues :
      (id : String) (status : JobStatus) (w : World S)
      → Enqueues (dependents id status w.state) w (promote_dependents b id status w).1
  unfolding promote_dependents
  promote_dependents-Enqueues id status w =
      elim (JobStatus_discrete status completed)
        as (λ d.
          Enqueues (ite d (listed (as_jobs (b.store.read (get_dependent_jobs_of id) w.state))) []) w
            ((ite d (read b (get_dependent_jobs_of id) >>= λ r. promote_found b (as_jobs r))
                (pure tt))
              w).1) [
                | yes p ↦
                    promote_found-Enqueues
                      (as_jobs (b.store.read (get_dependent_jobs_of id) w.state)) w
                | no n ↦ Enqueues-nothing w
              ]

  -- The jobs that follow a recorded result: none if it was refused, or if its record is not found.
  abbrev pub promoted : String → JobStatus → S → Answer (Unit {0}) → Answer Job → List Job
  promoted id status s (inl e) j = []
  promoted id status s (inr _) (inl e) = []
  promoted id status s (inr _) (inr j) = dependents id status s

  tell_found-Enqueues :
      (id : String) (status : JobStatus) (a : Answer Job) (w : World S)
      → Enqueues (promoted id status w.state (inr tt) a) w (tell_found b id status a w).1
  unfolding tell_found
  tell_found-Enqueues id status (inl e) w = Enqueues-nothing w
  tell_found-Enqueues id status (inr j) w =
      let shown = publish_sse-Enqueues id (status_text status) j.type j.tenant_id w in
      let v = (publish_sse b id (status_text status) j.type j.tenant_id w).1 in
      let told = publish_webhook_event-Enqueues j (status_text status) v in
      let u = (publish_webhook_event b j (status_text status) v).1 in
      let unmoved : u.state ≡ w.state = told.store ∙ shown.store in
      let last = promote_dependents-Enqueues id status u in
      subst (λ s. Enqueues (dependents id status s) w (promote_dependents b id status u).1) unmoved
        (Enqueues-then shown (Enqueues-then told last))

  after_result-Enqueues :
      (id : String) (status : JobStatus) (r : Answer (Unit {0})) (w : World S)
      → let (a, v) = after_result b id status r w in
        Enqueues
          (promoted id status w.state r (as_job (b.store.read (get_by_id_of id) w.state)))
          w
          v
        × (a ≡ r)
  unfolding after_result
  after_result-Enqueues id status (inl e) w = (Enqueues-nothing w, refl)
  after_result-Enqueues id status (inr tt) w =
      (tell_found-Enqueues id status (as_job (b.store.read (get_by_id_of id) w.state)) w, refl)

  -- Whatever the store and the queue answer: `UpdateJobResult` makes one write, returns its error if it has
  -- one, and gives the queue the jobs that depend on the job, each once and in the order of the store, if
  -- the write succeeded, the job is found, the status is completed and the store lists them; else none.
  pub update_job_result-promotes :
      (now : ℕ) (id : String) (status : JobStatus) (worker : String) (result : Value) (w : World S)
      → let (r, s) = b.store.write (update_result_of now id status worker result) w.state in
        let (a, v) = update_job_result b now id status worker result w in
        (a ≡ as_done r)
        × (v.state ≡ s)
        × (enqueued v.calls
            ≡ enqueued w.calls
              ++ promoted id status s (as_done r) (as_job (b.store.read (get_by_id_of id) s)))
  unfolding update_job_result
  update_job_result-promotes now id status worker result w =
      let c = update_result_of now id status worker result in
      let (r, s) = b.store.write c w.state in
      let v : World S = record { state = s; calls = w.calls ++ writes c ∷ [] } in
      let rest = after_result-Enqueues id status (as_done r) v in
      let unchanged : enqueued (w.calls ++ writes c ∷ []) ≡ enqueued w.calls =
        enqueued-append w.calls (writes c ∷ [])
        ∙ (unfold enqueued in append-nil (enqueued w.calls)) in
      (
        rest.1,
        rest.0.store,
        rest.0.queue
            ∙ ap
                (λ l.
                  l ++ promoted id status s (as_done r) (as_job (b.store.read (get_by_id_of id) s)))
                unchanged,
      )
