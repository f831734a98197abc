-- ===== src/Api/Tenants/Isolated.antt =====
-- What a client can reach on the routes of `JobRoute`, and what these change.
use mathlib.Core.Path.{subst}
use task_queue_system.Prelude.{
  if◌then◌else◌, Bool, none, some, Option, ℕ, ◌≡◌, refl, ◌⊎◌, inl, inr, ite, true, false, arith,
  String_discrete, String, Bool-cases,
}
use task_queue_system.Prelude.{ite-intro}
use task_queue_system.Jobs.Types.{Float, Job}
use task_queue_system.Storage.Dual.{get_by_id_of}
use task_queue_system.Service.World.{as_job, M, World, Backend, Answer, ◌>>=◌, pure}
use task_queue_system.Service.Results
use task_queue_system.Service.World.{not_enqueued}
use task_queue_system.Service.Admin.{
  set_paused, reset, enqueue_saved, enqueue_saved, replay_job, delete_job, replay_found,
  delete_found, is_foreign,
}
use task_queue_system.Api.Auth.{Context, tenant_id_from_context, is_client_tenant}
use task_queue_system.Api.Tenants.{
  done_of, cancel_job, update_job_progress, progress_of, Response, job_found, missing_id,
  check_job_tenant_access, client_tenant, load_found, load_job_for_tenant, publish_dlq,
  publish_deleted, set_paused_of, get_job_status, get_failed_job_detail, pause_job, resume_job,
  replay_failed_job, delete_failed_job,
}

-- The routes of one job that are modelled. The view of a job's dependencies (`GetJobDeps`), which shows
-- other jobs too, is not among them.
pub data JobRoute : Type 0 where
  status detail pause resume cancel replay purge : JobRoute
  progress : Option Float → JobRoute

-- The job is the caller's, if the caller is a client.
abbrev IsOwn : Context → Job → Type 0
IsOwn ctx j =
    is_client_tenant (tenant_id_from_context ctx) ≡ true → j.tenant_id ≡ tenant_id_from_context ctx

access-IsOwn : (ctx : Context) (j : Job) → check_job_tenant_access ctx j ≡ true → IsOwn ctx j
unfolding check_job_tenant_access
access-IsOwn ctx j e client = ground (arith, e, client)

not_foreign-IsOwn :
    (ctx : Context) (j : Job) → is_foreign (client_tenant ctx) j ≡ false → IsOwn ctx j
unfolding is_client_tenant tenant_id_from_context
not_foreign-IsOwn ctx j e client = ground (arith, e, client)

module _ {S : Type 0} (b : Backend S) (ctx : Context) where
  unfoldable pub handle : JobRoute → ℕ → String → M S Response
  handle status now id = get_job_status b ctx id
  handle detail now id = get_failed_job_detail b ctx id
  handle pause now id = pause_job b ctx now id
  handle resume now id = resume_job b ctx now id
  handle cancel now id = cancel_job b ctx id
  handle (progress p) now id = update_job_progress b ctx now id p
  handle replay now id = replay_failed_job b ctx now id
  handle purge now id = delete_failed_job b ctx id

  -- A job shown is the caller's own.
  abbrev ShowsOwn : Response → Type 0
  ShowsOwn r = (j : Job) → r ≡ job_found j → IsOwn ctx j

  -- What the route's own call to the service, for this identifier, makes of the store.
  abbrev pub left_by : JobRoute → ℕ → String → World S → S
  left_by status now id w = w.state
  left_by detail now id w = w.state
  left_by pause now id w = (set_paused b true now id w).1.state
  left_by resume now id w = (set_paused b false now id w).1.state
  left_by cancel now id w = (Results.cancel_job b id w).1.state
  left_by (progress none) now id w = w.state
  left_by (progress (some p)) now id w = (Results.update_job_progress b now id p w).1.state
  left_by replay now id w = (replay_job b now id (client_tenant ctx) w).1.state
  left_by purge now id w = (delete_job b id (client_tenant ctx) w).1.state

  -- A job shown is the caller's own. Nothing changes and nothing is called; or the job that the identifier
  -- names is the caller's, and the store becomes `left`.
  abbrev pub IsIsolated : S → String → World S → Response × World S → Type 0
  IsIsolated left id w r =
      ShowsOwn r.0
      × ((r.1 ≡ w)
          ⊎ ((j : Job) × (as_job (b.store.read (get_by_id_of id) w.state) ≡ inr j)
              × IsOwn ctx j
              × (r.1.state ≡ left)))

  found-ShowsOwn : (j : Job) → IsOwn ctx j → ShowsOwn (job_found j)
  found-ShowsOwn j own i e = let q : j ≡ i = ground (arith, e) in subst (IsOwn ctx) q own

  done_of-ShowsOwn : (a : Answer (Unit {0})) → ShowsOwn (done_of a)
  unfolding done_of
  done_of-ShowsOwn (inl e) j h = ground arith
  done_of-ShowsOwn (inr u) j h = ground arith

  -- The handlers show a job only if it is the one loaded.
  abbrev Shows : (Job → M S Response) → Type 0
  Shows k = (j : Job) (w : World S) → IsOwn ctx j → ShowsOwn (k j w).0

  load_found-IsIsolated :
      (left : S) (id : String) (w : World S) (a : Answer Job) (k : Job → M S Response)
      → Shows k
      → ((j : Job) → (k j w).1.state ≡ left)
      → as_job (b.store.read (get_by_id_of id) w.state) ≡ a
      → IsIsolated left id w (load_found b ctx a k w)
  unfolding load_found
  load_found-IsIsolated left id w (inl e) k shows leaves eq = (λ j h. ground arith, inl refl)
  load_found-IsIsolated left id w (inr j) k shows leaves eq =
      elim (Bool-cases (check_job_tenant_access ctx j)) [
        | inl p ↦ let own = access-IsOwn ctx j p in rw p (shows j w own, inr (j, eq, own, leaves j))
        | inr p ↦ rw p (λ i h. ground arith, inl refl)
      ]

  publish_dlq-state :
      (id text : String) (a : Answer Job) (w : World S)
      → (publish_dlq b ctx id text a w).1.state ≡ w.state
  unfolding publish_dlq
  publish_dlq-state id text (inl e) w = refl
  publish_dlq-state id text (inr j) w = refl

  publish_deleted-state :
      (id : String) (a : Answer (Unit {0})) (w : World S)
      → (publish_deleted b ctx id a w).1.state ≡ w.state
  unfolding publish_deleted
  publish_deleted-state id (inl e) w = refl
  publish_deleted-state id (inr u) w = refl

  replayed-ShowsOwn :
      (id : String) (j : Job) (accepted : Bool) (w : World S)
      → IsOwn ctx j
      → ShowsOwn
          (publish_dlq b ctx id "replayed" (if accepted then inr j else inl not_enqueued) w).0
  unfolding publish_dlq
  replayed-ShowsOwn id j true w own = found-ShowsOwn j own
  replayed-ShowsOwn id j false w own = λ i h. ground arith

  enqueue_saved-ShowsOwn :
      (id : String) (j : Job) (a : Answer (Unit {0})) (w : World S)
      → IsOwn ctx j
      → ShowsOwn ((enqueue_saved b j a >>= λ r. publish_dlq b ctx id "replayed" r) w).0
  unfolding enqueue_saved
  enqueue_saved-ShowsOwn id j (inl e) w own = unfold publish_dlq in λ i h. ground arith
  enqueue_saved-ShowsOwn id j (inr u) w own = replayed-ShowsOwn id j (b.accepts w.calls j) _ own

  replay_found-IsIsolated :
      (now : ℕ) (id : String) (w : World S) (a : Answer Job)
      → as_job (b.store.read (get_by_id_of id) w.state) ≡ a
      → IsIsolated
          (replay_found b now (client_tenant ctx) a w).1.state
          id
          w
          ((replay_found b now (client_tenant ctx) a >>= λ r. publish_dlq b ctx id "replayed" r) w)
  unfolding replay_found
  replay_found-IsIsolated now id w (inl e) eq =
      unfold publish_dlq in (λ j h. ground arith, inl refl)
  replay_found-IsIsolated now id w (inr j) eq =
      elim (Bool-cases (is_foreign (client_tenant ctx) j)) [
        | inl p ↦ rw p (unfold publish_dlq in (λ i h. ground arith, inl refl))
        | inr p ↦
            let own = not_foreign-IsOwn ctx j p in
            rw p (
              enqueue_saved-ShowsOwn id (reset now j) _ _ own,
              inr (j, eq, own, publish_dlq-state id "replayed" _ _),
            )
      ]

  publish_deleted-ShowsOwn :
      (id : String) (a : Answer (Unit {0})) (w : World S)
      → ShowsOwn (publish_deleted b ctx id a w).0
  unfolding publish_deleted
  publish_deleted-ShowsOwn id (inl e) w j h = ground arith
  publish_deleted-ShowsOwn id (inr u) w j h = ground arith

  delete_found-IsIsolated :
      (id : String) (w : World S) (a : Answer Job)
      → as_job (b.store.read (get_by_id_of id) w.state) ≡ a
      → IsIsolated
          (delete_found b id (client_tenant ctx) a w).1.state
          id
          w
          ((delete_found b id (client_tenant ctx) a >>= λ r. publish_deleted b ctx id r) w)
  unfolding delete_found
  delete_found-IsIsolated id w (inl e) eq =
      (publish_deleted-ShowsOwn id _ _, unfold publish_deleted in inl refl)
  delete_found-IsIsolated id w (inr j) eq = elim (Bool-cases (is_foreign (client_tenant ctx) j)) [
    | inl p ↦ rw p (publish_deleted-ShowsOwn id _ _, unfold publish_deleted in inl refl)
    | inr p ↦ rw p (
      publish_deleted-ShowsOwn id _ _,
      inr (j, eq, not_foreign-IsOwn ctx j p, publish_deleted-state id _ _),
    )
  ]

  named-IsIsolated :
      (left : S) (id : String) (w : World S) (m : M S Response)
      → IsIsolated left id w (m w)
      → IsIsolated left id w (ite (String_discrete id "") (pure missing_id) m w)
  named-IsIsolated left id w m h =
      ite-intro {A = M S Response} (λ k. IsIsolated left id w (k w)) (String_discrete id "") _ _
        (λ _. (λ j e. ground arith, inl refl)) (λ _. h)

  -- A handler that loads the job, and then answers only whether its call succeeded.
  loaded-IsIsolated :
      (id : String) (w : World S) (call : M S (Answer (Unit {0})))
      → IsIsolated
          (call w).1.state
          id
          w
          (load_job_for_tenant b ctx id (λ _. call >>= λ a. pure (done_of a)) w)
  unfolding load_job_for_tenant
  loaded-IsIsolated id w call =
      load_found-IsIsolated (call w).1.state id w _ (λ _. call >>= λ a. pure (done_of a))
        (λ j v own. done_of-ShowsOwn (call v).0) (λ j. refl) refl

  shown-IsIsolated :
      (id : String) (w : World S)
      → IsIsolated w.state id w (load_job_for_tenant b ctx id (λ j. pure (job_found j)) w)
  unfolding load_job_for_tenant
  shown-IsIsolated id w =
      load_found-IsIsolated w.state id w _ (λ j. pure (job_found j))
        (λ j v own. found-ShowsOwn j own) (λ j. refl) refl

  progress_of-IsIsolated :
      (now : ℕ) (id : String) (w : World S) (p : Option Float)
      → IsIsolated (left_by (progress p) now id w) id w (progress_of b ctx now id p w)
  unfolding progress_of
  progress_of-IsIsolated now id w none = (λ j h. ground arith, inl refl)
  progress_of-IsIsolated now id w (some p) =
      loaded-IsIsolated id w (Results.update_job_progress b now id p)

  -- On each of the modelled routes (status, detail, pause, resume, cancellation, progress, replay and
  -- deletion; not the view of the dependencies), and whatever the store and the queue do: a job shown is
  -- of the caller's tenant, if the caller is a client. And nothing changes and nothing is called, or the
  -- job that the identifier names is the caller's in the same sense, and the store becomes what the
  -- service's own method for the route, called with this identifier, makes of it.
  pub handle-IsIsolated :
      (route : JobRoute) (now : ℕ) (id : String) (w : World S)
      → IsIsolated (left_by route now id w) id w (handle route now id w)
  unfolding handle get_job_status get_failed_job_detail pause_job resume_job cancel_job
      update_job_progress set_paused_of replay_failed_job delete_failed_job replay_job delete_job
  handle-IsIsolated status now id w = named-IsIsolated _ id w _ (shown-IsIsolated id w)
  handle-IsIsolated detail now id w = shown-IsIsolated id w
  handle-IsIsolated pause now id w =
      named-IsIsolated _ id w _ (loaded-IsIsolated id w (set_paused b true now id))
  handle-IsIsolated resume now id w =
      named-IsIsolated _ id w _ (loaded-IsIsolated id w (set_paused b false now id))
  handle-IsIsolated cancel now id w =
      named-IsIsolated _ id w _ (loaded-IsIsolated id w (Results.cancel_job b id))
  handle-IsIsolated (progress p) now id w =
      named-IsIsolated _ id w _ (progress_of-IsIsolated now id w p)
  handle-IsIsolated replay now id w = replay_found-IsIsolated now id w _ refl
  handle-IsIsolated purge now id w = delete_found-IsIsolated id w _ refl
