-- ===== src/Api/Tenants.antt =====
-- internal/api/handler: the routes of one job (access.go and handler.go), for a request that the
-- middleware has let in with context `ctx`; `id` is the identifier from the path, `now` the clock.
pub mod Isolated
use task_queue_system.Prelude.{
  ℕ, zero, suc, ◌+◌, ◌-◌, ◌*◌, ◌/◌, ◌%◌, ◌^◌, ◌≤◌, ◌<◌, ◌≡◌, refl, sym, ap, ◌∙◌, ◌≢◌, ◌↔◌, ◌⊎◌, inl,
  inr, ite, if_pos, if_neg, Bool, true, false, not, ◌&&◌, ◌||◌, Option, none, some, List, [], ◌∷◌,
  ◌++◌, map, arith, dec_lt, dec_le, ℕ_discrete, String_discrete, String, ltb, leb, ◌==◌,
  if◌then◌else◌, length, Bool-cases, Option-cases, if-intro,
}
use task_queue_system.Jobs.Types.{Job, Float}
use task_queue_system.Service.Results
use task_queue_system.Storage.Dual.{get_by_id_of}
use task_queue_system.Service.World.{
  as_job, M, Backend, Answer, ServiceError, ServiceCall, shows, ◌>>=◌, ◌>>◌, pure, read, tell,
}
use task_queue_system.Service.Admin.{set_paused, replay_job, delete_job}
use task_queue_system.Api.Auth.{Context, tenant_id_from_context, is_client_tenant}

-- What is written to the client.
pub data Response : Type 0 where
  job_found : Job → Response
  done : Response
  missing_id invalid_body denied : Response
  failed_with : ServiceError → Response

-- `checkJobTenantAccess`: whether the access is granted.
unfoldable pub check_job_tenant_access : Context → Job → Bool
unfolding is_client_tenant tenant_id_from_context
check_job_tenant_access ctx j =
    if is_client_tenant (tenant_id_from_context ctx)
    then ite (String_discrete j.tenant_id (tenant_id_from_context ctx)) true false
    else true

-- The tenant that the replay and the deletion of a failed job pass on.
abbrev pub client_tenant : Context → String
client_tenant ctx =
    if is_client_tenant (tenant_id_from_context ctx) then tenant_id_from_context ctx else ""

done_of : Answer (Unit {0}) → Response
done_of (inl e) = failed_with e
done_of (inr _) = done

module _ {S : Type 0} (b : Backend S) (ctx : Context) where
  load_found : Answer Job → (Job → M S Response) → M S Response
  load_found (inl e) k = pure (failed_with e)
  load_found (inr j) k = if check_job_tenant_access ctx j then k j else pure denied

  -- `loadJobForTenant`, and what the handler does with the job.
  load_job_for_tenant : String → (Job → M S Response) → M S Response
  unfolding load_found
  load_job_for_tenant id k = read b (get_by_id_of id) >>= λ r. load_found (as_job r) k

  -- `publishDLQSSE` after a success.
  publish_dlq : (id status : String) → Answer Job → M S Response
  publish_dlq id status (inl e) = pure (failed_with e)
  publish_dlq id status (inr j) = tell (shows id status "dlq" "") >> pure (job_found j)

  publish_deleted : String → Answer (Unit {0}) → M S Response
  publish_deleted id (inl e) = pure (failed_with e)
  publish_deleted id (inr _) = tell (shows id "purged" "dlq" "") >> pure done

  set_paused_of : Bool → ℕ → String → M S Response
  unfolding done_of
  set_paused_of paused now id =
      ite (String_discrete id "") (pure missing_id)
        (load_job_for_tenant id (λ _. set_paused b paused now id >>= λ a. pure (done_of a)))

  -- `GetJobStatus`, from where the identifier has been found in the path.
  unfoldable pub get_job_status : String → M S Response
  unfolding load_job_for_tenant
  get_job_status id =
      ite (String_discrete id "") (pure missing_id)
        (load_job_for_tenant id (λ j. pure (job_found j)))

  -- `GetFailedJobDetail`.
  unfoldable pub get_failed_job_detail : String → M S Response
  unfolding load_job_for_tenant
  get_failed_job_detail id = load_job_for_tenant id (λ j. pure (job_found j))

  -- `PauseJob` and `ResumeJob`.
  unfoldable pub pause_job : ℕ → String → M S Response
  unfolding set_paused_of load_job_for_tenant
  pause_job now id = set_paused_of true now id

  unfoldable pub resume_job : ℕ → String → M S Response
  unfolding set_paused_of load_job_for_tenant
  resume_job now id = set_paused_of false now id

  -- `CancelJob`.
  unfoldable pub cancel_job : String → M S Response
  unfolding load_job_for_tenant done_of
  cancel_job id =
      ite (String_discrete id "") (pure missing_id)
        (load_job_for_tenant id (λ _. Results.cancel_job b id >>= λ a. pure (done_of a)))

  -- `UpdateJobProgress`; `progress` is from the body, `none` where that cannot be decoded.
  progress_of : ℕ → String → Option Float → M S Response
  unfolding load_job_for_tenant done_of
  progress_of now id none = pure invalid_body
  progress_of now id (some p) =
      load_job_for_tenant id (λ _. Results.update_job_progress b now id p >>= λ a. pure (done_of a))

  unfoldable pub update_job_progress : ℕ → String → Option Float → M S Response
  unfolding progress_of load_job_for_tenant done_of
  update_job_progress now id progress =
      ite (String_discrete id "") (pure missing_id) (progress_of now id progress)

  -- `ReplayFailedJob`.
  unfoldable pub replay_failed_job : ℕ → String → M S Response
  unfolding publish_dlq
  replay_failed_job now id =
      replay_job b now id (client_tenant ctx) >>= λ a. publish_dlq id "replayed" a

  -- `DeleteFailedJob`.
  unfoldable pub delete_failed_job : String → M S Response
  unfolding publish_deleted
  delete_failed_job id = delete_job b id (client_tenant ctx) >>= λ a. publish_deleted id a
