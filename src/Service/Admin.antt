-- ===== src/Service/Admin.antt =====
-- internal/service/job_service.go: what operators and tenants do (`PauseJob`, `ResumeJob`, `ReplayJob`,
-- `DeleteJob`, `PurgeJobsBefore`, `BulkPurgeDLQ`, `ArchiveOldJobs`, `JobStatusCounts`, `RotateClientKey`).
pub mod Owned
pub mod Purged
pub mod Rotated
use task_queue_system.Storage.Query.{status_text}
use task_queue_system.Prelude.Int.{pos_part, pos, leb_ℤ, ℤ}
use task_queue_system.Storage.Dual.{
  archive_old_jobs_of, delete_job_of, save_of, count_jobs_of, revoke_client_of, register_client_of,
  get_by_id_of, delete_jobs_before_of,
}
use task_queue_system.Jobs.Types.{
  cancelled, processing, failed, Value, pending, completed, JobStatus, Job,
}
use task_queue_system.Service.World.{
  as_count, not_enqueued, forbidden, as_job, as_done, no_key, M, Backend, Answer, ◌>>=◌, ◌>>◌, pure,
  read, write, enqueue, tell, acks,
}
use task_queue_system.Prelude.{
  ℕ, zero, suc, ◌+◌, ◌-◌, ◌*◌, ◌/◌, ◌%◌, ◌^◌, ◌≤◌, ◌<◌, ◌≡◌, refl, sym, ap, ◌∙◌, ◌≢◌, ◌↔◌, ◌⊎◌, inl,
  inr, ite, if_pos, if_neg, Bool, true, false, not, ◌&&◌, ◌||◌, Option, none, some, List, [], ◌∷◌,
  ◌++◌, map, arith, dec_lt, dec_le, ℕ_discrete, String_discrete, String, ltb, leb, ◌==◌,
  if◌then◌else◌, length, Bool-cases, Option-cases, if-intro,
}

-- `tenantID != "" && tenantID != "operator" && job.TenantID != tenantID`.
abbrev pub is_foreign : String → Job → Bool
is_foreign tenant j = ite (String_discrete tenant "") false (
    ite (String_discrete tenant "operator") false
      (ite (String_discrete j.tenant_id tenant) false true))

-- The reset of `ReplayJob`.
abbrev pub reset : ℕ → Job → Job
reset now j = record j {
  status = pending;
  retries = 0;
  updated_at = now;
  processed_by = "";
  result = Value.null;
}

abbrev plus : ℕ → Answer ℕ → Answer ℕ
plus n (inl e) = inl e
plus n (inr m) = inr (n + m)

module _ {S : Type 0} (b : Backend S) where
  save_found : (Job → Job) → Answer Job → M S (Answer (Unit {0}))
  save_found f (inl e) = pure (inl e)
  save_found f (inr j) = write b (save_of (some (f j))) >>= λ r. pure (as_done r)

  -- `PauseJob` and `ResumeJob`.
  unfoldable pub set_paused : Bool → ℕ → String → M S (Answer (Unit {0}))
  unfolding save_found
  set_paused paused now id = read b (get_by_id_of id) >>= λ r.
      save_found (λ j. record j { paused = paused; updated_at = now }) (as_job r)

  -- `ReplayJob`.
  unfoldable pub enqueue_saved : Job → Answer (Unit {0}) → M S (Answer Job)
  enqueue_saved j (inl e) = pure (inl e)
  enqueue_saved j (inr _) =
      enqueue b j >>= λ accepted. pure (if accepted then inr j else inl not_enqueued)

  unfoldable pub replay_found : ℕ → String → Answer Job → M S (Answer Job)
  unfolding enqueue_saved
  replay_found now tenant (inl e) = pure (inl e)
  replay_found now tenant (inr j) =
      if is_foreign tenant j
      then pure (inl forbidden)
      else (write b (save_of (some (reset now j))) >>= λ r. enqueue_saved (reset now j) (as_done r))

  unfoldable pub replay_job : ℕ → (id tenant : String) → M S (Answer Job)
  unfolding replay_found
  replay_job now id tenant = read b (get_by_id_of id) >>= λ r. replay_found now tenant (as_job r)

  -- `DeleteJob`.
  unfoldable pub delete_found : (id tenant : String) → Answer Job → M S (Answer (Unit {0}))
  delete_found id tenant (inl e) = pure (inl e)
  delete_found id tenant (inr j) =
      if is_foreign tenant j
      then pure (inl forbidden)
      else (write b (delete_job_of id) >>= λ r. pure (as_done r))

  unfoldable pub delete_job : (id tenant : String) → M S (Answer (Unit {0}))
  unfolding delete_found
  delete_job id tenant = read b (get_by_id_of id) >>= λ r. delete_found id tenant (as_job r)

  -- `PurgeJobsBefore`: the statuses in turn; with an error the source also returns the sum reached.
  purge_then : Answer ℕ → M S (Answer ℕ) → M S (Answer ℕ)
  purge_then (inl e) rest = pure (inl e)
  purge_then (inr n) rest = rest >>= λ a. pure (plus n a)

  unfoldable pub purge_each : ℕ → List JobStatus → M S (Answer ℕ)
  unfolding purge_then
  purge_each before [] = pure (inr 0)
  purge_each before (st ∷ sts) =
      write b (delete_jobs_before_of "" (status_text st) "" before) >>= λ r.
      purge_then (as_count r) (purge_each before sts)

  unfoldable pub purge_jobs_before : ℕ → M S (Answer ℕ)
  unfolding purge_each
  purge_jobs_before before = purge_each before (completed ∷ failed ∷ cancelled ∷ [])

  -- `BulkPurgeDLQ`.
  unfoldable pub bulk_purge_dlq : (tenant type : String) → ℕ → M S (Answer ℕ)
  bulk_purge_dlq tenant type before =
      write b (delete_jobs_before_of tenant (status_text failed) type before) >>= λ r.
      pure (as_count r)

  -- `ArchiveOldJobs`, for a moment `now` that is not before `maxAge`.
  unfoldable pub archive_old_jobs : ℕ → ℤ → M S (Answer ℕ)
  archive_old_jobs now max_age =
      if leb_ℤ max_age (pos 0)
      then pure (inr 0)
      else (write b (archive_old_jobs_of (now - pos_part max_age)) >>= λ r. pure (as_count r))

  -- `JobStatusCounts`.
  count_of : String → JobStatus → M S (Answer ℕ)
  count_of tenant st =
      read b (
        count_jobs_of (record {
          tenant_id = tenant;
          status = status_text st;
          type = "";
          search_query = "";
          label_key = "";
          label_value = "";
          created_after = 0;
          created_before = 0;
          limit = pos 0;
          offset = pos 0;
        }))
      >>= λ r. pure (as_count r)

  add_count :
      JobStatus → Answer ℕ → M S (Answer (List (String × ℕ))) → M S (Answer (List (String × ℕ)))
  add_count st (inl e) rest = pure (inl e)
  add_count st (inr n) rest =
      rest >>= λ a. pure (elim a [ inl e ↦ inl e | inr m ↦ inr ((status_text st, n) ∷ m) ])

  count_each : String → List JobStatus → M S (Answer (List (String × ℕ)))
  unfolding count_of add_count
  count_each tenant [] = pure (inr [])
  count_each tenant (st ∷ sts) = count_of tenant st >>= λ a. add_count st a (count_each tenant sts)

  unfoldable pub job_status_counts : String → M S (Answer (List (String × ℕ)))
  unfolding count_each
  job_status_counts tenant =
      count_each tenant (pending ∷ processing ∷ completed ∷ failed ∷ cancelled ∷ [])

  -- `RotateClientKey`: `key` is the new key, `none` where no random bytes are given; `hash_of` is the hash.
  register_new : String → (String → String) → Option String → M S (Answer String)
  register_new tenant hash_of none = pure (inl no_key)
  register_new tenant hash_of (some key) =
      write b (register_client_of tenant (hash_of key)) >>= λ r.
      pure (elim (as_done r) [ inl e ↦ inl e | inr _ ↦ inr key ])

  after_revoked :
      String → (String → String) → Option String → Answer (Unit {0}) → M S (Answer String)
  unfolding register_new
  after_revoked tenant hash_of key (inl e) = pure (inl e)
  after_revoked tenant hash_of key (inr _) = register_new tenant hash_of key

  unfoldable pub rotate_client_key :
      String → (String → String) → Option String → M S (Answer String)
  unfolding after_revoked
  rotate_client_key tenant hash_of key =
      write b (revoke_client_of tenant) >>= λ r. after_revoked tenant hash_of key (as_done r)
