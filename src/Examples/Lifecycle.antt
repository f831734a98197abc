-- ===== src/Examples/Lifecycle.antt =====
-- The service over a memory store with one recurring template, which spawns a job.
use task_queue_system.Api.Auth.{key_context}
use task_queue_system.Api.Tenants.Isolated.{left_by, IsIsolated, handle, pause, handle-IsIsolated}
use task_queue_system.Service.Schedule.Recurring.{due}
use task_queue_system.Service.Results.{update_job_result}
use task_queue_system.Storage.Query.{search_jobs}
use task_queue_system.Service.Results.Promotes.{update_job_result-promotes, promoted, enqueued}
use task_queue_system.Worker.Process.{a_job}
use task_queue_system.Storage.{InMemoryStore}
use task_queue_system.Jobs.Create.{new_job}
use task_queue_system.Prelude.Map.{lookup}
use task_queue_system.Storage.Dual.{get_by_id_of, search_jobs_of, update_result_of, in_memory_read}
use task_queue_system.Service.Schedule.Taken.{dequeue-Treated, Treated}
use task_queue_system.Service.Admin.Rotated.{rotate_client_key-Rotated, Rotated}
use task_queue_system.Jobs.Types.{Value, recurring, completed, Job}
use task_queue_system.Service.World.{memory_backend, as_jobs, as_job, as_done, World, Backend}
use task_queue_system.Service.Schedule.{instance_of, templates}
use task_queue_system.Examples.Jobs.{email_job}
use task_queue_system.Service.Schedule
use task_queue_system.Service.Admin
use task_queue_system.Service.Admin.Purged.{purge_jobs_before-Purged, is_expired}
use task_queue_system.Storage.Query.Counts.{Purged}
use task_queue_system.Prelude.{
  ℕ, ◌≡◌, refl, inr, true, none, some, [], ◌∷◌, ◌++◌, ℕ_discrete, String_discrete, length,
}

abbrev backend : Backend InMemoryStore
backend = memory_backend (λ cs j. true) (λ tenant event. none) true

abbrev template : Job
template = record email_job { id = "job9"; status = recurring; cron_expr = "* * * * *" }

abbrev world : World InMemoryStore
world = record {
  state = record {
    data_ = ("job9", template) ∷ ("job1", email_job) ∷ [];
    clients = ("hash1", "acme") ∷ [];
  };
  calls = [];
}

listed :
    as_jobs (backend.store.read (search_jobs_of templates) world.state)
    ≡ inr (search_jobs templates world.state)
unfolding in_memory_read
listed = refl

one_is_due : length (due 60 (λ e. some 120) (search_jobs templates world.state)) ≡ 1
unfolding due search_jobs new_job String_discrete ℕ_discrete
one_is_due = refl

update_job_result-promotes_example :
    let (r, s) =
      backend.store.write (update_result_of 8 "job1" completed "w" Value.null) world.state in
    let (a, v) = update_job_result backend 8 "job1" completed "w" Value.null world in
    (a ≡ as_done r)
    × (v.state ≡ s)
    × (enqueued v.calls
        ≡ enqueued world.calls
          ++ promoted backend "job1" completed s
              (as_done r)
              (as_job (backend.store.read (get_by_id_of "job1") s)))
update_job_result-promotes_example =
    update_job_result-promotes backend 8 "job1" completed "w" Value.null world

abbrev waiting : Job
waiting = record email_job { dependencies = "job9" ∷ [] }

dequeue-Treated_example :
    Treated backend waiting world (Schedule.dequeue backend (a_job waiting) world)
dequeue-Treated_example = dequeue-Treated backend waiting world

-- The key of another tenant asks to pause the job.
handle-IsIsolated_example :
    IsIsolated backend
      (key_context "other")
      (left_by backend (key_context "other") pause 8 "job1" world)
      "job1"
      world
      (handle backend (key_context "other") pause 8 "job1" world)
handle-IsIsolated_example = handle-IsIsolated backend (key_context "other") pause 8 "job1" world

rotate_client_key-Rotated_example :
    let (a, v) = Admin.rotate_client_key backend "acme" (λ k. "hash2") (some "key2") world in
    (a ≡ inr "key2") × Rotated "acme" "hash2" world.state v.state
rotate_client_key-Rotated_example =
    rotate_client_key-Rotated (λ cs j. true) (λ tenant event. none) true (λ k. "hash2") "acme"
      "key2" world (unfold lookup in (refl, tt))

purge_jobs_before-Purged_example :
    let (a, v) = Admin.purge_jobs_before backend 60 world in
    (n : ℕ) × (a ≡ inr n) × Purged (is_expired 60) world.state n v.state
unfolding String_discrete
purge_jobs_before-Purged_example =
    purge_jobs_before-Purged (λ cs j. true) (λ tenant event. none) true 60 world
      (unfold lookup in (refl, (refl, tt)))
