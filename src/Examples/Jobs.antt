-- ===== src/Examples/Jobs.antt =====
-- A job.
use task_queue_system.Prelude.{◌≡◌, refl, none, [], ℕ_discrete, String_discrete}
use task_queue_system.Prelude.Int.{pos}
use task_queue_system.Jobs.Types.{Job}
use task_queue_system.Jobs.Create.{NewJobArgs, new_job}

abbrev args : NewJobArgs
args = record {
  type = "email";
  payload = none;
  labels = [];
  priority = "high";
  max_retries = pos 3;
  run_at = 0;
  correlation_id = "";
  timeout = pos 60;
  version = pos 0;
  tenant_id = "acme";
}

abbrev pub email_job : Job
unfolding new_job
email_job = new_job "job1" "corr1" 5 args

defaults :
    (email_job.run_at ≡ 5) × (email_job.correlation_id ≡ "corr1") × (email_job.version ≡ pos 1)
unfolding new_job String_discrete ℕ_discrete
defaults = (refl, refl, refl)
