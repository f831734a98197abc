-- ===== src/Queue/Operate/Paused.antt =====
-- The switch of a job type: what a pause and a resumption change.
use task_queue_system.Prelude.{
  ◌≡◌, refl, ◌≢◌, ite, true, false, List, [], ◌∷◌, arith, String_discrete, String,
}
use task_queue_system.Redis.Data.{paused_job_types}
use task_queue_system.Redis.Commands.{perform, set_add, set_remove, set_has}
use task_queue_system.Redis.Client.{Call, Documented, by_document, Server, ok, send}
use task_queue_system.Queue.Operate.{pause_job_type, resume_job_type, is_job_type_paused}

set_has-set_add :
    (x y : String) (l : List String)
    → set_has y (set_add x l) ≡ ite (String_discrete x y) true (set_has y l)
unfolding set_has set_add
set_has-set_add x y [] = refl
set_has-set_add x y (z ∷ l) = ground (arith, set_has-set_add x y l)

set_has-set_remove :
    (x y : String) (l : List String)
    → set_has y (set_remove x l) ≡ ite (String_discrete x y) false (set_has y l)
unfolding set_has set_remove
set_has-set_remove x y [] = ground arith
set_has-set_remove x y (z ∷ l) = ground (arith, set_has-set_remove x y l)

-- What `IsJobTypePaused` says after a switch of `type`.
pub record Switched (call : Call) (type : String) (s : Server) : Type 0 where
  pub paused : (is_job_type_paused call type (pause_job_type call type s).1).0 ≡ ok true
  pub resumed : (is_job_type_paused call type (resume_job_type call type s).1).0 ≡ ok false
  pub others :
      (u : String)
      → type ≢ u
      → ((is_job_type_paused call u (pause_job_type call type s).1).0
          ≡ (is_job_type_paused call u s).0)
        × ((is_job_type_paused call u (resume_job_type call type s).1).0
            ≡ (is_job_type_paused call u s).0)

pause-Switched : (type : String) (s : Server) → s.faults ≡ [] → Switched perform type s
unfolding is_job_type_paused pause_job_type resume_job_type send perform
pause-Switched type s f =
    let l = s.store.sets paused_job_types in
    record {
      paused = ground (arith, set_has-set_add type type l);
      resumed = ground (arith, set_has-set_remove type type l);
      others = λ u ne.
          (ground (arith, set_has-set_add type u l), ground (arith, set_has-set_remove type u l));
    }

-- While every request is delivered, a job type is paused after `PauseJobType` and not after
-- `ResumeJobType`, whatever it was before, and no other type is switched.
is_job_type_paused-Switched :
    (call : Call) (type : String) (s : Server)
    → Documented call
    → s.faults ≡ []
    → Switched call type s
is_job_type_paused-Switched call type s doc f =
    by_document (λ c. Switched c type s) doc (pause-Switched type s f)
