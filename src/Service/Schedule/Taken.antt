-- ===== src/Service/Schedule/Taken.antt =====
-- Which jobs `Dequeue` gives to a worker, and what it does with the others.
use task_queue_system.Storage.Dual.{update_status_of, get_by_ids_of}
use task_queue_system.Worker.Process.{nothing, a_job, Dequeued}
use task_queue_system.Jobs.Types.{pending, JobStatus_discrete, completed, Job}
use task_queue_system.Service.World.{acks, writes, as_jobs, Answer, World, Backend}
use mathlib.Core.List.{append_assoc}
use mathlib.Core.Path.{subst}
use task_queue_system.Service.Schedule.{check_found, check_dependencies, all_done, dequeue}
use task_queue_system.Prelude.{
  ◌≡◌, refl, ap, ◌≢◌, ◌⊎◌, inl, inr, true, false, List, [], ◌∷◌, ◌++◌, arith, String, Bool-cases,
}

-- Some job of the list is not completed; all are.
abbrev pub HasOpen : List Job → Type 0
HasOpen [] = ⊥
HasOpen (j ∷ js) = (j.status ≢ completed) ⊎ HasOpen js

abbrev pub AllCompleted : List Job → Type 0
AllCompleted [] = Unit {0}
AllCompleted (j ∷ js) = (j.status ≡ completed) × AllCompleted js

all_done-exact :
    (js : List Job) → (all_done js ≡ true → AllCompleted js) × (all_done js ≡ false → HasOpen js)
all_done-exact [] = (λ h. tt, λ h. cc)
all_done-exact (j ∷ js) = elim (JobStatus_discrete j.status completed) [
  | yes p ↦ (
    λ h. (p, (all_done-exact js).0 (ground arith)),
    λ h. inr ((all_done-exact js).1 (ground arith)),
  )
  | no n ↦ (λ h. ground arith, λ h. inl n)
]

module _ {S : Type 0} (b : Backend S) where
  -- How `Dequeue` treats a job that the queue gave.
  pub record Treated (j : Job) (w : World S) (a : Dequeued × World S) : Type 0 where
    -- It is handed out, and nothing is called.
    pub handed : (k : Job) → a.0 ≡ a_job k → (k ≡ j) × (a.1 ≡ w)
    -- It is handed out or held back.
    pub answered : (a.0 ≡ a_job j) ⊎ (a.0 ≡ nothing)
    -- It is held back only if a dependency that was found is open, and then it is marked as pending and
    -- taken from the queue.
    pub held :
        a.0 ≡ nothing
        → ((ds : List Job) × (as_jobs (b.store.read (get_by_ids_of j.dependencies) w.state)
              ≡ inr ds)
            × HasOpen ds)
          × (a.1.calls ≡ w.calls ++ writes (update_status_of j.id pending "") ∷ acks j.id ∷ [])
    -- It is handed out in spite of dependencies only if the store fails or all that were found are completed.
    pub cleared :
        (ds : List Job)
        → a.0 ≡ a_job j
        → j.dependencies ≢ []
        → as_jobs (b.store.read (get_by_ids_of j.dependencies) w.state) ≡ inr ds
        → AllCompleted ds

  handed_out :
      (j : Job) (w : World S)
      → ((ds : List Job)
          → j.dependencies ≢ []
          → as_jobs (b.store.read (get_by_ids_of j.dependencies) w.state) ≡ inr ds
          → AllCompleted ds)
      → Treated j w (a_job j, w)
  handed_out j w all = record {
    handed = λ k h. (cc, refl);
    answered = inl refl;
    held = λ h. cc;
    cleared = λ ds h ne e. all ds ne e;
  }

  check_found-Treated :
      (j : Job) (w : World S) (r : Answer (List Job))
      → as_jobs (b.store.read (get_by_ids_of j.dependencies) w.state) ≡ r
      → Treated j w (check_found b j r w)
  unfolding check_found
  check_found-Treated j w (inl e) q = handed_out j w (λ ds ne h. cc)
  check_found-Treated j w (inr ds) q = elim (Bool-cases (all_done ds)) [
    | inl p ↦ rw p (
        handed_out j w
          (λ es ne h. let same : ds ≡ es = cc in subst AllCompleted same ((all_done-exact ds).0 p)))
    | inr n ↦ rw n (record {
      handed = λ k h. cc;
      answered = inr refl;
      held = λ h. ((ds, q, (all_done-exact ds).1 n), append_assoc w.calls _ _);
      cleared = λ es h. cc;
    })
  ]

  -- Whatever the store answers: a job that the queue gives is handed out unchanged without any call, or held
  -- back. It is held back only if one of its dependencies was found and is not completed; it is then marked
  -- as pending and acknowledged, and nothing else is called. A job with dependencies is handed out only if
  -- the store failed to look them up or every one that it found is completed.
  pub dequeue-Treated : (j : Job) (w : World S) → Treated j w (dequeue b (a_job j) w)
  unfolding dequeue check_dependencies
  dequeue-Treated j w = by_list j.dependencies (λ _. j.dependencies)
    where
      by_list :
          (ids : List String) → j.dependencies ≡ ids → Treated j w (check_dependencies b j ids w)
      by_list [] e = handed_out j w (λ ds ne h. absurd (ne e))
      by_list (id ∷ ids) e =
          check_found-Treated j w (as_jobs (b.store.read (get_by_ids_of (id ∷ ids)) w.state))
            (ap (λ l. as_jobs (b.store.read (get_by_ids_of l) w.state)) e)
