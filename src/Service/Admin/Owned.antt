-- ===== src/Service/Admin/Owned.antt =====
-- What a tenant may do to the jobs of another.
use task_queue_system.Storage.Dual.{get_by_id_of}
use task_queue_system.Jobs.Types.{Job}
use task_queue_system.Service.World.{forbidden, as_job, World, Backend}
use task_queue_system.Service.Admin.{replay_job, delete_job, replay_found, delete_found}
use task_queue_system.Prelude.{ℕ, ◌≡◌, ◌≢◌, inl, inr, arith, String}

module _ {S : Type 0} (b : Backend S) (now : ℕ) (id tenant : String) (j : Job) (w : World S) where
  -- With the record found: for a tenant that is not the owner, has a name and is not the operator,
  -- `ReplayJob` and `DeleteJob` are refused and leave the store and the queue as they are.
  foreign-refused :
      as_job (b.store.read (get_by_id_of id) w.state) ≡ inr j
      → tenant ≢ ""
      → tenant ≢ "operator"
      → j.tenant_id ≢ tenant
      → (replay_job b now id tenant w ≡ (inl forbidden, w))
        × (delete_job b id tenant w ≡ (inl forbidden, w))
  unfolding replay_job replay_found delete_job delete_found
  foreign-refused e some_name no_operator foreign = rw e (ground arith, ground arith)
