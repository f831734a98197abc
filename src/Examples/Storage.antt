-- ===== src/Examples/Storage.antt =====
-- A store with one job in processing and one client, and `DualStore` over two such stores.
use task_queue_system.Prelude.{◌≡◌, some, refl}
use task_queue_system.Prelude.Int.{pos}
use task_queue_system.Storage.{InMemoryStore, JobFilter, new_in_memory_store, save, register_client}
use task_queue_system.Storage.Query.Order.{
  IsListing, ListJobsShows, SearchJobsShows, pages-IsListing,
}
use task_queue_system.Storage.Query.Matching.{MatchesList, MatchesFilter}
use task_queue_system.Storage.Dual.{StoreWrite, StoreRead, dual_store, in_memory}
use task_queue_system.Storage.Dual.Mirror.{dual_store-refines}
use task_queue_system.Examples.Jobs.{email_job}

abbrev pub store : InMemoryStore
store = register_client "acme" "hash1" (save (some email_job) new_in_memory_store).1

abbrev all_jobs : JobFilter
all_jobs = record {
  tenant_id = "";
  status = "";
  type = "email";
  search_query = "";
  label_key = "";
  label_value = "";
  created_after = 0;
  created_before = 0;
  limit = pos 0;
  offset = pos 0;
}

pages-IsListing_example :
    IsListing (MatchesList "acme" "" "") store.data_ (ListJobsShows "acme" "" "" (pos 0) store 0)
    × IsListing (MatchesFilter all_jobs) store.data_ (SearchJobsShows all_jobs store 0)
pages-IsListing_example = pages-IsListing "acme" "" "" (pos 0) all_jobs store 0 refl refl

dual_store-refines_example :
    ((c : StoreWrite)
      → ((dual_store in_memory in_memory).write c (store, new_in_memory_store)).0
        ≡ (in_memory.write c store).0)
    × ((c : StoreWrite)
        → ((dual_store in_memory in_memory).write c (store, new_in_memory_store)).1.0
          ≡ (in_memory.write c store).1)
    × ((c : StoreRead)
        → (dual_store in_memory in_memory).read c (store, new_in_memory_store)
          ≡ in_memory.read c store)
dual_store-refines_example = dual_store-refines in_memory in_memory store new_in_memory_store
