-- ===== src/Examples/Records.antt =====
-- The record store on Redis, with a job and a client.
use task_queue_system.Storage.RedisStore.Scan.Pages.{list_jobs-scanned, matches, window}
use task_queue_system.Storage.Query.{list_matches, or_zero, newest_first}
use task_queue_system.Jobs.Types.{Value, millionths, completed}
use task_queue_system.Prelude.Int.{pos}
use task_queue_system.Redis.Commands.{perform}
use task_queue_system.Jobs.Create.{new_job}
use task_queue_system.Prelude.Map.{lookup}
use task_queue_system.Storage.RedisStore.Refines.{writes-Refine, Represents, Refines}
use task_queue_system.Redis.Data.{job_json, Entry}
use task_queue_system.Storage.RedisStore.{all_pages}
use task_queue_system.Storage.{complete, InMemoryStore}
use task_queue_system.Examples.Queue.{server, perform-Documented}
use task_queue_system.Examples.Jobs.{email_job}
use task_queue_system.Storage
use task_queue_system.Storage.RedisStore
use task_queue_system.Storage.RedisStore.Scan.{list_jobs}
use task_queue_system.Storage.RedisStore.Clients.{register_client, revoke_client, verify_client}
use task_queue_system.Storage.RedisStore.Clients.Revoked.{verify_client-revoke_client}
use task_queue_system.Redis.Client.{send, Server, ok, err, not_found}
use task_queue_system.Redis.Commands.{set_has}
use task_queue_system.Prelude.{◌≢◌, ◌≡◌, refl, inr, true, some, List, [], ◌∷◌, String}

abbrev empty_map : InMemoryStore
empty_map = record { data_ = []; clients = [] }

empty_map-Represents : Represents server empty_map
unfolding lookup
empty_map-Represents = record { delivers = refl; same = λ id. refl; encodable = λ id j h. cc }

abbrev Written : Type 0
Written =
    Refines (RedisStore.save perform email_job server) (Storage.save (some email_job) empty_map)
    × Refines (RedisStore.update_progress perform 9 "job1" (millionths (pos 5)) server)
        (Storage.update_progress 9 "job1" (millionths (pos 5)) empty_map)
    × Refines (RedisStore.update_result perform 9 "job1" completed "w" Value.null server)
        (Storage.update_result 9 "job1" completed "w" Value.null empty_map)
    × Refines (RedisStore.complete perform 9 "job1" Value.null server)
        (Storage.complete 9 "job1" Value.null empty_map)
    × Refines (RedisStore.fail perform 9 "job1" "no" true server)
        (Storage.fail 9 "job1" "no" true empty_map)
    × Refines (RedisStore.delete_job perform "job1" server)
        (inr tt, Storage.delete_job "job1" empty_map)

writes-Refine_example : Written
unfolding new_job
writes-Refine_example =
    writes-Refine perform email_job 9 "job1" "w" "no" completed (pos 5) Value.null true server
      empty_map perform-Documented refl empty_map-Represents

abbrev fields : List (String × Entry)
fields = ("job1", job_json email_job) ∷ []

one_page : all_pages (some fields ∷ []) ≡ some fields
unfolding all_pages
one_page = refl

list_jobs-scanned_example :
    list_jobs "acme" "" "" (pos 10) (pos 0) (some fields ∷ [])
    ≡ some (
        newest_first
          (window (pos 10) (or_zero (pos 0)) (matches (list_matches "acme" "" "") fields)))
list_jobs-scanned_example =
    list_jobs-scanned "acme" "" "" (pos 10) (pos 0) (some fields ∷ []) fields one_page

abbrev with_client : Server
with_client = (register_client perform "acme" "hash1" server).1

with_client-delivers : with_client.faults ≡ []
unfolding register_client send
with_client-delivers = refl

one_round : all_pages {A = String} (some ("hash1" ∷ []) ∷ []) ≡ some ("hash1" ∷ [])
unfolding all_pages
one_round = refl

verify_client-revoke_client_example :
    let t = (revoke_client perform "acme" (some ("hash1" ∷ []) ∷ []) with_client).1 in
    (set_has "hash1" ("hash1" ∷ []) ≡ true
      → (verify_client perform "hash1" with_client).0 ≡ ok "acme"
      → (verify_client perform "hash1" t).0 ≡ err not_found)
    × ((verify_client perform "hash1" with_client).0 ≢ ok "acme"
        → (verify_client perform "hash1" t).0 ≡ (verify_client perform "hash1" with_client).0)
verify_client-revoke_client_example =
    verify_client-revoke_client perform "acme" "hash1" (some ("hash1" ∷ []) ∷ []) ("hash1" ∷ [])
      with_client perform-Documented with_client-delivers one_round
