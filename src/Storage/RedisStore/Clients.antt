-- ===== src/Storage/RedisStore/Clients.antt =====
-- The clients of `RedisStore`: one key for the hash of an API key, which holds the tenant. What SCAN
-- answered is an argument: one list of hashes for each round until the cursor is 0, `none` where it failed.
pub mod Revoked
use task_queue_system.Storage.RedisStore.{all_pages, options_of}
use task_queue_system.Storage.{has_tenant, ClientRecord}
use task_queue_system.Redis.Commands.{mget, set_key, get, del, value, Reply}
use task_queue_system.Redis.Data.{client, ident, Entry}
use task_queue_system.Redis.Client.{
  ◌>>◌, ◌>>=◌, not_found, io_failed, fail_with, send, pure, attempt, ok, M, Result, Call,
}
use task_queue_system.Prelude.{
  ℕ, ite, Bool, true, false, Option, none, some, List, [], ◌∷◌, ◌++◌, map, String_discrete, String,
  if◌then◌else◌,
}

abbrev tenant_in : Reply → M String
tenant_in (value (ident t)) = pure t
tenant_in Reply.nil = fail_with not_found
tenant_in _ = fail_with io_failed

-- The tenants among the values, each once.
tenants_among : ℕ → List (Option Entry) → List ClientRecord → List ClientRecord
tenants_among now [] out = out
tenants_among now (some (ident t) ∷ os) out =
    tenants_among now os
      (if has_tenant t out then out else out ++ record { tenant_id = t; created_at = now } ∷ [])
tenants_among now (_ ∷ os) out = tenants_among now os out

unfoldable pub is_tenant : String → Result Reply → Bool
is_tenant tenant (ok (value (ident t))) = ite (String_discrete t tenant) true false
is_tenant tenant _ = false

module _ (call : Call) where
  -- `RegisterClient` and `VerifyClient`.
  unfoldable pub register_client : (tenant hash : String) → M (Unit {0})
  register_client tenant hash = send call (set_key (client hash) (ident tenant)) >> pure tt

  unfoldable pub verify_client : String → M String
  verify_client hash = send call (get (client hash)) >>= tenant_in

  -- `ListClients`.
  list_found : ℕ → Option (List String) → M (List ClientRecord)
  unfolding tenants_among
  list_found now none = fail_with io_failed
  list_found now (some []) = pure []
  list_found now (some (h ∷ hs)) = do
    r ← send call (mget (map client (h ∷ hs)))
    os ← options_of r
    pure (tenants_among now os [])

  unfoldable pub list_clients : ℕ → List (Option (List String)) → M (List ClientRecord)
  unfolding list_found all_pages
  list_clients now pages = list_found now (all_pages pages)

  -- `RevokeClient`: each key that SCAN gives is read, and deleted if it holds the tenant.
  delete_if : Bool → String → M (Unit {0})
  delete_if true hash = attempt (send call (del (client hash))) >> pure tt
  delete_if false hash = pure tt

  pub revoke_each : String → List String → M (Unit {0})
  unfolding delete_if is_tenant
  revoke_each tenant [] = pure tt
  revoke_each tenant (h ∷ hs) =
      let rest = revoke_each tenant hs in
      attempt (send call (get (client h))) >>= λ r. delete_if (is_tenant tenant r) h >> rest

  unfoldable pub revoke_client : String → List (Option (List String)) → M (Unit {0})
  unfolding revoke_each
  revoke_client tenant [] = pure tt
  revoke_client tenant (none ∷ ps) = fail_with io_failed
  revoke_client tenant (some p ∷ ps) = revoke_each tenant p >> revoke_client tenant ps
