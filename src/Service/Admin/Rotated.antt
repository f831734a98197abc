-- ===== src/Service/Admin/Rotated.antt =====
-- The keys of a tenant after `RotateClientKey` over the memory store.
use task_queue_system.Webhooks.Types.{RegisteredWebhook}
use task_queue_system.Jobs.Types.{Job}
use task_queue_system.Service.World.{memory_backend, World, ServiceCall}
use task_queue_system.Storage.Dual.{in_memory_write}
use task_queue_system.Prelude.Map.{lookup-retain, retain, lookup-insert, Unique}
use task_queue_system.Storage.{
  is_of_other, InMemoryStore, verify_client, register_client, revoke_client, client_not_found,
}
use task_queue_system.Service.Admin.{rotate_client_key, after_revoked, register_new}
use task_queue_system.Prelude.{
  ◌≡◌, refl, ◌≢◌, inl, inr, Bool, Option, some, List, arith, String_discrete, String,
}

-- The keys after a rotation: the new one is the tenant's, no other key of the tenant is accepted, and the
-- keys of others are as before.
pub record Rotated (tenant new : String) (s t : InMemoryStore) : Type 0 where
  pub renewed : verify_client new t ≡ inr tenant
  pub revoked :
      (hash : String)
      → new ≢ hash
      → verify_client hash s ≡ inr tenant
      → verify_client hash t ≡ inl client_not_found
  pub others :
      (hash : String)
      → new ≢ hash
      → verify_client hash s ≢ inr tenant
      → verify_client hash t ≡ verify_client hash s
  pub records : t.data_ ≡ s.data_

register-after_revoke :
    (tenant new : String) (s : InMemoryStore)
    → Unique String_discrete s.clients
    → Rotated tenant new s (register_client tenant new (revoke_client tenant s))
unfolding verify_client register_client revoke_client
register-after_revoke tenant new s u = record {
  renewed = ground (
    arith,
    lookup-insert String_discrete new new tenant
        (retain String_discrete (is_of_other tenant) s.clients),
  );
  revoked = λ hash ne h. ground (
    arith,
    lookup-insert String_discrete new hash tenant
        (retain String_discrete (is_of_other tenant) s.clients),
    lookup-retain String_discrete (is_of_other tenant) hash s.clients u,
  );
  others = λ hash ne h. ground (
    arith,
    lookup-insert String_discrete new hash tenant
        (retain String_discrete (is_of_other tenant) s.clients),
    lookup-retain String_discrete (is_of_other tenant) hash s.clients u,
  );
  records = refl;
}

-- The service over a memory store with one record to a hash, given a new key: `RotateClientKey` returns it,
-- and from then on the tenant is recognised by the new key and by none of its earlier ones, and every other
-- tenant as before.
pub rotate_client_key-Rotated :
    (accepts : List ServiceCall → Job → Bool)
    (endpoints : (tenant event : String) → Option (List RegisteredWebhook)) (has_broker : Bool)
    (hash_of : String → String) (tenant key : String) (w : World InMemoryStore)
    → Unique String_discrete w.state.clients
    → let (a, v) =
        rotate_client_key
          (memory_backend accepts endpoints has_broker)
          tenant
          hash_of
          (some key)
          w in
      (a ≡ inr key) × Rotated tenant (hash_of key) w.state v.state
unfolding rotate_client_key after_revoked register_new in_memory_write
rotate_client_key-Rotated accepts endpoints has_broker hash_of tenant key w u =
    (refl, register-after_revoke tenant (hash_of key) w.state u)
