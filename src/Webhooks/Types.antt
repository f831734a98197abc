-- ===== src/Webhooks/Types.antt =====
-- internal/webhooks: the records that are kept as JSON (store.go and deliveries.go).
use task_queue_system.Prelude.{ℕ, String, Bool, List}
use task_queue_system.Prelude.Int.{ℤ}

-- `RegisteredWebhook`.
pub record RegisteredWebhook : Type 0 where
  pub id : String
  pub tenant_id : String
  pub url : String
  pub secret : String
  pub events : List String
  pub created_at : ℕ

-- `DeliveryRecord`; a status of 0 is a transport error.
pub record DeliveryRecord : Type 0 where
  pub timestamp : ℕ
  pub job_id : String
  pub tenant_id : String
  pub url : String
  pub status_code : ℕ
  pub attempt : ℕ
  pub success : Bool
  pub error : String
  pub backoff_ms : ℤ
