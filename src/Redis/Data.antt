-- ===== src/Redis/Data.antt =====
-- What is kept under the keys of internal/queue/redis/redis.go, of the `RedisStore` of
-- internal/storage/models/models.go, and of internal/webhooks.
use task_queue_system.Prelude.{ℕ, Bool, Option, List, ℕ_discrete, String_discrete, String}
use task_queue_system.Prelude.Int.{ℤ}
use task_queue_system.Jobs.Types.{Job}
use task_queue_system.Webhooks.Types.{RegisteredWebhook, DeliveryRecord}

-- The three priority lists: `qHigh`, `qMedium` and `qLow`.
pub data Tier : Type 0 where
  high medium low : Tier

-- The keys, by the format that the source builds them with; different formats never give the same
-- text, for they differ in their constant parts.
pub data Key : Type 0 where
  tier : Tier → Key
  partition : Tier → ℕ → Key
  delayed in_flight payloads dead_letter : Key
  metrics_total metrics_completed metrics_failed : Key
  job_types_registered tenants_registered tenants paused_job_types webhook_stream : Key
  active_type active_tenant deferred deferred_tenant : String → Key
  job_active_key job_active_tenant_key processed rate heartbeat : String → Key
  job_store : Key
  job_text dedup client : String → Key
  webhooks_registered : Key
  deliveries : String → Key

-- The texts stored: a job in JSON, an identifier, the JSON of a job type's or a tenant's settings
-- (the fields that the queue decodes), a key, a counter, and any other text.
pub data Entry : Type 0 where
  job_json : Job → Entry
  ident : String → Entry
  settings : (concurrency_limit : ℤ) (paused : Bool) → Entry
  key_name : Key → Entry
  counter : ℕ → Entry
  other_text : String → Entry
  webhook_json : RegisteredWebhook → Entry
  delivery_json : DeliveryRecord → Entry

unfoldable pub Key_discrete : Discrete Key
Key_discrete = hlevel (ℕ_discrete, String_discrete)

unfoldable pub Entry_discrete : Discrete Entry
Entry_discrete = hlevel (ℕ_discrete, String_discrete)

-- A string value with the moment at which it expires.
pub record Cell : Type 0 where
  pub entry : Entry
  pub deadline : Option ℕ

-- The content of the server, and its clock in nanoseconds.
pub record Store : Type 0 where
  pub lists : Key → List Entry
  pub zsets : Key → List (Entry × ℕ)
  pub hashes : Key → List (String × Entry)
  pub streams : Key → List Entry
  pub sets : Key → List String
  pub strings : Key → Option Cell
  pub clock : ℕ
