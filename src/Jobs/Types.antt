-- ===== src/Jobs/Types.antt =====
-- internal/jobs/job.go: the types. A status is one of the constants of the source; a priority and
-- the backoff settings come from requests, so they are texts, as in Go.
use task_queue_system.Prelude.{ℕ, String, Bool, true, false, Option, List}
use task_queue_system.Prelude.Int.{ℤ}

-- `JobStatus`.
pub data JobStatus : Type 0 where
  pending processing completed failed cancelled recurring : JobStatus

unfoldable pub JobStatus_discrete : Discrete JobStatus
JobStatus_discrete = hlevel

-- `JobPriority` and its constants.
abbrev pub JobPriority : Type 0
JobPriority = String

abbrev pub priority_low : JobPriority
priority_low = "low"

abbrev pub priority_medium : JobPriority
priority_medium = "medium"

abbrev pub priority_high : JobPriority
priority_high = "high"

-- `WebhookConfig`; an optional field of the JSON record is present with its zero value.
pub record WebhookConfig : Type 0 where
  pub url : String
  pub secret : String
  pub events : List String
  pub last_status : ℤ
  pub attempts : ℤ

-- `AttemptError`.
pub record AttemptError : Type 0 where
  pub error : String
  pub timestamp : ℕ
  pub attempt : ℤ

-- `BackoffAlgorithm` and `BackoffJitter` and their constants.
abbrev pub BackoffAlgorithm : Type 0
BackoffAlgorithm = String

abbrev pub backoff_exponential : BackoffAlgorithm
backoff_exponential = "exponential"

abbrev pub backoff_linear : BackoffAlgorithm
backoff_linear = "linear"

abbrev pub backoff_fixed : BackoffAlgorithm
backoff_fixed = "fixed"

abbrev pub BackoffJitter : Type 0
BackoffJitter = String

abbrev pub jitter_none : BackoffJitter
jitter_none = "none"

abbrev pub jitter_full : BackoffJitter
jitter_full = "full"

abbrev pub jitter_equal : BackoffJitter
jitter_equal = "equal"

-- The values that an `interface{}` holds after JSON decoding; a number keeps its digits.
mutual
  pub data Value : Type 0 where
    null : Value
    bool : Bool → Value
    number : String → Value
    text : String → Value
    array : Values → Value
    object : Fields → Value

  pub data Values : Type 0 where
    nil : Values
    cons : Value → Values → Values

  pub data Fields : Type 0 where
    end : Fields
    field : String → Value → Fields → Fields

-- A `float64` that a client sends: millionths, or not a number.
pub data Float : Type 0 where
  millionths : ℤ → Float
  nan : Float

abbrev pub is_number : Float → Bool
is_number (millionths n) = true
is_number nan = false

-- `Job`. A nil payload is `none`; of the labels no code tells a nil map from an empty one.
pub record Job : Type 0 where
  pub id : String
  pub type : String
  pub payload : Option (List (String × Value))
  pub labels : List (String × String)
  pub status : JobStatus
  pub priority : JobPriority
  pub retries : ℕ
  pub max_retries : ℤ
  pub backoff_algorithm : BackoffAlgorithm
  pub backoff_jitter : BackoffJitter
  pub cron_expr : String
  pub created_at : ℕ
  pub updated_at : ℕ
  pub run_at : ℕ
  pub processed_by : String
  pub correlation_id : String
  pub timeout : ℤ
  pub version : ℤ
  pub tenant_id : String
  pub paused : Bool
  pub progress : Float
  pub result : Value
  pub webhook : Option WebhookConfig
  pub dedup_key : String
  pub dependencies : List String
  pub shard_key : String
  pub trace_id : String
  pub expires_at : ℕ
  pub error_history : List AttemptError
