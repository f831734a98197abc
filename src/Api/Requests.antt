-- ===== src/Api/Requests.antt =====
-- internal/api/dto/dto.go: the bodies of the requests that create jobs. The clock, the parser of times
-- (RFC 3339) and that of cron expressions are arguments; an error keeps what its message names.
pub mod Valid
pub mod Batch
use task_queue_system.Prelude.{
  ℕ, zero, suc, ◌+◌, ◌-◌, ◌*◌, ◌/◌, ◌%◌, ◌^◌, ◌≤◌, ◌<◌, ◌≡◌, refl, sym, ap, ◌∙◌, ◌≢◌, ◌↔◌, ◌⊎◌, inl,
  inr, ite, if_pos, if_neg, Bool, true, false, not, ◌&&◌, ◌||◌, Option, none, some, List, [], ◌∷◌,
  ◌++◌, map, arith, dec_lt, dec_le, ℕ_discrete, String_discrete, String, ltb, leb, ◌==◌,
  if◌then◌else◌, length, Bool-cases, Option-cases, if-intro,
}
use task_queue_system.Prelude.Map.{lookup}
use task_queue_system.Prelude.Int.{ℤ, pos, negsuc}
use task_queue_system.Jobs.Types.{Job, Value, AttemptError}

pub record WebhookRequest : Type 0 where
  pub url : String
  pub secret : String
  pub events : List String

-- A nil payload is `none`.
pub record CreateJobRequest : Type 0 where
  pub type : String
  pub payload : Option (List (String × Value))
  pub labels : List (String × String)
  pub priority : String
  pub max_retries : ℤ
  pub backoff_algorithm : String
  pub backoff_jitter : String
  pub cron_expr : String
  pub run_at : String
  pub correlation_id : String
  pub timeout : ℤ
  pub version : ℤ
  pub tenant_id : String
  pub dedup_key : String
  pub dependencies : List String
  pub shard_key : String
  pub webhook : Option WebhookRequest
  pub ttl_seconds : ℤ

pub data RequestError : Type 0 where
  type_required ttl_negative payload_required : RequestError
  field_required : (key : String) → RequestError
  invalid_cron invalid_run_at run_at_past : RequestError
  invalid_algorithm invalid_jitter : (value : String) → RequestError

-- The `switch` on the type: the key of the payload that it asks for.
unfoldable pub required_key : String → Option String
required_key t = ite (String_discrete t "email") (some "to") (
    ite (String_discrete t "image") (some "source_url")
      (ite (String_discrete t "http") (some "url") none))

-- `s, _ := payload[key].(string)`.
unfoldable pub text_in : Option Value → String
text_in (some (Value.text s)) = s
text_in _ = ""

minute : ℕ
minute = 60000000000

unfoldable pub is_negative : ℤ → Bool
is_negative (pos n) = false
is_negative (negsuc n) = true

unfoldable pub is_algorithm : String → Bool
is_algorithm a =
    ite (String_discrete a "exponential") true
      (ite (String_discrete a "linear") true (ite (String_discrete a "fixed") true false))

unfoldable pub is_jitter : String → Bool
is_jitter a =
    ite (String_discrete a "none") true
      (ite (String_discrete a "full") true (ite (String_discrete a "equal") true false))

pub data BatchError : Type 0 where
  no_jobs too_many_jobs : BatchError
  invalid_job : (index : ℕ) → RequestError → BatchError

module _ (now : ℕ) (parse_time : String → Option ℕ) (parses_cron : String → Bool) where
  check_time : Option ℕ → Option RequestError
  unfolding minute
  check_time none = some invalid_run_at
  check_time (some t) = if ltb (t + minute) now then some run_at_past else none

  check_run_at : CreateJobRequest → Option RequestError
  unfolding check_time
  check_run_at r = ite (String_discrete r.run_at "") none (check_time (parse_time r.run_at))

  check_jitter : CreateJobRequest → Option RequestError
  unfolding check_run_at
  check_jitter r = ite (String_discrete r.backoff_jitter "") (check_run_at r) (
      if is_jitter r.backoff_jitter then check_run_at r else some (invalid_jitter r.backoff_jitter))

  check_algorithm : CreateJobRequest → Option RequestError
  unfolding check_jitter
  check_algorithm r = ite (String_discrete r.backoff_algorithm "") (check_jitter r) (
      if is_algorithm r.backoff_algorithm
      then check_jitter r
      else some (invalid_algorithm r.backoff_algorithm))

  check_cron : CreateJobRequest → Option RequestError
  unfolding check_algorithm
  check_cron r =
      ite (String_discrete r.cron_expr "") (check_algorithm r)
        (if parses_cron r.cron_expr then check_algorithm r else some invalid_cron)

  check_key : CreateJobRequest → List (String × Value) → Option String → Option RequestError
  unfolding check_cron text_in
  check_key r p none = check_cron r
  check_key r p (some k) =
      ite (String_discrete (text_in (lookup String_discrete k p)) "") (some (field_required k))
        (check_cron r)

  check_payload : CreateJobRequest → Option (List (String × Value)) → Option RequestError
  unfolding check_key required_key
  check_payload r none = some payload_required
  check_payload r (some p) = check_key r p (required_key r.type)

  -- `CreateJobRequest.Validate`, `none` for no error.
  unfoldable pub validate : CreateJobRequest → Option RequestError
  unfolding check_payload is_negative
  validate r =
      ite (String_discrete r.type "") (some type_required)
        (if is_negative r.ttl_seconds then some ttl_negative else check_payload r r.payload)

  found_at : ℕ → Option BatchError → Option RequestError → Option BatchError
  found_at i rest none = rest
  found_at i rest (some e) = some (invalid_job i e)

  validate_from : ℕ → List CreateJobRequest → Option BatchError
  unfolding found_at
  validate_from i [] = none
  validate_from i (r ∷ rs) = found_at i (validate_from (i + 1) rs) (validate r)

  -- `BatchJobRequest.Validate`; the error of a job comes with its index.
  unfoldable pub validate_batch : List CreateJobRequest → Option BatchError
  unfolding validate_from
  validate_batch rs =
      if length rs == 0
      then some no_jobs
      else if ltb 100 (length rs)
      then some too_many_jobs
      else validate_from 0 rs
