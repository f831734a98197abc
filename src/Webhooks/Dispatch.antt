-- ===== src/Webhooks/Dispatch.antt =====
-- internal/webhooks/dispatcher.go: `backoff` and `dispatch`. What the endpoint answers, when the shutdown
-- comes and `rand.Int63n` are arguments; the calls are listed in the order in which they are made.
pub mod Delays
pub mod Attempts
use task_queue_system.Jobs.Backoff.{second, int64}
use task_queue_system.Webhooks.Types.{DeliveryRecord}
use task_queue_system.Prelude.Int.{sub_ℕ, negsuc, ltb_ℤ, ℤ, pos}
use Prim.Native.Nat.{min}
use task_queue_system.Prelude.{
  ℕ, zero, suc, ◌+◌, ◌-◌, ◌*◌, ◌/◌, ◌%◌, ◌^◌, ◌≤◌, ◌<◌, ◌≡◌, refl, sym, ap, ◌∙◌, ◌≢◌, ◌↔◌, ◌⊎◌, inl,
  inr, ite, if_pos, if_neg, Bool, true, false, not, ◌&&◌, ◌||◌, Option, none, some, List, [], ◌∷◌,
  ◌++◌, map, arith, dec_lt, dec_le, ℕ_discrete, String_discrete, String, ltb, leb, ◌==◌,
  if◌then◌else◌, length, Bool-cases, Option-cases, if-intro,
}

-- `DispatcherConfig`; a time is in nanoseconds.
pub record DispatcherConfig : Type 0 where
  pub max_retries : ℕ
  pub base_delay : ℕ
  pub max_delay : ℕ

abbrev positive_or : ℕ → ℤ → ℕ
positive_or d (pos n) = if ltb 0 n then n else d
positive_or d (negsuc n) = d

-- `defaults`: five attempts, from a second to five minutes.
unfoldable pub defaults : (max_retries base_delay max_delay : ℤ) → DispatcherConfig
defaults m b d = record {
  max_retries = positive_or 5 m;
  base_delay = positive_or second b;
  max_delay = positive_or (300 * second) d;
}

-- `Event`, as far as a delivery record has it.
pub record Event : Type 0 where
  pub job_id : String
  pub tenant_id : String
  pub url : String

-- What `send` returns: a status below 400, one from 400 on, or a transport error with its text.
pub data Answered : Type 0 where
  delivered refused : ℕ → Answered
  unreachable : String → Answered

abbrev is_delivered : Answered → Bool
is_delivered (delivered n) = true
is_delivered _ = false

-- `isClientError`.
abbrev pub is_client_error : Answered → Bool
is_client_error (refused n) = leb 400 n && ltb n 500
is_client_error _ = false

-- No further attempt follows.
abbrev pub is_settled : Answered → Bool
is_settled a = is_delivered a || is_client_error a

abbrev status_of : Answered → ℕ
status_of (delivered n) = n
status_of (refused n) = n
status_of (unreachable e) = 0

pub data DispatchCall : Type 0 where
  waits : ℤ → DispatchCall
  posts : DispatchCall
  records : DeliveryRecord → DispatchCall
  acks panics : DispatchCall

-- `backoff`, in the int64 arithmetic of Go; `none` is the panic of `rand.Int63n` at a bound that is not
-- positive.
abbrev jitter : (ℕ → ℕ) → ℤ → Option ℤ
jitter int63n (pos n) = if ltb 0 (n / 2) then some (int64 (n + int63n (n / 2) - n / 4)) else none
jitter int63n (negsuc n) = none

abbrev clipped : ℕ → ℤ → ℤ
clipped m d = if ltb_ℤ (pos m) d then pos m else d

unfoldable pub backoff : (ℕ → ℕ) → DispatcherConfig → ℕ → Option ℤ
backoff int63n c attempt =
    jitter int63n (clipped c.max_delay (int64 (c.base_delay * 2 ^ min attempt c.max_retries)))

-- The answers: of the endpoint to each attempt, of the clock after it, the texts of the errors, and
-- whether the shutdown comes during the wait before an attempt.
pub record Conditions : Type 0 where
  pub answered : ℕ → Answered
  pub now : ℕ → ℕ
  pub text_of : Answered → String
  pub shutdown : ℕ → Bool
  pub int63n : ℕ → ℕ

module _ (c : DispatcherConfig) (e : Event) (a : Conditions) where
  delivery : ℕ → ℤ → DeliveryRecord
  delivery attempt backoff_ms = record {
    timestamp = a.now attempt;
    job_id = e.job_id;
    tenant_id = e.tenant_id;
    url = e.url;
    status_code = status_of (a.answered attempt);
    attempt = attempt + 1;
    success = is_delivered (a.answered attempt);
    error = if is_delivered (a.answered attempt) then "" else a.text_of (a.answered attempt);
    backoff_ms = backoff_ms;
  }

  -- One attempt, with what follows a failure that is worth another one.
  attempt_then : ℕ → ℤ → List DispatchCall → List DispatchCall
  unfolding delivery
  attempt_then attempt backoff_ms rest =
      posts
      ∷ records (delivery attempt backoff_ms)
      ∷ (if is_settled (a.answered attempt) then acks ∷ [] else rest)

  abbrev milliseconds : ℤ → ℤ
  milliseconds (pos n) = pos (n / 1000000)
  milliseconds (negsuc n) = sub_ℕ 0 ((n + 1) / 1000000)

  -- The wait before an attempt that is not the first.
  wait_then : ℕ → Option ℤ → (ℤ → List DispatchCall) → List DispatchCall
  wait_then attempt none next = panics ∷ []
  wait_then attempt (some d) next =
      if a.shutdown attempt then waits d ∷ [] else waits d ∷ next (milliseconds d)

  -- The loop, for the number of attempts left.
  unfoldable pub dispatch_from : ℕ → ℕ → List DispatchCall
  unfolding attempt_then wait_then
  dispatch_from zero attempt = acks ∷ []
  dispatch_from (suc left) attempt =
      let rest = dispatch_from left (attempt + 1) in
      if attempt == 0
      then attempt_then attempt (pos 0) rest
      else wait_then attempt (backoff a.int63n c attempt) (λ ms. attempt_then attempt ms rest)

  -- `dispatch`.
  unfoldable pub dispatch : List DispatchCall
  unfolding dispatch_from
  dispatch = dispatch_from c.max_retries 0
