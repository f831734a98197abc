-- ===== src/Worker/Limiter.antt =====
-- internal/worker/limiter/limiter.go: the token bucket. A rate is in millionths of an operation per second,
-- where the source has a float64 (no rounding, and no rate that is not a number); the channel of tokens is their number, and its buffer is `size`. The
-- replenishing goroutine is a step, `tick`, taken every `interval` nanoseconds.
pub mod Granted
use task_queue_system.Prelude.{
  ℕ, zero, suc, ◌+◌, ◌-◌, ◌*◌, ◌/◌, ◌%◌, ◌^◌, ◌≤◌, ◌<◌, ◌≡◌, refl, sym, ap, ◌∙◌, ◌≢◌, ◌↔◌, ◌⊎◌, inl,
  inr, ite, if_pos, if_neg, Bool, true, false, not, ◌&&◌, ◌||◌, Option, none, some, List, [], ◌∷◌,
  ◌++◌, map, arith, dec_lt, dec_le, ℕ_discrete, String_discrete, String, ltb, leb, ◌==◌,
  if◌then◌else◌, length, Bool-cases, Option-cases, if-intro,
}
use task_queue_system.Prelude.Int.{ℤ, pos, negsuc}

pub record TokenBucketLimiter : Type 0 where
  pub size : ℕ
  pub tokens : ℕ
  pub interval : ℕ

bucket : ℕ → ℕ → TokenBucketLimiter
bucket size rate = record { size = size; tokens = size; interval = 1000000000000000 / rate }

-- What comes of a creation: nil; the panic of `time.NewTicker`, which refuses an interval of zero; a limiter.
pub data NewLimiter : Type 0 where
  nil panics : NewLimiter
  limits : TokenBucketLimiter → NewLimiter

started : TokenBucketLimiter → NewLimiter
started l = if l.interval == 0 then panics else limits l

with_rate : ℕ → NewLimiter
unfolding bucket started
with_rate rate =
    if rate == 0
    then nil
    else let size = rate / 1000000 in
      started (if ltb size 1 then bucket 1 rate else bucket size rate)

-- `NewTokenBucketLimiter`.
unfoldable pub new_token_bucket_limiter : ℤ → NewLimiter
unfolding with_rate
new_token_bucket_limiter (pos rate) = with_rate rate
new_token_bucket_limiter (negsuc n) = nil

-- The body of the replenishing loop.
unfoldable pub tick : TokenBucketLimiter → TokenBucketLimiter
tick l = if ltb l.tokens l.size then record l { tokens = l.tokens + 1 } else l

-- A `Wait` ends with a token or with the error of the context; without a token it goes on waiting.
pub data Waited : Type 0 where
  granted cancelled waiting : Waited

with_tokens : TokenBucketLimiter → ℕ → Waited × TokenBucketLimiter
with_tokens l zero = (waiting, l)
with_tokens l (suc n) = (granted, record l { tokens = n })

-- `Wait`, at one moment; `done` says that the context is done by then.
unfoldable pub wait : Bool → TokenBucketLimiter → Waited × TokenBucketLimiter
unfolding with_tokens
wait done l = if done then (cancelled, l) else with_tokens l l.tokens
