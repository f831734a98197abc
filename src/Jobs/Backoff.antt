-- ===== src/Jobs/Backoff.antt =====
-- internal/jobs/job.go, `BackoffDelay`, in the int64 arithmetic of Go. `rand.Int63n` is an argument.
pub mod Bounds
use native.Mathlib.Nat.{pow-le-pow_right}
use task_queue_system.Prelude.{
  ℕ, suc, ◌+◌, ◌-◌, ◌*◌, ◌/◌, ◌%◌, ◌^◌, ◌≤◌, ◌<◌, ◌≡◌, ◌≢◌, Option, none, some, ite, arith, ltb,
  if◌then◌else◌, String_discrete,
}
use task_queue_system.Prelude.Int.{ℤ, pos, negsuc, leb_ℤ, ◌≤ℤ◌, ltb_ℤ}
use task_queue_system.Jobs.Types.{
  Job, BackoffAlgorithm, BackoffJitter, backoff_linear, backoff_fixed, backoff_exponential,
  jitter_full, jitter_equal, jitter_none,
}

-- The signed reading of the lower 64 bits of a number.
abbrev pub int64 : ℕ → ℤ
int64 n =
    let bits = n % 2 ^ 64 in if ltb bits (2 ^ 63) then pos bits else negsuc (2 ^ 64 - bits - 1)

-- `time.Second`.
abbrev pub second : ℕ
second = 1000000000

-- The `if retry <= 0 { retry = 1 }` of `BackoffDelay`.
abbrev effective_retry : ℕ → ℕ
effective_retry r = if ltb 0 r then r else 1

-- The first `switch`: a shift of an int64 and a product, each modulo 2^64.
unfoldable pub base_delay : BackoffAlgorithm → ℕ → ℤ
base_delay alg retry =
    ite (String_discrete alg backoff_linear) (int64 (retry * second))
      (ite (String_discrete alg backoff_fixed) (pos second) (int64 ((2 ^ retry % 2 ^ 64) * second)))

-- `n := int64(delay); if n <= 0 { n = 1 }`.
abbrev at_least_one : ℤ → ℕ
at_least_one (pos n) = if ltb 0 n then n else 1
at_least_one (negsuc n) = 1

abbrev half : ℕ → ℕ
half n = if ltb 0 (n / 2) then n / 2 else 1

-- The second `switch`.
unfoldable pub jittered : (ℕ → ℕ) → BackoffJitter → ℤ → ℤ
jittered int63n jitter delay =
    ite (String_discrete jitter jitter_full) (pos (int63n (at_least_one delay))) (
      ite (String_discrete jitter jitter_equal)
        (pos (half (at_least_one delay) + int63n (half (at_least_one delay)))) delay)

unfoldable pub backoff_delay : (ℕ → ℕ) → Option Job → ℤ
unfolding base_delay jittered
backoff_delay int63n none = pos (2 * second)
backoff_delay int63n (some job) =
    jittered int63n job.backoff_jitter
      (base_delay job.backoff_algorithm (effective_retry job.retries))
