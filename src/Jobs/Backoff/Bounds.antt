-- ===== src/Jobs/Backoff/Bounds.antt =====
-- The retry delay in range: where the int64 arithmetic is exact, and where it wraps.
use native.Mathlib.Nat.{pow-suc, suc-add, pow-le-pow_right}
use task_queue_system.Prelude.{
  ℕ, refl, suc, ◌+◌, zero, ◌-◌, ◌*◌, ◌%◌, ◌^◌, ◌≤◌, ◌<◌, ◌≡◌, some, arith, String_discrete,
}
use task_queue_system.Prelude.Int.{ℤ, pos, negsuc}
use task_queue_system.Jobs.Types.{Job, jitter_full, jitter_equal, jitter_none, backoff_exponential}
use task_queue_system.Jobs.Backoff.{
  int64, second, effective_retry, base_delay, backoff_delay, at_least_one, half,
}

-- `rand.Int63n(n)` returns a number below `n` for every positive `n`.
abbrev pub IsInt63n : (ℕ → ℕ) → Type 0
IsInt63n int63n = (n : ℕ) → 0 < n → int63n n < n

pow_below : (r : ℕ) → r ≤ 33 → 2 ^ r ≤ 8589934592
pow_below r h = pow-le-pow_right (omega arith) h

pub int64_exact : (n : ℕ) → n < 9223372036854775808 → int64 n ≡ pos n
int64_exact n h = ground arith

product_exact : (p : ℕ) → p ≤ 8589934592 → int64 ((p % 2 ^ 64) * second) ≡ pos (p * second)
product_exact p h = ground arith

effective_retry_pos : (r : ℕ) → 1 ≤ r → effective_retry r ≡ r
effective_retry_pos r h = ground arith

-- With the exponential algorithm and no jitter, as by default, a job that has been retried 1 to 33
-- times waits exactly 2 ^ retries seconds.
backoff_delay-doubles :
    (int63n : ℕ → ℕ) (job : Job)
    → job.backoff_algorithm ≡ backoff_exponential
    → job.backoff_jitter ≡ jitter_none
    → 1 ≤ job.retries
    → job.retries ≤ 33
    → backoff_delay int63n (some job) ≡ pos (2 ^ job.retries * second)
unfolding backoff_delay String_discrete
backoff_delay-doubles int63n job a j lo hi =
    rw (a, j, effective_retry_pos job.retries lo)
      (product_exact (2 ^ job.retries) (pow_below job.retries hi))

pow_55 : (k : ℕ) → 2 ^ (k + 55) ≡ 2 ^ k * 36028797018963968
pow_55 zero = refl
pow_55 (suc k) = simp suc-add (omega (arith, pow-suc 2 (k + 55), pow-suc 2 k, pow_55 k))

multiple_vanishes : (p : ℕ) → int64 ((p * 36028797018963968 % 2 ^ 64) * second) ≡ pos 0
multiple_vanishes p =
    let e : ((p * 36028797018963968 % 2 ^ 64) * second) % 2 ^ 64 ≡ 0 = omega arith in rw e

wraps_to_zero : (k : ℕ) → int64 ((2 ^ (k + 55) % 2 ^ 64) * second) ≡ pos 0
wraps_to_zero k = rw (pow_55 k) (multiple_vanishes (2 ^ k))

-- From 55 retries on the exponential delay without jitter wraps to zero.
backoff_delay-vanishes :
    (int63n : ℕ → ℕ) (job : Job)
    → job.backoff_algorithm ≡ backoff_exponential
    → job.backoff_jitter ≡ jitter_none
    → 55 ≤ job.retries
    → backoff_delay int63n (some job) ≡ pos 0
unfolding backoff_delay String_discrete
backoff_delay-vanishes int63n job a j h =
    let e : job.retries ≡ (job.retries - 55) + 55 = omega arith in
    rw (a, j, effective_retry_pos job.retries (omega arith), e) (wraps_to_zero (job.retries - 55))

at_least_one_pos : (d : ℤ) → 0 < at_least_one d
at_least_one_pos (pos n) = ground arith
at_least_one_pos (negsuc n) = omega arith

half_pos : (n : ℕ) → 0 < half n
half_pos n = ground arith

-- Full jitter draws a delay in [0, d), where d is the delay without jitter or, where that is not
-- positive, one nanosecond.
backoff_delay-full_jitter :
    (int63n : ℕ → ℕ) (job : Job)
    → IsInt63n int63n
    → job.backoff_jitter ≡ jitter_full
    → (n : ℕ) × (backoff_delay int63n (some job) ≡ pos n)
      × (n < at_least_one (base_delay job.backoff_algorithm (effective_retry job.retries)))
unfolding backoff_delay String_discrete
backoff_delay-full_jitter int63n job law j =
    let d = base_delay job.backoff_algorithm (effective_retry job.retries) in
    (int63n (at_least_one d), rw j, law (at_least_one d) (at_least_one_pos d))

-- Equal jitter waits at least half of d, rounded down but at least one nanosecond, and less than
-- twice that, where d is the delay without jitter or, where that is not positive, one nanosecond.
backoff_delay-equal_jitter :
    (int63n : ℕ → ℕ) (job : Job)
    → IsInt63n int63n
    → job.backoff_jitter ≡ jitter_equal
    → let h =
        half (at_least_one (base_delay job.backoff_algorithm (effective_retry job.retries))) in
      (n : ℕ) × (backoff_delay int63n (some job) ≡ pos n) × (h ≤ n) × (n < h + h)
unfolding backoff_delay String_discrete
backoff_delay-equal_jitter int63n job law j =
    let h = half (at_least_one (base_delay job.backoff_algorithm (effective_retry job.retries))) in
    let small = law h (half_pos _) in (h + int63n h, rw j, omega arith, omega arith)
