-- ===== src/Webhooks/Dispatch/Delays.antt =====
-- The waits between the attempts.
use task_queue_system.Jobs.Backoff.{int64}
use task_queue_system.Prelude.Int.{pos}
use task_queue_system.Jobs.Backoff.Bounds.{int64_exact, IsInt63n}
use task_queue_system.Webhooks.Dispatch.{clipped, jitter, backoff, DispatcherConfig}
use Prim.Native.Nat.{min}
use native.Mathlib.Nat.{pow-le-pow_right, one-le-pow, mul-le-mul_left}
use task_queue_system.Prelude.{ℕ, ◌+◌, ◌-◌, ◌*◌, ◌/◌, ◌^◌, ◌≤◌, ◌<◌, ◌≡◌, ap, ◌∙◌, some, arith}

-- Settings for which the arithmetic is exact and the jitter has room; those of `defaults` are such.
pub record IsInRange (c : DispatcherConfig) : Type 0 where
  pub base : 2 ≤ c.base_delay
  pub max : 2 ≤ c.max_delay
  pub small : c.max_delay ≤ 2 ^ 62
  pub exact : c.base_delay * 2 ^ c.max_retries < 2 ^ 63

-- The delay before the jitter.
abbrev pub nominal : DispatcherConfig → ℕ → ℕ
nominal c attempt = min (c.base_delay * 2 ^ min attempt c.max_retries) c.max_delay

jitter_bounds :
    (int63n : ℕ → ℕ) (n : ℕ)
    → IsInt63n int63n
    → 2 ≤ n
    → n ≤ 2 ^ 62
    → (d : ℕ) × (jitter int63n (pos n) ≡ some (pos d)) × (n ≤ d + n / 4) × (d ≤ n + n / 4)
jitter_bounds int63n n law lo hi =
    let small : int63n (n / 2) < n / 2 = law (n / 2) (omega arith) in
    (n + int63n (n / 2) - n / 4, ground arith, omega arith, omega arith)

shift-le : (c : DispatcherConfig) (attempt : ℕ) → 2 ^ min attempt c.max_retries ≤ 2 ^ c.max_retries
shift-le c attempt = pow-le-pow_right (omega arith) (omega arith)

shifted : DispatcherConfig → ℕ → ℕ
shifted c attempt = c.base_delay * 2 ^ min attempt c.max_retries

shifted_bounds :
    (c : DispatcherConfig) (attempt : ℕ)
    → IsInRange c
    → (2 ≤ shifted c attempt) × (shifted c attempt < 2 ^ 63)
unfolding shifted
shifted_bounds c attempt r =
    let above = mul-le-mul_left c.base_delay (shift-le c attempt) in
    let one : 1 ≤ 2 ^ min attempt c.max_retries =
      one-le-pow (min attempt c.max_retries) 2 (omega arith) in
    let below = mul-le-mul_left c.base_delay one in (omega arith, omega arith)

nominal_bounds :
    (c : DispatcherConfig) (attempt : ℕ)
    → IsInRange c
    → (2 ≤ nominal c attempt) × (nominal c attempt ≤ 2 ^ 62)
unfolding shifted
nominal_bounds c attempt r =
    let b = shifted_bounds c attempt r in
    let m = r.max in let s = r.small in (omega arith, omega arith)

clip : (m n : ℕ) → clipped m (pos n) ≡ pos (min n m)
clip m n = ground arith

clipped-nominal :
    (c : DispatcherConfig) (attempt : ℕ)
    → IsInRange c
    → clipped c.max_delay (int64 (shifted c attempt)) ≡ pos (nominal c attempt)
clipped-nominal c attempt r =
    ap (clipped c.max_delay) (int64_exact (shifted c attempt) (shifted_bounds c attempt r).1)
    ∙ unfold shifted in clip c.max_delay (shifted c attempt)

-- For settings in range, with `rand.Int63n` below its bound: the wait before an attempt is within a quarter
-- of its nominal delay, which is the base delay doubled with each attempt up to the number of retries, or
-- the maximum if that is smaller.
pub backoff_bounds :
    (int63n : ℕ → ℕ) (c : DispatcherConfig) (attempt : ℕ)
    → IsInt63n int63n
    → IsInRange c
    → (d : ℕ) × (backoff int63n c attempt ≡ some (pos d))
      × (nominal c attempt ≤ d + nominal c attempt / 4)
      × (d ≤ nominal c attempt + nominal c attempt / 4)
unfolding backoff shifted
backoff_bounds int63n c attempt law r =
    let n = nominal c attempt in
    let (lo, hi) = nominal_bounds c attempt r in
    let (d, e, above, below) = jitter_bounds int63n n law lo hi in
    (d, ap (jitter int63n) (clipped-nominal c attempt r) ∙ e, above, below)
