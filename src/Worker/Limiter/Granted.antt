-- ===== src/Worker/Limiter/Granted.antt =====
-- How many operations the token bucket grants.
use task_queue_system.Prelude.{
  ℕ, zero, suc, ◌+◌, ◌≤◌, ◌<◌, ◌≡◌, refl, ◌∙◌, Bool, true, false, List, [], ◌∷◌, arith,
}
use task_queue_system.Prelude.Int.{negsuc, pos, ℤ}
use task_queue_system.Worker.Limiter.{
  started, limits, TokenBucketLimiter, new_token_bucket_limiter, tick, wait, with_tokens, Waited,
  granted, bucket, with_rate,
}

-- What happens at a limiter, in any order: the ticks, and the moments at which a caller waits.
pub data Event : Type 0 where
  ticks : Event
  waits : (done : Bool) → Event

unfoldable pub after : TokenBucketLimiter → List Event → TokenBucketLimiter
after l [] = l
after l (ticks ∷ es) = after (tick l) es
after l (waits done ∷ es) = after (wait done l).1 es

abbrev one_if_granted : Waited → ℕ
one_if_granted granted = 1
one_if_granted _ = 0

unfoldable pub grants : TokenBucketLimiter → List Event → ℕ
grants l [] = 0
grants l (ticks ∷ es) = grants (tick l) es
grants l (waits done ∷ es) = one_if_granted (wait done l).0 + grants (wait done l).1 es

unfoldable pub count_ticks : List Event → ℕ
count_ticks [] = 0
count_ticks (ticks ∷ es) = count_ticks es + 1
count_ticks (waits done ∷ es) = count_ticks es

-- As many tokens as the buffer holds, at most, and room for one.
abbrev IsBucket : TokenBucketLimiter → Type 0
IsBucket l = (l.tokens ≤ l.size) × (0 < l.size)

abbrev IsStep : ℕ → ℕ → TokenBucketLimiter → TokenBucketLimiter → Type 0
IsStep added taken l m =
    (taken + m.tokens ≤ l.tokens + added) × (m.size ≡ l.size) × (m.tokens ≤ l.size)

tick-IsStep : (l : TokenBucketLimiter) → IsBucket l → IsStep 1 0 l (tick l)
unfolding tick
tick-IsStep l h = ground arith

with_tokens-IsStep :
    (l : TokenBucketLimiter) (n : ℕ)
    → l.tokens ≡ n
    → IsBucket l
    → IsStep 0 (one_if_granted (with_tokens l n).0) l (with_tokens l n).1
unfolding with_tokens
with_tokens-IsStep l zero e h = (omega arith, refl, h.0)
with_tokens-IsStep l (suc n) e h = (omega (arith, e), refl, omega (arith, e, h.0))

wait-IsStep :
    (done : Bool) (l : TokenBucketLimiter)
    → IsBucket l
    → IsStep 0 (one_if_granted (wait done l).0) l (wait done l).1
unfolding wait
wait-IsStep true l h = (omega arith, refl, h.0)
wait-IsStep false l h = with_tokens-IsStep l l.tokens refl h

step-IsBucket :
    (added taken : ℕ) (l m : TokenBucketLimiter) → IsStep added taken l m → IsBucket l → IsBucket m
step-IsBucket added taken l m s h = (omega (arith, s.1, s.2), omega (arith, s.1, h.1))

after-IsBucket :
    (l : TokenBucketLimiter) (es : List Event)
    → IsBucket l
    → IsBucket (after l es) × ((after l es).size ≡ l.size)
unfolding after
after-IsBucket l [] h = (h, refl)
after-IsBucket l (ticks ∷ es) h =
    let s = tick-IsStep l h in
    let (b, e) = after-IsBucket (tick l) es (step-IsBucket 1 0 l (tick l) s h) in (b, e ∙ s.1)
after-IsBucket l (waits done ∷ es) h =
    let s = wait-IsStep done l h in
    let (b, e) = after-IsBucket (wait done l).1 es (step-IsBucket _ _ l (wait done l).1 s h) in
    (b, e ∙ s.1)

grants-le :
    (l : TokenBucketLimiter) (es : List Event)
    → IsBucket l
    → grants l es + (after l es).tokens ≤ l.tokens + count_ticks es
unfolding after grants count_ticks
grants-le l [] h = omega arith
grants-le l (ticks ∷ es) h =
    let s = tick-IsStep l h in
    omega (arith, s.0, grants-le (tick l) es (step-IsBucket 1 0 l (tick l) s h))
grants-le l (waits done ∷ es) h =
    let s = wait-IsStep done l h in
    omega (arith, s.0, grants-le (wait done l).1 es (step-IsBucket _ _ l (wait done l).1 s h))

new-IsBucket :
    (rate : ℤ) (l : TokenBucketLimiter) → new_token_bucket_limiter rate ≡ limits l → IsBucket l
unfolding new_token_bucket_limiter with_rate started bucket
new-IsBucket (pos rate) l e = ground (arith, e)
new-IsBucket (negsuc n) l e = ground (arith, e)

with_tokens-granted : (l : TokenBucketLimiter) (n : ℕ) → 0 < n → (with_tokens l n).0 ≡ granted
unfolding with_tokens
with_tokens-granted l zero h = ground arith
with_tokens-granted l (suc n) h = refl

tick-pos : (l : TokenBucketLimiter) → IsBucket l → 0 < (tick l).tokens
unfolding tick
tick-pos l h = ground arith

tick-granted : (l : TokenBucketLimiter) → IsBucket l → (wait false (tick l)).0 ≡ granted
unfolding wait
tick-granted l h = with_tokens-granted (tick l) (tick l).tokens (tick-pos l h)

-- After anything that happened at a new limiter: in what happens next, at most as many operations are
-- granted as there are places in the bucket and ticks; and a caller who waits right after a tick, before
-- any other caller, and whose context is not done, is granted a token.
pub grants_bounds :
    (rate : ℤ) (l : TokenBucketLimiter) (before es : List Event)
    → new_token_bucket_limiter rate ≡ limits l
    → (grants (after l before) es ≤ l.size + count_ticks es)
      × ((wait false (tick (after l before))).0 ≡ granted)
grants_bounds rate l before es e =
    let (b, same) = after-IsBucket l before (new-IsBucket rate l e) in
    (omega (arith, b.0, same, grants-le (after l before) es b), tick-granted (after l before) b)
