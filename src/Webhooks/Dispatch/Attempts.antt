-- ===== src/Webhooks/Dispatch/Attempts.antt =====
-- How often the dispatcher tries, and when it acknowledges the event.
use task_queue_system.Webhooks.Dispatch.Delays.{backoff_bounds, IsInRange}
use task_queue_system.Jobs.Backoff.Bounds.{IsInt63n}
use task_queue_system.Prelude.Int.{pos}
use task_queue_system.Webhooks.Dispatch.{
  Answered, delivered, refused, unreachable, dispatch, posts, acks, is_settled, dispatch_from,
  backoff, records, Event, Conditions, DispatcherConfig, DispatchCall,
}
use task_queue_system.Prelude.{
  ℕ, zero, suc, ◌+◌, ◌≤◌, ◌<◌, ◌≡◌, refl, ap, ◌∙◌, Bool, true, false, some, List, [], ◌∷◌, arith,
  if◌then◌else◌,
}

-- What is done: requests posted, acknowledgements, and the attempts' numbers in the records.
unfoldable pub posted : List DispatchCall → ℕ
posted [] = 0
posted (posts ∷ cs) = posted cs + 1
posted (_ ∷ cs) = posted cs

unfoldable pub acked : List DispatchCall → ℕ
acked [] = 0
acked (acks ∷ cs) = acked cs + 1
acked (_ ∷ cs) = acked cs

unfoldable pub recorded : List DispatchCall → List ℕ
recorded [] = []
recorded (records r ∷ cs) = r.attempt ∷ recorded cs
recorded (_ ∷ cs) = recorded cs

-- `n` numbers from `i` on.
unfoldable pub count_up : (i n : ℕ) → List ℕ
count_up i zero = []
count_up i (suc n) = i ∷ count_up (i + 1) n

count_up-add_one : (i n : ℕ) → count_up i (n + 1) ≡ i ∷ count_up (i + 1) n
unfolding count_up
count_up-add_one i n = let e : n + 1 ≡ suc n = omega arith in rw e refl

-- No shutdown comes, and no wait is refused.
pub record IsCalm (c : DispatcherConfig) (a : Conditions) : Type 0 where
  pub running : (i : ℕ) → a.shutdown i ≡ false
  pub waited : (i : ℕ) → (d : ℕ) × (backoff a.int63n c i ≡ some (pos d))

module _ (a : Conditions) where
  -- The rounds of the loop.
  tries : ℕ → ℕ → ℕ
  tries zero i = 0
  tries (suc left) i =
      let rest = tries left (i + 1) in if is_settled (a.answered i) then 1 else rest + 1

  tries-le : (left i : ℕ) → tries left i ≤ left
  unfolding tries
  tries-le zero i = omega arith
  tries-le (suc left) i = ground (arith, tries-le left (i + 1))

  -- Every attempt but the last one was unsettled.
  tries-unsettled : (left i k : ℕ) → k + 1 < tries left i → is_settled (a.answered (i + k)) ≡ false
  unfolding tries
  tries-unsettled zero i k h = absurd (omega arith)
  tries-unsettled (suc left) i zero h = let e : i + 0 ≡ i = omega arith in rw e (ground arith)
  tries-unsettled (suc left) i (suc k) h =
      let e : i + suc k ≡ (i + 1) + k = omega arith in
      rw e (ground (arith, tries-unsettled left (i + 1) k))

  tries-pos : (left i : ℕ) → 0 < left → 0 < tries left i
  unfolding tries
  tries-pos zero i h = absurd (omega arith)
  tries-pos (suc left) i h = ground arith

  -- The last attempt was settled, unless all were used.
  tries-settled :
      (left i k : ℕ)
      → k + 1 ≡ tries left i
      → tries left i < left
      → is_settled (a.answered (i + k)) ≡ true
  unfolding tries
  tries-settled zero i k h l = absurd (omega arith)
  tries-settled (suc left) i zero h l =
      let e : i + 0 ≡ i = omega arith in rw e (ground (arith, tries-pos left (i + 1)))
  tries-settled (suc left) i (suc k) h l =
      let e : i + suc k ≡ (i + 1) + k = omega arith in
      rw e (ground (arith, tries-settled left (i + 1) k))

-- Delivered, or refused with a 4xx status.
abbrev pub IsFinal : Answered → Type 0
IsFinal (delivered n) = Unit {0}
IsFinal (refused n) = (400 ≤ n) × (n < 500)
IsFinal (unreachable t) = ⊥

is_settled-IsFinal : (r : Answered) → is_settled r ≡ true → IsFinal r
is_settled-IsFinal (delivered n) h = tt
is_settled-IsFinal (refused n) h = ground (arith, h)
is_settled-IsFinal (unreachable t) h = ground arith

unsettled-IsFinal : (r : Answered) → is_settled r ≡ false → ¬ IsFinal r
unsettled-IsFinal (delivered n) h f = ground arith
unsettled-IsFinal (refused n) h f = ground (arith, h, f)
unsettled-IsFinal (unreachable t) h f = f

module _ (c : DispatcherConfig) (e : Event) (a : Conditions) where
  module _ (calm : IsCalm c a) where
    posted-tries : (left i : ℕ) → posted (dispatch_from c e a left i) ≡ tries a left i
    unfolding posted dispatch_from tries
    posted-tries zero i = refl
    posted-tries (suc left) i =
        let (d, w) = calm.waited i in ground (arith, posted-tries left (i + 1), calm.running i, w)

    acked-one : (left i : ℕ) → acked (dispatch_from c e a left i) ≡ 1
    unfolding acked dispatch_from
    acked-one zero i = refl
    acked-one (suc left) i =
        let (d, w) = calm.waited i in ground (arith, acked-one left (i + 1), calm.running i, w)

  posted-le : (left i : ℕ) → posted (dispatch_from c e a left i) ≤ left
  unfolding posted dispatch_from
  posted-le zero i = omega arith
  posted-le (suc left) i = ground (arith, posted-le left (i + 1))

  acked-le : (left i : ℕ) → acked (dispatch_from c e a left i) ≤ 1
  unfolding acked dispatch_from
  acked-le zero i = omega arith
  acked-le (suc left) i = ground (arith, acked-le left (i + 1))

  recorded-count_up :
      (left i : ℕ)
      → recorded (dispatch_from c e a left i)
        ≡ count_up (i + 1) (posted (dispatch_from c e a left i))
  unfolding recorded posted dispatch_from count_up
  recorded-count_up zero i = refl
  recorded-count_up (suc left) i = ground (
    arith,
    recorded-count_up left (i + 1),
    count_up-add_one (i + 1) (posted (dispatch_from c e a left (i + 1))),
  )

  -- Whenever the shutdown comes: `dispatch` posts at most as often as the settings allow, acknowledges the
  -- event at most once, and records each post, numbered from 1 without a gap.
  pub dispatch_bounds :
      let cs = dispatch c e a in
      (posted cs ≤ c.max_retries) × (acked cs ≤ 1) × (recorded cs ≡ count_up 1 (posted cs))
  unfolding dispatch
  dispatch_bounds =
      (posted-le c.max_retries 0, acked-le c.max_retries 0, recorded-count_up c.max_retries 0)

  at_start :
      (k : ℕ) (b : Bool) → is_settled (a.answered (0 + k)) ≡ b → is_settled (a.answered k) ≡ b
  at_start k b h = let e : k ≡ 0 + k = omega arith in ap (λ n. is_settled (a.answered n)) e ∙ h

  -- If no shutdown comes, `rand.Int63n` keeps its bound and the settings are in range: `dispatch` ends
  -- with one acknowledgement; no attempt but the last was delivered or refused with a 4xx status; and
  -- if fewer attempts were made than are allowed, the last one was.
  pub dispatch-acks :
      ((i : ℕ) → a.shutdown i ≡ false)
      → IsInt63n a.int63n
      → IsInRange c
      → let cs = dispatch c e a in
        (acked cs ≡ 1)
        × ((k : ℕ) → k + 1 < posted cs → ¬ IsFinal (a.answered k))
        × ((k : ℕ) → k + 1 ≡ posted cs → posted cs < c.max_retries → IsFinal (a.answered k))
  unfolding dispatch
  dispatch-acks calm law r =
      let quiet : IsCalm c a = record {
        running = calm;
        waited = λ i. let b = backoff_bounds a.int63n c i law r in (b.0, b.1);
      } in
      let n = posted-tries quiet c.max_retries 0 in
      (
        acked-one quiet c.max_retries 0,
        λ k h.
            unsettled-IsFinal (a.answered k)
              (at_start k false (tries-unsettled a c.max_retries 0 k (rw (← n) h))),
        λ k h l.
            is_settled-IsFinal (a.answered k)
              (at_start k true (tries-settled a c.max_retries 0 k (rw (← n) h) (rw (← n) l))),
      )
