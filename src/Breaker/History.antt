-- ===== src/Breaker/History.antt =====
-- The breaker against its history: what the entry of a job type counts, and when a call is refused.
use task_queue_system.Prelude.Int.{ℤ}
use task_queue_system.Prelude.{
  ◌≢◌, ◌≤◌, ◌∙◌, refl, false, ℕ, ◌+◌, ◌≡◌, ite, Option, List, [], ◌∷◌, arith, String_discrete,
  String,
}
use task_queue_system.Prelude.Map.{lookup, lookup-insert}
use task_queue_system.Breaker.{
  set_half_open, check, new_circuit_breaker, closed, half_open, PluginBreaker, CircuitBreaker,
  entry, record_success, reset, record_failure, fail_entry, or_fresh,
}
use task_queue_system.Breaker.Invariant.{
  run, run-IsConsistent, BreakerCall, half_opens, succeeds, fails, resets, step,
}

-- Failures of `t` since its last success or reset, in a history whose latest call comes first.
unfoldable pub consecutive : String → List BreakerCall → ℕ
consecutive t [] = 0
consecutive t (half_opens u ∷ h) = consecutive t h
consecutive t (succeeds u ∷ h) = ite (String_discrete u t) 0 (consecutive t h)
consecutive t (resets u ∷ h) = ite (String_discrete u t) 0 (consecutive t h)
consecutive t (fails u now ∷ h) = ite (String_discrete u t) (consecutive t h + 1) (consecutive t h)

-- When `t` last failed; 0 if it never did.
unfoldable pub last_failure_at : String → List BreakerCall → ℕ
last_failure_at t [] = 0
last_failure_at t (fails u now ∷ h) = ite (String_discrete u t) now (last_failure_at t h)
last_failure_at t (half_opens u ∷ h) = last_failure_at t h
last_failure_at t (succeeds u ∷ h) = last_failure_at t h
last_failure_at t (resets u ∷ h) = last_failure_at t h

abbrev count_of : Option PluginBreaker → ℕ
count_of o = (or_fresh o).failures

-- One call and the counter of `t`.
count-step :
    (cb : CircuitBreaker) (t : String) (c : BreakerCall) (h : List BreakerCall)
    → count_of (entry t cb) ≡ consecutive t h
    → count_of (entry t (step cb c)) ≡ consecutive t (c ∷ h)
unfolding step consecutive set_half_open record_success reset record_failure
count-step cb t (half_opens u) h e = ground (
  arith,
  lookup-insert String_discrete u t (record (or_fresh (entry u cb)) { state = half_open })
      cb.plugins,
)
count-step cb t (succeeds u) h e = ground (
  arith,
  lookup-insert String_discrete u t
      (record (or_fresh (entry u cb)) { failures = 0; state = closed }) cb.plugins,
)
count-step cb t (resets u) h e = ground (
  arith,
  lookup-insert String_discrete u t
      (record (or_fresh (entry u cb)) { failures = 0; state = closed }) cb.plugins,
)
count-step cb t (fails u now) h e = ground (
  arith,
  lookup-insert String_discrete u t (fail_entry cb.threshold now (or_fresh (entry u cb)))
      cb.plugins,
)

last-step :
    (cb : CircuitBreaker) (t : String) (c : BreakerCall) (h : List BreakerCall)
    → (or_fresh (entry t cb)).last_failure ≡ last_failure_at t h
    → (or_fresh (entry t (step cb c))).last_failure ≡ last_failure_at t (c ∷ h)
unfolding step last_failure_at set_half_open record_success reset record_failure
last-step cb t (half_opens u) h e = ground (
  arith,
  lookup-insert String_discrete u t (record (or_fresh (entry u cb)) { state = half_open })
      cb.plugins,
)
last-step cb t (succeeds u) h e = ground (
  arith,
  lookup-insert String_discrete u t
      (record (or_fresh (entry u cb)) { failures = 0; state = closed }) cb.plugins,
)
last-step cb t (resets u) h e = ground (
  arith,
  lookup-insert String_discrete u t
      (record (or_fresh (entry u cb)) { failures = 0; state = closed }) cb.plugins,
)
last-step cb t (fails u now) h e = ground (
  arith,
  lookup-insert String_discrete u t (fail_entry cb.threshold now (or_fresh (entry u cb)))
      cb.plugins,
)

settings-step :
    (cb : CircuitBreaker) (c : BreakerCall)
    → ((step cb c).threshold ≡ cb.threshold) × ((step cb c).cooldown ≡ cb.cooldown)
unfolding step set_half_open record_success reset record_failure
settings-step cb (half_opens u) = ground arith
settings-step cb (succeeds u) = ground arith
settings-step cb (resets u) = ground arith
settings-step cb (fails u now) = ground arith

abbrev pub type_of : BreakerCall → String
type_of (half_opens t) = t
type_of (succeeds t) = t
type_of (fails t now) = t
type_of (resets t) = t

-- All steps are of other types.
abbrev pub AboutOthers : String → List BreakerCall → Type 0
AboutOthers t [] = Unit
AboutOthers t (c ∷ cs) = (type_of c ≢ t) × AboutOthers t cs

module _ (threshold cooldown : ℤ) where
  abbrev initial : CircuitBreaker
  initial = new_circuit_breaker threshold cooldown

  count-run :
      (t : String) (h : List BreakerCall) → count_of (entry t (run initial h)) ≡ consecutive t h
  unfolding run consecutive new_circuit_breaker lookup
  count-run t [] = refl
  count-run t (c ∷ h) = count-step (run initial h) t c h (count-run t h)

  last-run :
      (t : String) (h : List BreakerCall)
      → (or_fresh (entry t (run initial h))).last_failure ≡ last_failure_at t h
  unfolding run last_failure_at new_circuit_breaker lookup
  last-run t [] = refl
  last-run t (c ∷ h) = last-step (run initial h) t c h (last-run t h)

  settings-run :
      (h : List BreakerCall)
      → ((run initial h).threshold ≡ initial.threshold)
        × ((run initial h).cooldown ≡ initial.cooldown)
  unfolding run
  settings-run [] = (refl, refl)
  settings-run (c ∷ h) =
      let (s, d) = settings-step (run initial h) c in
      let (s', d') = settings-run h in (s ∙ s', d ∙ d')

  -- After any steps, in any order, a job type is refused only if its last `threshold` or more recorded
  -- outcomes were all failures and the latest of them is at most the cooldown ago.
  pub check-refuses_only :
      (t : String) (now : ℕ) (h : List BreakerCall)
      → (check (run initial h) t now).0 ≡ false
      → (initial.threshold ≤ consecutive t h) × (now ≤ last_failure_at t h + initial.cooldown)
  unfolding check
  check-refuses_only t now h r = ground (
    arith,
    count-run t h,
    last-run t h,
    settings-run h,
    (run-IsConsistent threshold cooldown h).entries t,
  )
