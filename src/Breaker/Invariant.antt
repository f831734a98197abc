-- ===== src/Breaker/Invariant.antt =====
-- The counter and the state of every entry agree, whatever is called.
use task_queue_system.Prelude.{
  ℕ, ◌≤◌, ◌<◌, ◌≡◌, ite, Option, none, some, List, [], ◌∷◌, arith, String_discrete, String,
}
use task_queue_system.Prelude.Map.{lookup, lookup-insert}
use task_queue_system.Prelude.Int.{ℤ, pos, negsuc}
use task_queue_system.Breaker.{
  closed, open_, PluginBreaker, CircuitBreaker, new_circuit_breaker, entry, set_half_open,
  record_success, reset, record_failure, fail_entry, close_entry, half_open_entry, put, or_fresh,
}

-- A closed entry has counted fewer failures than the threshold, an open one at least as many.
pub record Agrees (threshold : ℕ) (pb : PluginBreaker) : Type 0 where
  pub below : pb.state ≡ closed → pb.failures < threshold
  pub reached : pb.state ≡ open_ → threshold ≤ pb.failures

abbrev pub AgreesIfAny : ℕ → Option PluginBreaker → Type 0
AgreesIfAny threshold none = Unit {0}
AgreesIfAny threshold (some pb) = Agrees threshold pb

pub record IsConsistent (cb : CircuitBreaker) : Type 0 where
  pub positive : 0 < cb.threshold
  pub entries : (t : String) → AgreesIfAny cb.threshold (entry t cb)

new-IsConsistent : (threshold cooldown : ℤ) → IsConsistent (new_circuit_breaker threshold cooldown)
unfolding new_circuit_breaker lookup
new-IsConsistent threshold cooldown = record { positive = positive threshold; entries = λ t. tt }
  where
    positive : (th : ℤ) → 0 < (new_circuit_breaker th cooldown).threshold
    positive (pos n) = ground arith
    positive (negsuc n) = ground arith

put-IsConsistent :
    (cb : CircuitBreaker) (u : String) (pb : PluginBreaker)
    → IsConsistent cb
    → Agrees cb.threshold pb
    → IsConsistent (put u pb cb)
put-IsConsistent cb u pb v h = record {
  positive = v.positive;
  entries =
      λ t. rw (lookup-insert String_discrete u t pb cb.plugins) (pick t (String_discrete u t));
}
  where
    pick : (t : String) (d : Dec (u ≡ t)) → AgreesIfAny cb.threshold (ite d (some pb) (entry t cb))
    pick t (yes p) = h
    pick t (no p) = v.entries t

fail_entry-Agrees :
    (threshold now : ℕ) (pb : PluginBreaker)
    → Agrees threshold pb
    → Agrees threshold (fail_entry threshold now pb)
unfolding fail_entry
fail_entry-Agrees threshold now pb v = ground arith

or_fresh-Agrees :
    (threshold : ℕ) (o : Option PluginBreaker)
    → 0 < threshold
    → AgreesIfAny threshold o
    → Agrees threshold (or_fresh o)
or_fresh-Agrees threshold none h v = ground arith
or_fresh-Agrees threshold (some pb) h v = v

close_entry-IsConsistent :
    (cb : CircuitBreaker) (t : String) (o : Option PluginBreaker)
    → IsConsistent cb
    → IsConsistent (close_entry cb t o)
unfolding close_entry
close_entry-IsConsistent cb t none v = v
close_entry-IsConsistent cb t (some pb) v =
    let h = v.positive in put-IsConsistent cb t _ v (ground arith)

record_failure-IsConsistent :
    (cb : CircuitBreaker) (t : String) (now : ℕ)
    → IsConsistent cb
    → IsConsistent (record_failure cb t now)
unfolding record_failure
record_failure-IsConsistent cb t now v = put-IsConsistent cb t _ v (
    fail_entry-Agrees cb.threshold now _
      (or_fresh-Agrees cb.threshold (entry t cb) v.positive (v.entries t)))

half_open_entry-IsConsistent :
    (cb : CircuitBreaker) (t : String) (o : Option PluginBreaker)
    → IsConsistent cb
    → IsConsistent (half_open_entry cb t o)
unfolding half_open_entry
half_open_entry-IsConsistent cb t none v = v
half_open_entry-IsConsistent cb t (some pb) v =
    put-IsConsistent cb t _ v (record { below = λ e. ground arith; reached = λ e. ground arith })

-- What workers and operators do, in any order. `half_opens` is the second step of an `IsAllowed` that was
-- checked at any time before.
pub data BreakerCall : Type 0 where
  half_opens : (t : String) → BreakerCall
  succeeds : (t : String) → BreakerCall
  fails : (t : String) (now : ℕ) → BreakerCall
  resets : (t : String) → BreakerCall

unfoldable pub step : CircuitBreaker → BreakerCall → CircuitBreaker
step cb (half_opens t) = set_half_open cb t
step cb (succeeds t) = record_success cb t
step cb (fails t now) = record_failure cb t now
step cb (resets t) = reset cb t

step-IsConsistent :
    (cb : CircuitBreaker) (c : BreakerCall) → IsConsistent cb → IsConsistent (step cb c)
unfolding step set_half_open record_success reset
step-IsConsistent cb (half_opens t) v = half_open_entry-IsConsistent cb t (entry t cb) v
step-IsConsistent cb (succeeds t) v = close_entry-IsConsistent cb t (entry t cb) v
step-IsConsistent cb (fails t now) v = record_failure-IsConsistent cb t now v
step-IsConsistent cb (resets t) v = close_entry-IsConsistent cb t (entry t cb) v

-- The calls made so far, the latest first.
unfoldable pub run : CircuitBreaker → List BreakerCall → CircuitBreaker
run cb [] = cb
run cb (c ∷ h) = step (run cb h) c

-- After any steps, in any order, whatever the settings given to `NewCircuitBreaker`: the threshold is
-- positive, a closed entry has counted fewer failures than the threshold, and an open one at least
-- as many.
pub run-IsConsistent :
    (threshold cooldown : ℤ) (h : List BreakerCall)
    → IsConsistent (run (new_circuit_breaker threshold cooldown) h)
unfolding run
run-IsConsistent threshold cooldown [] = new-IsConsistent threshold cooldown
run-IsConsistent threshold cooldown (c ∷ h) =
    step-IsConsistent (run (new_circuit_breaker threshold cooldown) h) c
      (run-IsConsistent threshold cooldown h)
