-- ===== src/Breaker.antt =====
-- internal/worker/plugin/circuitbreaker.go; the clock's reading is an argument `now`, in nanoseconds.
-- `RecordSuccess`, `RecordFailure` and `Reset` run under the breaker's lock, so each is one step.
-- `IsAllowed` is two: it reads the entry without the lock (`check`; its reads of the state and of the last
-- failure are taken together), and may set it half-open under the lock afterwards (`set_half_open`); other
-- calls can come in between. The Prometheus gauge that the methods also set is not part of the state.
pub mod Invariant
pub mod History
use task_queue_system.Prelude.{
  ℕ, zero, suc, ◌+◌, ◌-◌, ◌*◌, ◌/◌, ◌%◌, ◌^◌, ◌≤◌, ◌<◌, ◌≡◌, refl, sym, ap, ◌∙◌, ◌≢◌, ◌↔◌, ◌⊎◌, inl,
  inr, ite, if_pos, if_neg, Bool, true, false, not, ◌&&◌, ◌||◌, Option, none, some, List, [], ◌∷◌,
  ◌++◌, map, arith, dec_lt, dec_le, ℕ_discrete, String_discrete, String, ltb, leb, ◌==◌,
  if◌then◌else◌, length, Bool-cases, Option-cases,
}
use task_queue_system.Prelude.Map.{lookup, insert}
use task_queue_system.Prelude.Int.{ℤ, pos, negsuc}

-- `BreakerState`.
pub data BreakerState : Type 0 where
  closed open_ half_open : BreakerState

-- `pluginBreaker`; the zero value of a record is `fresh`.
pub record PluginBreaker : Type 0 where
  pub failures : ℕ
  pub last_failure : ℕ
  pub state : BreakerState

abbrev pub fresh : PluginBreaker
fresh = record { failures = 0; last_failure = 0; state = closed }

pub record CircuitBreaker : Type 0 where
  pub plugins : List (String × PluginBreaker)
  pub threshold : ℕ
  pub cooldown : ℕ

-- A setting that is not positive is replaced by its default.
abbrev or_default : ℤ → ℕ → ℕ
or_default (pos n) d = if ltb 0 n then n else d
or_default (negsuc n) d = d

unfoldable pub new_circuit_breaker : ℤ → ℤ → CircuitBreaker
new_circuit_breaker threshold cooldown = record {
  plugins = [];
  threshold = or_default threshold 5;
  cooldown = or_default cooldown 30000000000;
}

abbrev pub entry : String → CircuitBreaker → Option PluginBreaker
entry t cb = lookup String_discrete t cb.plugins

abbrev put : String → PluginBreaker → CircuitBreaker → CircuitBreaker
put t pb cb = record cb { plugins = insert String_discrete t pb cb.plugins }

-- The first step of `IsAllowed`, the `switch` by clauses: the answer, and whether the second step follows.
check_in : CircuitBreaker → ℕ → PluginBreaker → BreakerState → Bool × Bool
check_in cb now pb closed = (true, false)
check_in cb now pb half_open = (true, false)
check_in cb now pb open_ =
    if ltb (pb.last_failure + cb.cooldown) now then (true, true) else (false, false)

check_entry : CircuitBreaker → ℕ → Option PluginBreaker → Bool × Bool
unfolding check_in
check_entry cb now none = (true, false)
check_entry cb now (some pb) = check_in cb now pb pb.state

unfoldable pub check : CircuitBreaker → String → ℕ → Bool × Bool
unfolding check_entry
check cb t now = check_entry cb now (entry t cb)

-- The second step. Entries are never removed, so the pointer read is that of the type's entry.
half_open_entry : CircuitBreaker → String → Option PluginBreaker → CircuitBreaker
half_open_entry cb t none = cb
half_open_entry cb t (some pb) = put t (record pb { state = half_open }) cb

unfoldable pub set_half_open : CircuitBreaker → String → CircuitBreaker
unfolding half_open_entry
set_half_open cb t = half_open_entry cb t (entry t cb)

-- `IsAllowed` where no other call comes in between.
unfoldable pub is_allowed : CircuitBreaker → String → ℕ → Bool × CircuitBreaker
is_allowed cb t now = ((check cb t now).0, if (check cb t now).1 then set_half_open cb t else cb)

-- `RecordSuccess` and `Reset` have one body; a type that was never recorded gets no entry.
close_entry : CircuitBreaker → String → Option PluginBreaker → CircuitBreaker
close_entry cb t none = cb
close_entry cb t (some pb) = put t (record pb { failures = 0; state = closed }) cb

unfoldable pub record_success : CircuitBreaker → String → CircuitBreaker
unfolding close_entry
record_success cb t = close_entry cb t (entry t cb)

unfoldable pub reset : CircuitBreaker → String → CircuitBreaker
unfolding close_entry
reset cb t = close_entry cb t (entry t cb)

abbrev or_fresh : Option PluginBreaker → PluginBreaker
or_fresh none = fresh
or_fresh (some pb) = pb

-- `RecordFailure`.
fail_entry : ℕ → ℕ → PluginBreaker → PluginBreaker
fail_entry threshold now pb =
    let pb' = record pb { failures = pb.failures + 1; last_failure = now } in
    if leb threshold pb'.failures then record pb' { state = open_ } else pb'

unfoldable pub record_failure : CircuitBreaker → String → ℕ → CircuitBreaker
unfolding fail_entry
record_failure cb t now = put t (fail_entry cb.threshold now (or_fresh (entry t cb))) cb

-- `State`.
abbrev state_of : Option PluginBreaker → BreakerState
state_of none = closed
state_of (some pb) = pb.state

unfoldable pub state : CircuitBreaker → String → BreakerState
state cb t = state_of (entry t cb)

-- `Status`: a label for each entry; the label of an open breaker carries its two numbers.
pub data Label : Type 0 where
  closed_label half_open_label : Label
  open_label : (failures threshold : ℕ) → Label

label : ℕ → PluginBreaker → BreakerState → Label
label threshold pb closed = closed_label
label threshold pb open_ = open_label pb.failures threshold
label threshold pb half_open = half_open_label

unfoldable pub status : CircuitBreaker → List (String × Label)
unfolding label
status cb = map (λ e. (e.0, label cb.threshold e.1 e.1.state)) cb.plugins
