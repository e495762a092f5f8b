-- ===== src/Http/Breaker.antt =====
-- src/infrastructure/http/circuit-breaker.ts. A call of `execute` is two steps, since others run
-- while its operation is awaited: `begin`, all that happens before the operation starts, and
-- `finish`, what happens when it has settled. Times are the clock's milliseconds.
pub mod Laws
pub mod Calls
use canals.Prelude.{ℕ, suc, ◌+◌, Option, none, some, Bool, true, false, ◌&&◌, leb, if◌then◌else◌}

pub data BreakerState : Type 0 where
  closed open_now half_open : BreakerState

pub record CircuitBreaker : Type 0 where
  pub failure_threshold : ℕ
  pub open_ms : ℕ
  pub current_state : BreakerState
  pub consecutive_failures : ℕ
  pub opened_at : Option ℕ
  pub half_open_probe_in_flight : Bool

abbrev pub breaker_failure_threshold : ℕ
breaker_failure_threshold = 5

abbrev pub breaker_open_ms : ℕ
breaker_open_ms = 30000

unfoldable pub new : ℕ → ℕ → CircuitBreaker
new failure_threshold open_ms = record {
  failure_threshold = failure_threshold;
  open_ms = open_ms;
  current_state = closed;
  consecutive_failures = 0;
  opened_at = none;
  half_open_probe_in_flight = false;
}

-- The log line is left out.
abbrev transition_to : BreakerState → CircuitBreaker → CircuitBreaker
transition_to next b = record b { current_state = next }

abbrev is_open : BreakerState → Bool
is_open open_now = true
is_open _ = false

-- `openedAt !== null && now - openedAt >= openMs`
abbrev pub is_open_long_enough : ℕ → CircuitBreaker → Bool
is_open_long_enough now b = elim b.opened_at [
  | none ↦ false
  | some opened_at ↦ leb (opened_at + b.open_ms) now
]

unfoldable pub maybe_half_open : ℕ → CircuitBreaker → CircuitBreaker
maybe_half_open now b =
    if is_open b.current_state && is_open_long_enough now b then transition_to half_open b else b

on_success_in : BreakerState → CircuitBreaker → CircuitBreaker
on_success_in half_open b = transition_to closed (record b { consecutive_failures = 0 })
on_success_in _ b = record b { consecutive_failures = 0 }

unfoldable pub on_success : CircuitBreaker → CircuitBreaker
unfolding on_success_in
on_success b = on_success_in b.current_state b

-- A failure that counts, outside HALF_OPEN.
count_failure : ℕ → CircuitBreaker → CircuitBreaker
count_failure now b =
    let counted = record b { consecutive_failures = b.consecutive_failures + 1 } in
    if leb b.failure_threshold (b.consecutive_failures + 1)
    then transition_to open_now (record counted { opened_at = some now })
    else counted

on_failure_in : BreakerState → ℕ → CircuitBreaker → CircuitBreaker
unfolding count_failure
on_failure_in half_open now b = transition_to open_now (record b { opened_at = some now })
on_failure_in _ now b = count_failure now b

unfoldable pub on_failure : ℕ → CircuitBreaker → CircuitBreaker
unfolding on_failure_in
on_failure now b = on_failure_in b.current_state now b

-- How a call is let through: not at all (CircuitOpenError), as the probe of HALF_OPEN, or plainly.
pub data Admission : Type 0 where
  rejected probing plain : Admission

admit : BreakerState → CircuitBreaker → CircuitBreaker × Admission
admit open_now b = (b, rejected)
admit half_open b =
    if b.half_open_probe_in_flight
    then (b, rejected)
    else (record b { half_open_probe_in_flight = true }, probing)
admit closed b = (b, plain)

unfoldable pub begin : ℕ → CircuitBreaker → CircuitBreaker × Admission
unfolding maybe_half_open admit
begin now b = let b' = maybe_half_open now b in admit b'.current_state b'

-- `runAndRecord` after its operation, and the probe's `finally`.
unfoldable pub record_outcome : Bool → ℕ → CircuitBreaker → CircuitBreaker
unfolding on_success on_failure
record_outcome true now b = on_success b
record_outcome false now b = on_failure now b

unfoldable pub finish : Admission → Bool → ℕ → CircuitBreaker → CircuitBreaker
unfolding record_outcome
finish rejected success now b = b
finish plain success now b = record_outcome success now b
finish probing success now b =
    let b' = record_outcome success now b in record b' { half_open_probe_in_flight = false }
