-- ===== src/Http/Breaker/Laws.antt =====
-- What the breaker keeps between any two steps, and when it opens.
use canals.Prelude.{
  ℕ, zero, suc, ◌+◌, ◌<◌, ◌≡◌, refl, ◌∙◌, ap, inl, inr, some, Bool, true, false, arith, is_some,
  leb, if◌then◌else◌, Bool-cases,
}
use canals.Http.Breaker.{
  BreakerState, closed, open_now, CircuitBreaker, new, Admission, rejected, probing, plain, begin,
  finish,
}

abbrev is_closed : BreakerState → Bool
is_closed closed = true
is_closed _ = false

-- A closed breaker has not reached its threshold; one that is not closed knows when it opened.
pub record IsSound (b : CircuitBreaker) : Type 0 where
  pub threshold : 0 < b.failure_threshold
  pub below : b.current_state ≡ closed → b.consecutive_failures < b.failure_threshold
  pub stamped : is_closed b.current_state ≡ false → is_some b.opened_at ≡ true

pub new-IsSound : (n ms : ℕ) → 0 < n → IsSound (new n ms)
unfolding new
new-IsSound n ms h = ground arith

pub begin-IsSound : (now : ℕ) (b : CircuitBreaker) → IsSound b → IsSound (begin now b).0
unfolding begin
begin-IsSound now b h = ground arith

pub finish-IsSound :
    (a : Admission) (success : Bool) (now : ℕ) (b : CircuitBreaker)
    → IsSound b
    → IsSound (finish a success now b)
unfolding finish
finish-IsSound rejected success now b h = h
finish-IsSound probing true now b h = ground arith
finish-IsSound probing false now b h = ground arith
finish-IsSound plain true now b h = ground arith
finish-IsSound plain false now b h = ground arith

-- One call after the other, all failing at once: `n` of them.
open_gate :
    (now t : ℕ) (b : CircuitBreaker)
    → b.current_state ≡ open_now
    → b.opened_at ≡ some t
    → now < t + b.open_ms
    → begin now b ≡ (b, rejected)
unfolding begin
open_gate now t b s o h = ground arith

finish_rejected : (b : CircuitBreaker) (now : ℕ) → finish rejected false now b ≡ b
unfolding finish
finish_rejected b now = refl

unfoldable pub failures : ℕ → ℕ → CircuitBreaker → CircuitBreaker
failures zero now b = b
failures (suc n) now b = let (b', a) = begin now b in failures n now (finish a false now b')

open_failures :
    (n now : ℕ) (b : CircuitBreaker)
    → 0 < b.open_ms
    → b.current_state ≡ open_now
    → b.opened_at ≡ some now
    → failures n now b ≡ b
unfolding failures
open_failures zero now b m s o = refl
open_failures (suc n) now b m s o =
    let gate : begin now b ≡ (b, rejected) = open_gate now now b s o (omega arith) in
    rw gate (rw (finish_rejected b now) (open_failures n now b m s o))

failing_step :
    (now : ℕ) (b : CircuitBreaker)
    → b.current_state ≡ closed
    → finish (begin now b).1 false now (begin now b).0 ≡ (
        if leb b.failure_threshold (b.consecutive_failures + 1)
        then record b {
          current_state = open_now;
          consecutive_failures = b.consecutive_failures + 1;
          opened_at = some now;
        }
        else record b { consecutive_failures = b.consecutive_failures + 1 })
unfolding begin finish
failing_step now b c = ground arith

-- The first of `suc n` failing calls, where it is known what it leaves.
failures_next :
    (n now : ℕ) (b b' : CircuitBreaker)
    → finish (begin now b).1 false now (begin now b).0 ≡ b'
    → failures (suc n) now b ≡ failures n now b'
unfolding failures
failures_next n now b b' e = ap (λ c. failures n now c) e

abbrev choose : CircuitBreaker → ℕ → BreakerState
choose b count = if leb b.failure_threshold count then open_now else closed

-- From a closed breaker within its invariant, with a positive open time, `n` calls one after the
-- other that all fail at the same time leave it open if they bring the count of consecutive failures
-- to the threshold, and closed otherwise.
pub failures_open :
    (n now : ℕ) (b : CircuitBreaker)
    → IsSound b
    → 0 < b.open_ms
    → b.current_state ≡ closed
    → (failures n now b).current_state
      ≡ (if leb b.failure_threshold (b.consecutive_failures + n) then open_now else closed)
unfolding failures
failures_open zero now b v m c = ground (arith, v.below c)
failures_open (suc n) now b v m c =
    elim (Bool-cases (leb b.failure_threshold (b.consecutive_failures + 1))) [
      | inl full ↦
          let opened : CircuitBreaker = record b {
            current_state = open_now;
            consecutive_failures = b.consecutive_failures + 1;
            opened_at = some now;
          } in
          let step : finish (begin now b).1 false now (begin now b).0 ≡ opened =
            failing_step now b c ∙ rw full in
          rw (failures_next n now b opened step)
            (rw (open_failures n now opened m refl refl) (ground arith))
      | inr room ↦
          let counted : CircuitBreaker = record b {
            consecutive_failures = b.consecutive_failures + 1;
          } in
          let step : finish (begin now b).1 false now (begin now b).0 ≡ counted =
            failing_step now b c ∙ rw room in
          let sound : IsSound counted = ground arith in
          rw (failures_next n now b counted step)
            (failures_open n now counted sound m c ∙ ap (choose b) (omega arith))
    ]
