-- ===== src/Http/Retry.antt =====
-- src/infrastructure/http/retry.ts. An outcome is a resolved value or a thrown error; a state is
-- what the operation and the wait between two attempts change. The wait is given its upper bound in
-- milliseconds, since the source draws it at random below that.
pub mod Laws
use canals.Prelude.{
  ℕ, zero, suc, ◌+◌, ◌-◌, ◌*◌, ◌^◌, Option, none, some, Bool, true, false, ◌||◌, not, ◌==◌,
}

abbrev pub max_attempts : ℕ
max_attempts = 3

abbrev pub backoff_base_ms : ℕ
backoff_base_ms = 200

-- The bound of `fullJitterDelayMs`.
abbrev pub full_jitter_cap_ms : ℕ → ℕ → ℕ
full_jitter_cap_ms failed_attempt base_delay_ms = base_delay_ms * 2 ^ (failed_attempt - 1)

pub record RetryPolicy {ℓ} (Outcome : Type ℓ) : Type ℓ where
  pub max_attempts : ℕ
  pub base_delay_ms : ℕ
  pub is_transient : Outcome → Bool

module _ {ℓ κ} {Outcome : Type ℓ} {State : Type κ} (policy : RetryPolicy Outcome)
    (operation : State → Outcome × State) (sleep : ℕ → State → State) where
  -- The loop, with the number of attempts that its condition still allows.
  unfoldable pub retry_from : ℕ → ℕ → State → Option Outcome × State
  retry_from zero attempt s = (none, s)
  retry_from (suc left) attempt s =
      let (outcome, s') = operation s in
      let waited = sleep (full_jitter_cap_ms attempt policy.base_delay_ms) s' in
      elim (attempt == policy.max_attempts || not (policy.is_transient outcome)) [
        | true ↦ (some outcome, s')
        | false ↦ retry_from left (attempt + 1) waited
      ]

  -- `none` is the error after the loop.
  unfoldable pub with_retry : State → Option Outcome × State
  with_retry s = retry_from policy.max_attempts 1 s
