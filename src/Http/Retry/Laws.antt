-- ===== src/Http/Retry/Laws.antt =====
-- Which attempt of a retried operation is returned.
use canals.Prelude.{
  ℕ, zero, suc, ◌+◌, ◌<◌, ◌≡◌, refl, ◌⊎◌, inl, inr, Option, some, true, false, ◌||◌, not, ◌==◌,
  arith, Bool-cases,
}
use canals.Http.Retry.{full_jitter_cap_ms, RetryPolicy, retry_from, with_retry}

module _ {ℓ} {Outcome : Type ℓ} {State : Type ℓ} (policy : RetryPolicy Outcome)
    (operation : State → Outcome × State) (sleep : ℕ → State → State) where
  -- The state in which the attempt `k` attempts after `attempt` starts, when all before it are made.
  unfoldable pub before : ℕ → ℕ → State → State
  before zero attempt s = s
  before (suc k) attempt s =
      before k (attempt + 1)
        (sleep (full_jitter_cap_ms attempt policy.base_delay_ms) (operation s).1)

  -- Attempt `k` is returned, out of `left`: those before it were transient, and it is the last one
  -- allowed or is not transient.
  pub record IsReturned (left attempt : ℕ) (s : State) (r : Option Outcome × State) (k : ℕ)
      : Type ℓ where
    pub allowed : k < left
    pub result : r ≡ (some (operation (before k attempt s)).0, (operation (before k attempt s)).1)
    pub transient : (j : ℕ) → j < k → policy.is_transient (operation (before j attempt s)).0 ≡ true
    pub final : (k + 1 ≡ left) ⊎ (policy.is_transient (operation (before k attempt s)).0 ≡ false)

  now-IsReturned :
      (left attempt : ℕ) (s : State)
      → (attempt == policy.max_attempts || not (policy.is_transient (operation s).0)) ≡ true
      → attempt + suc left ≡ policy.max_attempts + 1
      → IsReturned (suc left) attempt s (retry_from policy operation sleep (suc left) attempt s) 0
  unfolding retry_from before
  now-IsReturned left attempt s stop e = record {
    allowed = omega arith;
    result = rw (retry_from, stop) refl;
    transient = λ j h. ground (arith, h);
    final = ground (arith, stop, e);
  }

  later-IsReturned :
      (left attempt : ℕ) (s : State) (k : ℕ)
      → (attempt == policy.max_attempts || not (policy.is_transient (operation s).0)) ≡ false
      → let waited : State =
          sleep (full_jitter_cap_ms attempt policy.base_delay_ms) (operation s).1 in
        IsReturned left
          (attempt + 1)
          waited
          (retry_from policy operation sleep left (attempt + 1) waited)
          k
        → IsReturned
            (suc left)
            attempt
            s
            (retry_from policy operation sleep (suc left) attempt s)
            (suc k)
  unfolding retry_from before
  later-IsReturned left attempt s k go r = record {
    allowed = ground (arith, r.allowed);
    result = rw (retry_from, go) r.result;
    transient = elim [ zero ↦ λ h. ground (arith, go) | suc j ↦ λ h. r.transient j (omega arith) ];
    final = ground (arith, r.final);
  }

  retry_from_lem :
      (left attempt : ℕ) (s : State)
      → 0 < left
      → attempt + left ≡ policy.max_attempts + 1
      → (k : ℕ) × IsReturned left attempt s (retry_from policy operation sleep left attempt s) k
  retry_from_lem zero attempt s h e = ground arith
  retry_from_lem (suc left) attempt s h e =
      elim (Bool-cases
        (attempt == policy.max_attempts || not (policy.is_transient (operation s).0))) [
          | inl stop ↦ (0, now-IsReturned left attempt s stop e)
          | inr go ↦
              let waited : State =
                sleep (full_jitter_cap_ms attempt policy.base_delay_ms) (operation s).1 in
              let room : 0 < left = ground (arith, go, e) in
              let (k, r) = retry_from_lem left (attempt + 1) waited room (omega arith) in
              (suc k, later-IsReturned left attempt s k go r)
        ]

  -- With at least one attempt allowed, a retried operation returns the outcome of one of its first
  -- `max_attempts` attempts and stops there: every attempt before it had a transient outcome, and
  -- its own is not transient or it is the last one allowed.
  pub with_retry_lem :
      (s : State)
      → 0 < policy.max_attempts
      → (k : ℕ) × IsReturned policy.max_attempts 1 s (with_retry policy operation sleep s) k
  unfolding with_retry
  with_retry_lem s h = retry_from_lem policy.max_attempts 1 s h (omega arith)
