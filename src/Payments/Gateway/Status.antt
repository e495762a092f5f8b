-- ===== src/Payments/Gateway/Status.antt =====
-- What a status of the gateway says of the provider's answer.
use canals.Prelude.{
  ℕ, ◌+◌, ◌<◌, ◌≡◌, refl, ap, subst, ◌⊎◌, inl, inr, Text, codes, text_eq_iff, Option, none, some,
  Bool, true, false, arith, ◌==◌, ◌&&◌, Bool-cases,
}
use canals.Domain.Status.{PaymentStatus, captured, declined, failed, unknown}
use canals.Store.{ChargeKey}
use canals.Http.Breaker.{CircuitBreaker}
use canals.Http.Retry.Laws.{before, with_retry_lem}
use canals.Payments.Gateway.{
  Body, ProviderResponse, AttemptOutcome, responded, raised, Request, get_charge, read_string_field,
  map_status_response, build_unknown_result, status_result, same_text, recognised, is_retryable,
  Outside, run_attempt, run_attempts, policy_of, sleep_outside, get_status,
}

-- The outcome of an attempt that a status of `getStatus` stands for.
pub data Warrants : AttemptOutcome → PaymentStatus → Type 0 where
  approved :
      (r : ProviderResponse)
      → r.http_status ≡ 200
      → read_string_field r.body (codes "status") ≡ some (codes "approved")
      → Warrants (responded r) captured
  refused :
      (r : ProviderResponse)
      → r.http_status ≡ 200
      → read_string_field r.body (codes "status") ≡ some (codes "declined")
      → Warrants (responded r) declined
  absent : (r : ProviderResponse) → r.http_status ≡ 404 → Warrants (responded r) failed
  unclear : (o : AttemptOutcome) → Warrants o unknown

same_text_eq : (o : Option Text) (t : Text) → same_text o t ≡ true → o ≡ some t
same_text_eq none t h = ground arith
same_text_eq (some s) t h = ap some ((text_eq_iff s t).0 h)

abbrev says : ProviderResponse → Text → Bool
says r t = r.http_status == 200 && same_text (read_string_field r.body (codes "status")) t

says_eq :
    (r : ProviderResponse) (t : Text)
    → says r t ≡ true
    → (r.http_status ≡ 200) × (read_string_field r.body (codes "status") ≡ some t)
says_eq r t h = (
  ground (arith, h),
  same_text_eq (read_string_field r.body (codes "status")) t (ground (arith, h)),
)

module _ (redact : Body → Option Text) (r : ProviderResponse) where
  absent_status : (r.http_status == 404) ≡ true → (map_status_response redact r).status ≡ failed
  unfolding map_status_response
  absent_status h = rw (map_status_response, h) refl

  found_status :
      (o : Option PaymentStatus)
      → (r.http_status == 404) ≡ false
      → recognised redact r ≡ o
      → (map_status_response redact r).status ≡ elim o [ none ↦ unknown | some s ↦ s ]
  unfolding map_status_response
  found_status none h e = rw (map_status_response, h) (rw e refl)
  found_status (some t) h e = rw (map_status_response, h) (rw e refl)

  found-Warrants :
      (r.http_status == 404) ≡ false → Warrants (responded r) (map_status_response redact r).status
  found-Warrants h = elim (Bool-cases (says r (codes "approved"))) [
    | inl said ↦
        let (ok200, field) = says_eq r (codes "approved") said in
        rw (found_status (some captured) h (rw said refl)) (approved r ok200 field)
    | inr other ↦ elim (Bool-cases (says r (codes "declined"))) [
      | inl said ↦
          let (ok200, field) = says_eq r (codes "declined") said in
          rw (found_status (some declined) h (rw other (rw said refl))) (refused r ok200 field)
      | inr neither ↦ rw (found_status none h (rw other (rw neither refl))) (unclear (responded r))
    ]
  ]

  response-Warrants : Warrants (responded r) (map_status_response redact r).status
  response-Warrants = elim (Bool-cases (r.http_status == 404)) [
    | inl is404 ↦ rw (absent_status is404) (absent r (ground (arith, is404)))
    | inr other ↦ found-Warrants other
  ]

status_result-Warrants :
    (redact : Body → Option Text) (o : AttemptOutcome) → Warrants o (status_result redact o).status
unfolding build_unknown_result
status_result-Warrants redact (responded r) = response-Warrants redact r
status_result-Warrants redact (raised error) = unclear (raised error)

module _ {World : Type 0} (outside : Outside World) (max base : ℕ) (request : Request)
    (s : CircuitBreaker × World) where
  -- The state before the attempt after `k` others, and that attempt's outcome.
  abbrev pub start_of : ℕ → CircuitBreaker × World
  start_of k =
      before (policy_of outside max base) (run_attempt outside request) (sleep_outside outside) k 1
        s

  abbrev pub attempt_of : ℕ → AttemptOutcome
  attempt_of k = (run_attempt outside request (start_of k)).0

  -- The attempt `k` is the one whose outcome a call goes by: those before it failed in a way that
  -- is retried.
  pub record IsDecisive (o : AttemptOutcome) (k : ℕ) : Type 0 where
    pub allowed : k < max
    pub outcome : o ≡ attempt_of k
    pub retried : (j : ℕ) → j < k → is_retryable (attempt_of j) ≡ true
    pub final : (k + 1 ≡ max) ⊎ (is_retryable (attempt_of k) ≡ false)

  pub run_attempts-IsDecisive :
      0 < max → (k : ℕ) × IsDecisive (run_attempts outside max base request s).0 k
  unfolding run_attempts
  run_attempts-IsDecisive h =
      let (k, r) =
        with_retry_lem (policy_of outside max base) (run_attempt outside request)
          (sleep_outside outside) s h in
      (
        k,
        record {
          allowed = r.allowed;
          outcome = rw (run_attempts, r.result) refl;
          retried = r.transient;
          final = r.final;
        },
      )

-- With at least one attempt allowed, `getStatus` goes by one attempt, the first that is not retried
-- or the last one allowed, and its status says of that attempt's answer: CAPTURED, that it is a 200
-- whose status field is "approved"; DECLINED, a 200 whose status field is "declined"; FAILED, a 404;
-- it is never PENDING.
pub get_status-Warrants :
    {World : Type 0} (outside : Outside World) (redact : Body → Option Text) (max base : ℕ)
    (key : ChargeKey) (s : CircuitBreaker × World)
    → 0 < max
    → (k : ℕ) × IsDecisive outside max base
        (get_charge key)
        s
        (run_attempts outside max base (get_charge key) s).0
        k
      × Warrants
          (attempt_of outside max base (get_charge key) s k)
          (get_status outside redact max base key s).0.status
unfolding get_status
get_status-Warrants outside redact max base key s h =
    let (k, d) = run_attempts-IsDecisive outside max base (get_charge key) s h in
    (
      k,
      d,
      subst (λ o. Warrants o (get_status outside redact max base key s).0.status) d.outcome
          (status_result-Warrants redact (run_attempts outside max base (get_charge key) s).0),
    )
