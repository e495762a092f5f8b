-- ===== src/Payments/Gateway.antt =====
-- src/infrastructure/payments/http-payment-gateway.ts and src/infrastructure/http/fetch-errors.ts,
-- over the breaker and the retry loop. The network, the clock, the timer and `redact` are
-- parameters: `World` is all that they read and change. The breaker's state is between the calls of
-- this adapter that are made one after the other.
pub mod Status
use canals.Prelude.{
  ℕ, Text, codes, text_eq, List, [], ◌∷◌, Option, none, some, Bool, true, false, leb, ◌==◌, ◌&&◌,
  if◌then◌else◌,
}
use canals.Errors.{
  PaymentFailureCode, card_declined, timeout, provider_error, connection_refused, network_error,
  circuit_open, invalid_request, not_found,
}
use canals.Domain.Status.{PaymentStatus, captured, declined, failed, unknown}
use canals.Store.{ChargeKey, CardBrand}
use canals.Ports.{ChargeCommand, ChargeResult}
use canals.Payments.Card.{describe_card}
use canals.Http.Breaker.{CircuitBreaker, Admission, rejected, probing, plain, begin, finish}
use canals.Http.Retry.{RetryPolicy, with_retry}

-- A field of a JSON object: a string, or any other value.
pub data FieldValue : Type 0 where
  text_value : Text → FieldValue
  other_value : FieldValue

-- A body that is a JSON object, by its fields; any other body is null (`asRecord`).
abbrev pub Body : Type 0
Body = Option (List (Text × FieldValue))

pub record ProviderResponse : Type 0 where
  pub http_status : ℕ
  pub body : Body

-- What `fetch` may throw, as far as `classifyFetchError` reads it: the name of an object, and the
-- code of its cause.
pub record Thrown : Type 0 where
  pub name : Option Text
  pub cause_code : Option Text

pub data FetchErrorKind : Type 0 where
  timed_out refused network : FetchErrorKind

pub data ProviderFailure : Type 0 where
  provider_error_exception timeout_exception connection_refused_exception : ProviderFailure
  network_error_exception circuit_open_error too_few_attempts : ProviderFailure

pub data AttemptOutcome : Type 0 where
  responded : ProviderResponse → AttemptOutcome
  raised : ProviderFailure → AttemptOutcome

pub record ChargeWirePayload : Type 0 where
  pub card_number : Text
  pub amount_cents : ℕ
  pub currency : Text
  pub description : Text

pub data Request : Type 0 where
  post_charge : ChargeKey → ChargeWirePayload → Request
  get_charge : ChargeKey → Request

pub data Fetched : Type 0 where
  answered : ProviderResponse → Fetched
  threw : Thrown → Fetched

abbrev pub same_text : Option Text → Text → Bool
same_text none t = false
same_text (some s) t = text_eq s t

unfoldable pub classify_fetch_error : Thrown → FetchErrorKind
classify_fetch_error error =
    if same_text error.name (codes "TimeoutError")
    then timed_out
    else if same_text error.cause_code (codes "ECONNREFUSED")
    then refused
    else network

abbrev classify_network_error : FetchErrorKind → ProviderFailure
classify_network_error timed_out = timeout_exception
classify_network_error refused = connection_refused_exception
classify_network_error network = network_error_exception

abbrev find_field : Text → List (Text × FieldValue) → Option Text
find_field field [] = none
find_field field ((name, text_value t) ∷ rest) =
    let found = find_field field rest in if text_eq name field then some t else found
find_field field ((name, other_value) ∷ rest) =
    let found = find_field field rest in if text_eq name field then none else found

unfoldable pub read_string_field : Body → Text → Option Text
read_string_field none field = none
read_string_field (some fields) field = find_field field fields

abbrev pub is_retryable : AttemptOutcome → Bool
is_retryable (responded r) = false
is_retryable (raised circuit_open_error) = false
is_retryable (raised too_few_attempts) = false
is_retryable (raised _) = true

unfoldable pub classify_thrown_failure : ProviderFailure → PaymentFailureCode
classify_thrown_failure circuit_open_error = circuit_open
classify_thrown_failure timeout_exception = timeout
classify_thrown_failure provider_error_exception = provider_error
classify_thrown_failure connection_refused_exception = connection_refused
classify_thrown_failure _ = network_error

unfoldable pub build_unknown_result :
    ProviderFailure → Option Text → Option CardBrand → ChargeResult
unfolding classify_thrown_failure
build_unknown_result error card_last4 card_brand = record {
  status = unknown;
  provider_payment_id = none;
  card_last4 = card_last4;
  card_brand = card_brand;
  failure_code = some (classify_thrown_failure error);
  raw_response = none;
}

-- `toProviderResponse`, where a body that is no JSON object has been read as null.
unfoldable pub to_outcome : Fetched → AttemptOutcome
unfolding classify_fetch_error
to_outcome (answered r) =
    if leb 500 r.http_status then raised provider_error_exception else responded r
to_outcome (threw error) = raised (classify_network_error (classify_fetch_error error))

module _ (redact : Body → Option Text) where
  unfoldable pub map_charge_response : ProviderResponse → Text → CardBrand → ChargeResult
  unfolding read_string_field
  map_charge_response r last4 brand =
      let answer : PaymentStatus → Option PaymentFailureCode → ChargeResult = λ status code.
        record {
          status = status;
          provider_payment_id = read_string_field r.body (codes "id");
          card_last4 = some last4;
          card_brand = some brand;
          failure_code = code;
          raw_response = redact r.body;
        } in
      if r.http_status == 200
      then answer captured none
      else if r.http_status == 402
      then answer declined (some card_declined)
      else answer unknown (some invalid_request)

  abbrev pub recognised : ProviderResponse → Option PaymentStatus
  recognised r =
      if r.http_status == 200
        && same_text (read_string_field r.body (codes "status")) (codes "approved")
      then some captured
      else if r.http_status == 200
          && same_text (read_string_field r.body (codes "status")) (codes "declined")
      then some declined
      else none

  abbrev failure_of : PaymentStatus → Option PaymentFailureCode
  failure_of declined = some card_declined
  failure_of _ = none

  unfoldable pub map_status_response : ProviderResponse → ChargeResult
  unfolding read_string_field
  map_status_response r =
      if r.http_status == 404
      then record {
        status = failed;
        provider_payment_id = none;
        card_last4 = none;
        card_brand = none;
        failure_code = some not_found;
        raw_response = redact r.body;
      }
      else elim (recognised r) [
        | none ↦ record {
          status = unknown;
          provider_payment_id = read_string_field r.body (codes "id");
          card_last4 = read_string_field r.body (codes "cardLast4");
          card_brand = none;
          failure_code = some invalid_request;
          raw_response = redact r.body;
        }
        | some status ↦ record {
          status = status;
          provider_payment_id = read_string_field r.body (codes "id");
          card_last4 = read_string_field r.body (codes "cardLast4");
          card_brand = none;
          failure_code = failure_of status;
          raw_response = redact r.body;
        }
      ]

  abbrev pub charge_result : Text → AttemptOutcome → ChargeResult
  charge_result card (responded r) =
      map_charge_response r (describe_card card).last4 (describe_card card).brand
  charge_result card (raised error) =
      build_unknown_result error (some (describe_card card).last4) (some (describe_card card).brand)

  abbrev pub status_result : AttemptOutcome → ChargeResult
  status_result (responded r) = map_status_response r
  status_result (raised error) = build_unknown_result error none none

abbrev pub succeeds : AttemptOutcome → Bool
succeeds (responded r) = true
succeeds (raised failure) = false

-- The network, the clock and the timer.
pub record Outside (World : Type 0) : Type 0 where
  pub fetch : Request → World → Fetched × World
  pub now : World → ℕ
  pub sleep : ℕ → World → World

module _ {World : Type 0} (outside : Outside World) where
  -- One attempt: `breaker.execute` of one request.
  unfoldable pub run_attempt :
      Request → CircuitBreaker × World → AttemptOutcome × (CircuitBreaker × World)
  unfolding to_outcome
  run_attempt request (breaker, w) =
      let (breaker', admission) = begin (outside.now w) breaker in
      elim admission [
        | rejected ↦ (raised circuit_open_error, (breaker', w))
        | probing ↦
            let (fetched, w') = outside.fetch request w in
            let outcome = to_outcome fetched in
            (outcome, (finish probing (succeeds outcome) (outside.now w') breaker', w'))
        | plain ↦
            let (fetched, w') = outside.fetch request w in
            let outcome = to_outcome fetched in
            (outcome, (finish plain (succeeds outcome) (outside.now w') breaker', w'))
      ]

  abbrev pub policy_of : ℕ → ℕ → RetryPolicy AttemptOutcome
  policy_of max base = record {
    max_attempts = max;
    base_delay_ms = base;
    is_transient = is_retryable;
  }

  abbrev pub sleep_outside : ℕ → CircuitBreaker × World → CircuitBreaker × World
  sleep_outside cap (breaker, w) = (breaker, outside.sleep cap w)

  unfoldable pub run_attempts :
      ℕ → ℕ → Request → CircuitBreaker × World → AttemptOutcome × (CircuitBreaker × World)
  run_attempts max base request s =
      let (outcome, s') = with_retry (policy_of max base) (run_attempt request) sleep_outside s in
      elim outcome [ none ↦ (raised too_few_attempts, s') | some o ↦ (o, s') ]

  module _ (redact : Body → Option Text) (max base : ℕ) where
    unfoldable pub charge :
        ChargeCommand → CircuitBreaker × World → ChargeResult × (CircuitBreaker × World)
    unfolding run_attempts
    charge command s =
        let payload : ChargeWirePayload = record {
          card_number = command.card_number;
          amount_cents = command.amount_minor;
          currency = command.currency;
          description = command.description;
        } in
        let (outcome, s') = run_attempts max base (post_charge command.idempotency_key payload) s in
        (charge_result redact command.card_number outcome, s')

    unfoldable pub get_status :
        ChargeKey → CircuitBreaker × World → ChargeResult × (CircuitBreaker × World)
    unfolding run_attempts
    get_status key s =
        let (outcome, s') = run_attempts max base (get_charge key) s in
        (status_result redact outcome, s')
