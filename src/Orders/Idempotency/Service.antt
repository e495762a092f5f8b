-- ===== src/Orders/Idempotency/Service.antt =====
-- src/application/orders/create-order-idempotent.service.ts, with the answer that the controller
-- (src/infrastructure/http/controllers/orders.controller.ts) or the filter then gives. The use case
-- is a parameter, a function of a state of any type; what its database and the payment provider do
-- is in that state. An outage of the table `idempotency_keys` itself is left out.
pub mod Table
pub mod Replay
pub mod Steps
use canals.Prelude.{
  ℕ, Text, codes, text_eq, List, [], Option, none, some, Bool, true, false, if◌then◌else◌, not,
}
use canals.Errors.{
  Uuid, Error, Result, ok, err, GeocodingFailureReason, query_failed, unique_violation,
  payment_declined, payment_provider_unavailable,
}
use canals.Domain.Address.{ShippingAddress}
use canals.Allocation.Inventory.{OrderLine}
use canals.Orders.Create.{CreateOrderCommand, CreateOrderResult}
use canals.Http.Problem.{
  ProblemDetails, Exception, application, bad_request, http_exception, problem_details,
  build_problem,
}
use canals.Http.OrderResponse.{OrderResponse, to_order_response}
use canals.Orders.Idempotency.{
  IdempotencyKeyEntity, IdempotencyState, in_progress, completed, insert_in_progress,
  find_active_by_key, mark_completed,
}
use canals.Orders.Idempotency.Fingerprint.{Json, compute_request_fingerprint}

-- `OrderResponse | ProblemDetails`, and the null that the cast of a row's column would let through.
pub data ResponseBody : Type 0 where
  order_body : OrderResponse → ResponseBody
  problem_body : ProblemDetails → ResponseBody
  null_body : ResponseBody

pub record PaymentDto : Type 0 where
  pub card_number : Text

-- A validated body, and the JSON that it is.
pub record CreateOrderDto : Type 0 where
  pub customer_id : Uuid
  pub shipping_address : ShippingAddress
  pub items : List OrderLine
  pub payment : PaymentDto
  pub json : Json

pub record CreateOrderIdempotentParams : Type 0 where
  pub idempotency_key : Option Text
  pub dto : CreateOrderDto
  pub instance_path : Text

pub record CreateOrderIdempotentResult : Type 0 where
  pub status : ℕ
  pub body : ResponseBody

-- What a call throws or returns.
pub data Outcome (Value : Type 0) : Type 0 where
  throws : Exception → Outcome Value
  returns : Value → Outcome Value

pub data Begun : Type 0 where
  new_request : Uuid → Begun
  replayed_request : CreateOrderIdempotentResult → Begun

abbrev pub Keys : Type 0
Keys = List (IdempotencyKeyEntity ResponseBody)

-- What the service calls: the saga, the hash, and how identifiers and messages are written.
pub record IdempotentServices (Saga : Type 0) : Type 0 where
  pub create_order : CreateOrderCommand → Saga → Result CreateOrderResult × Saga
  pub next_id : Keys → Uuid
  pub is_uuid : Text → Bool
  pub less : Text → Text → Bool
  pub stringify : Json → Text
  pub sha256 : Text → Text
  pub print_id : Uuid → Text
  pub geocoding_message : GeocodingFailureReason → Text
  pub kilometers_of : ℕ → ℕ
  pub miles_of : ℕ → ℕ

-- `!idempotencyKey` and `isUUID`
abbrev pub check_key : (Text → Bool) → Option Text → Outcome Text
check_key is_uuid none = throws (bad_request none)
check_key is_uuid (some key) =
    if text_eq key []
    then throws (bad_request none)
    else if is_uuid key
    then returns key
    else throws (bad_request none)

abbrev pub reused : Exception
reused =
    http_exception 422 (codes "UnprocessableEntityException")
      (codes "Idempotency-Key was already used with a different request body")

abbrev pub still_processed : Exception
still_processed =
    http_exception 409 (codes "ConflictException")
      (codes "A request with this Idempotency-Key is still being processed")

-- `existing.responseStatus ?? HttpStatus.OK`
abbrev status_or_ok : Option ℕ → ℕ
status_or_ok none = 200
status_or_ok (some status) = status

abbrev body_or_null : Option ResponseBody → ResponseBody
body_or_null none = null_body
body_or_null (some body) = body

-- What `findActiveByKey` found, after a unique violation.
unfoldable pub resolve_existing : Text → Option (IdempotencyKeyEntity ResponseBody) → Outcome Begun
resolve_existing fingerprint none = throws (application (query_failed unique_violation))
resolve_existing fingerprint (some existing) =
    if not (text_eq existing.request_fingerprint fingerprint)
    then throws reused
    else elim existing.state [
      | in_progress ↦ throws still_processed
      | completed ↦ returns (
          replayed_request (record {
            status = status_or_ok existing.response_status;
            body = body_or_null existing.response_body;
          }))
    ]

-- `error instanceof PaymentDeclinedError || error instanceof PaymentProviderUnavailableError`
abbrev pub recorded_order : Error → Option Uuid
recorded_order (payment_declined id _) = some id
recorded_order (payment_provider_unavailable id _) = some id
recorded_order _ = none

module _ {Saga : Type 0} (services : IdempotentServices Saga) where
  abbrev pub fingerprint_of : CreateOrderDto → Text
  fingerprint_of dto =
      compute_request_fingerprint services.less services.stringify services.sha256 dto.json

  unfoldable pub begin_idempotent_request : ℕ → Text → Text → Keys → Outcome Begun × Keys
  unfolding insert_in_progress find_active_by_key resolve_existing
  begin_idempotent_request now key fingerprint keys =
      elim (insert_in_progress services.next_id now
        (record { idempotency_key = key; request_fingerprint = fingerprint }) keys) [
          | some (id, keys') ↦ (returns (new_request id), keys')
          | none ↦ (resolve_existing fingerprint (find_active_by_key now key keys), keys)
        ]

  abbrev pub command_of : Text → CreateOrderDto → CreateOrderCommand
  command_of key dto = record {
    customer_id = dto.customer_id;
    shipping_address = dto.shipping_address;
    lines = dto.items;
    card_number = dto.payment.card_number;
    idempotency_key = key;
  }

  abbrev pub response_of : CreateOrderResult → OrderResponse
  response_of result = to_order_response services.kilometers_of services.miles_of (record {
    order = result.order;
    items = result.items;
    warehouse = record {
      id = result.allocation.warehouse_id;
      name = result.allocation.name;
      distance_meters = result.allocation.distance_meters;
    };
    payment_status = result.payment.status;
  })

  abbrev pub problem_of : Text → Text → Exception → ProblemDetails
  problem_of = problem_details services.print_id services.geocoding_message

  -- What is recorded and what is returned or thrown, once the use case has ended.
  unfoldable pub record_outcome :
      Text
      → Text
      → Uuid
      → Result CreateOrderResult
      → Keys
      → Outcome CreateOrderIdempotentResult × Keys
  unfolding mark_completed
  record_outcome instance_path correlation_id id (ok result) keys = (
    returns (record { status = 201; body = order_body (response_of result) }),
    mark_completed
        (record {
          id = id;
          order_id = some result.order.id;
          response_status = 201;
          response_body = order_body (response_of result);
        })
        keys,
  )
  record_outcome instance_path correlation_id id (err e) keys = (
    throws (application e),
    mark_completed
        (record {
          id = id;
          order_id = recorded_order e;
          response_status = (problem_of instance_path correlation_id (application e)).status;
          response_body = problem_body (problem_of instance_path correlation_id (application e));
        })
        keys,
  )

  unfoldable pub run_and_record :
      Text
      → Text
      → Uuid
      → Text
      → CreateOrderDto
      → Keys × Saga
      → Outcome CreateOrderIdempotentResult × (Keys × Saga)
  unfolding record_outcome
  run_and_record instance_path correlation_id id key dto (keys, saga) =
      let (result, saga') = services.create_order (command_of key dto) saga in
      let (outcome, keys') = record_outcome instance_path correlation_id id result keys in
      (outcome, (keys', saga'))

  abbrev pub after_begin :
      Text
      → Text
      → Text
      → CreateOrderDto
      → Saga
      → Outcome Begun × Keys
      → Outcome CreateOrderIdempotentResult × (Keys × Saga)
  after_begin instance_path correlation_id key dto saga (throws e, keys) = (throws e, (keys, saga))
  after_begin instance_path correlation_id key dto saga (returns (replayed_request r), keys) =
      (returns r, (keys, saga))
  after_begin instance_path correlation_id key dto saga (returns (new_request id), keys) =
      run_and_record instance_path correlation_id id key dto (keys, saga)

  unfoldable pub execute :
      ℕ
      → Text
      → CreateOrderIdempotentParams
      → Keys × Saga
      → Outcome CreateOrderIdempotentResult × (Keys × Saga)
  unfolding begin_idempotent_request run_and_record
  execute now correlation_id params (keys, saga) =
      elim (check_key services.is_uuid params.idempotency_key) [
        | throws e ↦ (throws e, (keys, saga))
        | returns key ↦
            after_begin params.instance_path correlation_id key params.dto saga
              (begin_idempotent_request now key (fingerprint_of params.dto) keys)
      ]

  -- The status and the body that the client is sent: by the controller, or by the filter.
  unfoldable pub sent :
      Text → Text → Outcome CreateOrderIdempotentResult → CreateOrderIdempotentResult
  sent instance_path correlation_id (returns r) = r
  sent instance_path correlation_id (throws e) = record {
    status = (problem_of instance_path correlation_id e).status;
    body = problem_body (problem_of instance_path correlation_id e);
  }
