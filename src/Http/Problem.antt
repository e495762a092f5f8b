-- ===== src/Http/Problem.antt =====
-- src/infrastructure/http/filters/problem-details.filter.ts, with the messages of the error classes
-- (src/application/allocation/errors.ts, src/application/orders/create-order.errors.ts and
-- order-read.errors.ts). `print_id` writes an identifier as its text, and `geocoding_message` is the
-- message that the geocoder gives its error.
pub mod Laws
use canals.Prelude.{
  ℕ, Text, codes, text_eq, List, [], ◌∷◌, ◌++◌, Option, none, some, Bool, true, false, map, ◌==◌,
  leb, not, ◌||◌, ◌&&◌, if◌then◌else◌,
}
use canals.Errors.{
  Uuid, Error, NoFulfilmentPossibleReason, no_candidates, reservation_race_lost,
  GeocodingFailureReason, PaymentFailureCode, card_declined, timeout, provider_error,
  connection_refused, network_error, circuit_open, invalid_request, not_found,
  no_fulfilment_possible, customer_not_found, product_not_found, payment_declined,
  payment_provider_unavailable, geocoding_failed, order_not_found,
}

pub record ProblemDetailsErrorItem : Type 0 where
  pub field : Text
  pub message : Text

pub record ProblemShape : Type 0 where
  pub status : ℕ
  pub type : Text
  pub title : Text
  pub detail : Text
  pub errors : Option (List ProblemDetailsErrorItem)
  pub order_id : Option Uuid

pub record ProblemDetails : Type 0 where
  pub type : Text
  pub title : Text
  pub status : ℕ
  pub detail : Text
  pub instance_path : Text
  pub correlation_id : Text
  pub errors : Option (List ProblemDetailsErrorItem)
  pub order_id : Option Uuid

-- What may be thrown at the filter: an error of the application; a BadRequestException, with the
-- messages of its response where these are an array; another HttpException, and an error that
-- middleware exposes, by status, name and message; anything else.
pub data Exception : Type 0 where
  application : Error → Exception
  bad_request : Option (List Text) → Exception
  http_exception : ℕ → Text → Text → Exception
  exposed : ℕ → Text → Text → Exception
  anything : Exception

-- The rest of a text after a prefix.
abbrev pub strip_prefix : Text → Text → Option Text
strip_prefix [] s = some s
strip_prefix (p ∷ ps) [] = none
strip_prefix (p ∷ ps) (c ∷ cs) = if p == c then strip_prefix ps cs else none

abbrev prepend : ℕ → Option Text → Option Text
prepend c none = none
prepend c (some s) = some (c ∷ s)

-- What stands before a suffix.
abbrev pub strip_suffix : Text → Text → Option Text
strip_suffix suffix [] = if text_eq suffix [] then some [] else none
strip_suffix suffix (c ∷ cs) =
    let rest = prepend c (strip_suffix suffix cs) in
    if text_eq suffix (c ∷ cs) then some [] else rest

-- A line terminator, which `.` does not match.
abbrev is_line_end : ℕ → Bool
is_line_end c = c == 10 || c == 13 || c == 8232 || c == 8233

abbrev is_dots : Text → Bool
is_dots [] = true
is_dots (c ∷ cs) = not (is_line_end c) && is_dots cs

-- `(.+)`
abbrev one_line : Option Text → Option Text
one_line none = none
one_line (some []) = none
one_line (some (c ∷ cs)) = if is_dots (c ∷ cs) then some (c ∷ cs) else none

-- `/^property (.+) should not exist$/`
unfoldable pub whitelist_violation : Text → Option Text
whitelist_violation text = elim (strip_prefix (codes "property ") text) [
  | none ↦ none
  | some rest ↦ one_line (strip_suffix (codes " should not exist") rest)
]

-- The text before the first space, the whole text if there is none.
unfoldable pub before_space : Text → Text
before_space [] = []
before_space (c ∷ cs) = let rest = c ∷ before_space cs in if c == b' ' then [] else rest

unfoldable pub extract_validation_error : Text → ProblemDetailsErrorItem
unfolding whitelist_violation before_space
extract_validation_error text = elim (whitelist_violation text) [
  | some field ↦ record { field = field; message = text }
  | none ↦ record { field = before_space text; message = text }
]

unfoldable pub extract_validation_errors :
    Option (List Text) → Option (List ProblemDetailsErrorItem)
unfolding extract_validation_error
extract_validation_errors none = none
extract_validation_errors (some messages) = some (map extract_validation_error messages)

abbrev pub code_text : PaymentFailureCode → Text
code_text card_declined = codes "CARD_DECLINED"
code_text timeout = codes "TIMEOUT"
code_text provider_error = codes "PROVIDER_ERROR"
code_text connection_refused = codes "CONNECTION_REFUSED"
code_text network_error = codes "NETWORK_ERROR"
code_text circuit_open = codes "CIRCUIT_OPEN"
code_text invalid_request = codes "INVALID_REQUEST"
code_text not_found = codes "NOT_FOUND"

-- The code in parentheses, where there is one.
abbrev pub code_suffix : Option PaymentFailureCode → Text
code_suffix none = []
code_suffix (some code) = codes " (" ++ (code_text code ++ codes ")")

abbrev plain_problem : ℕ → Text → Text → Text → ProblemShape
plain_problem status type title detail = record {
  status = status;
  type = type;
  title = title;
  detail = detail;
  errors = none;
  order_id = none;
}

module _ (print_id : Uuid → Text) (geocoding_message : GeocodingFailureReason → Text) where
  -- `join(', ')`
  unfoldable pub join_ids : List Uuid → Text
  join_ids [] = []
  join_ids (id ∷ []) = print_id id
  join_ids (id ∷ ids) = print_id id ++ (codes ", " ++ join_ids ids)

  abbrev internal_problem : ProblemShape
  internal_problem =
      plain_problem 500 (codes "about:blank") (codes "Internal server error")
        (codes "An unexpected error occurred.")

  abbrev not_found_problem : Text → ProblemShape
  not_found_problem =
      plain_problem 404 (codes "urn:problem-type:not-found") (codes "Resource not found")

  abbrev fulfilment_problem : List Uuid → NoFulfilmentPossibleReason → ProblemShape
  fulfilment_problem ids reservation_race_lost =
      plain_problem 409 (codes "urn:problem-type:inventory-reservation-conflict")
        (codes "Inventory reservation conflict")
        (codes "No fulfilment possible for product ids: " ++ join_ids ids)
  fulfilment_problem ids no_candidates =
      plain_problem 422 (codes "urn:problem-type:no-fulfilment-possible")
        (codes "No fulfilment possible")
        (codes "No fulfilment possible for product ids: " ++ join_ids ids)

  abbrev unavailable_problem : Uuid → Option PaymentFailureCode → ProblemShape
  unavailable_problem id code = record {
    status = 502;
    type = codes "urn:problem-type:payment-provider-unavailable";
    title = codes "Payment provider unavailable";
    detail =
        codes "Payment outcome unknown"
        ++ (code_suffix code
            ++ (codes ". Order "
                ++ (print_id id
                    ++ (codes " is pending confirmation — poll GET /orders/"
                        ++ (print_id id ++ codes "; do not retry with a new Idempotency-Key.")))));
    errors = none;
    order_id = some id;
  }

  -- The branches of `buildProblem` for the application's errors.
  unfoldable pub application_problem : Error → ProblemShape
  application_problem (customer_not_found id) =
      not_found_problem (codes "Customer not found: " ++ print_id id)
  application_problem (product_not_found ids) =
      not_found_problem (codes "Product not found or inactive: " ++ join_ids ids)
  application_problem (order_not_found id) =
      not_found_problem (codes "Order not found: " ++ print_id id)
  application_problem (no_fulfilment_possible ids reason) = fulfilment_problem ids reason
  application_problem (geocoding_failed reason) =
      plain_problem 422 (codes "urn:problem-type:geocoding-failed") (codes "Geocoding failed")
        (geocoding_message reason)
  application_problem (payment_declined id code) =
      plain_problem 402 (codes "urn:problem-type:payment-declined") (codes "Payment declined")
        (codes "Payment declined" ++ code_suffix code)
  application_problem (payment_provider_unavailable id code) = unavailable_problem id code
  application_problem _ = internal_problem

  unfoldable pub build_problem : Exception → ProblemShape
  unfolding application_problem extract_validation_errors
  build_problem (application e) = application_problem e
  build_problem (bad_request messages) = record {
    status = 400;
    type = codes "urn:problem-type:invalid-payload";
    title = codes "Invalid payload";
    detail = codes "The request body or headers failed validation.";
    errors = extract_validation_errors messages;
    order_id = none;
  }
  build_problem (http_exception status name message) =
      plain_problem status (codes "about:blank") name message
  build_problem (exposed status name message) =
      plain_problem status (codes "about:blank") name message
  build_problem anything = internal_problem

  -- The body that the filter sends, and that the idempotency service stores.
  unfoldable pub problem_details : Text → Text → Exception → ProblemDetails
  unfolding build_problem
  problem_details instance_path correlation_id exception =
      let problem = build_problem exception in
      record {
        type = problem.type;
        title = problem.title;
        status = problem.status;
        detail = problem.detail;
        instance_path = instance_path;
        correlation_id = correlation_id;
        errors = problem.errors;
        order_id = problem.order_id;
      }
