-- ===== src/Errors.antt =====
-- What the application throws, as values: the error classes of
-- src/application/allocation/errors.ts, src/application/orders/create-order.errors.ts and
-- src/domain/ports/geocoding-errors.ts, the plain `Error`s of src/domain, and what the database
-- driver raises. A message is left out where it is made of the fields alone.
use canals.Prelude.{ℕ, ◌≡◌, refl, Text, List, Option, Bool, true, false}
use canals.Domain.Status.{OrderStatus}

-- An identifier: the program only compares it (a UUID, written as its 128-bit number).
abbrev pub Uuid : Type 0
Uuid = ℕ

-- SQLSTATE codes: 55P03, 23514, 23505, 23502, and any other.
pub data SqlState : Type 0 where
  lock_not_available check_violation unique_violation not_null_violation : SqlState
  other_state : ℕ → SqlState

pub data NoFulfilmentPossibleReason : Type 0 where
  no_candidates reservation_race_lost : NoFulfilmentPossibleReason

pub data GeocodingFailureReason : Type 0 where
  unknown_address provider_unavailable : GeocodingFailureReason

-- PAYMENT_FAILURE_CODES
pub data PaymentFailureCode : Type 0 where
  card_declined timeout provider_error connection_refused network_error circuit_open :
      PaymentFailureCode
  invalid_request not_found : PaymentFailureCode

-- The fields that `ShippingAddress.of` requires.
pub data AddressField : Type 0 where
  recipient line1 city country : AddressField

pub data Error : Type 0 where
  illegal_transition : OrderStatus → OrderStatus → Error
  not_an_amount : Error
  not_a_currency : Text → Error
  mixed_currencies : Text → Text → Error
  not_a_quantity : Error
  not_a_latitude not_a_longitude : Error
  address_field_required : AddressField → Error
  insufficient_stock : List Uuid → Error
  no_fulfilment_possible : List Uuid → NoFulfilmentPossibleReason → Error
  customer_not_found : Uuid → Error
  product_not_found : List Uuid → Error
  payment_declined : Uuid → Option PaymentFailureCode → Error
  payment_provider_unavailable : Uuid → Option PaymentFailureCode → Error
  geocoding_failed : GeocodingFailureReason → Error
  order_not_found : Uuid → Error
  unrouted_event : Text → Error
  query_failed : SqlState → Error
  entity_not_found : Error
  type_error : Error

-- What a call gives: a value, or what it throws.
pub data Result {ℓ} (Value : Type ℓ) : Type ℓ where
  err : Error → Result Value
  ok : Value → Result Value

abbrev pub is_ok {ℓ} : {Value : Type ℓ} → Result Value → Bool
is_ok (err thrown) = false
is_ok (ok value) = true

-- `if (!test) throw e`
abbrev pub guard : (test : Bool) (thrown : Error) → Result (Unit {0})
guard false thrown = err thrown
guard true thrown = ok tt

-- What follows a call is not run when the call throws.
infixl 5 ◌>>=◌
abbrev pub ◌>>=◌ {ℓ ℓ'} :
    {Value : Type ℓ} {Next : Type ℓ'} → Result Value → (Value → Result Next) → Result Next
err thrown >>= next = err thrown
ok value >>= next = next value

infixl 5 ◌>>◌
abbrev pub ◌>>◌ {ℓ} : {Next : Type ℓ} (first : Result (Unit {0})) (next : Result Next) → Result Next
first >> next = first >>= λ _. next

pub ok-injective {ℓ} : {Value : Type ℓ} {a b : Value} → ok a ≡ ok b → a ≡ b
ok-injective same = cc

pub ok_of_is_ok {ℓ} :
    {Value : Type ℓ} (call : Result Value) → is_ok call ≡ true → (value : Value) × (call ≡ ok value)
ok_of_is_ok (err thrown) h = cc
ok_of_is_ok (ok value) h = (value, refl)

-- A sequence that gives a value has had one from its first call.
pub >>=-eq-ok {ℓ ℓ'} :
    {Value : Type ℓ} {Next : Type ℓ'} (call : Result Value) (next : Value → Result Next)
    {last : Next}
    → (call >>= next) ≡ ok last
    → (value : Value) × (call ≡ ok value) × (next value ≡ ok last)
>>=-eq-ok (err thrown) next h = cc
>>=-eq-ok (ok value) next h = (value, refl, h)
