-- ===== src/Domain/Order.antt =====
-- src/domain/entities/order.ts and order-item.ts. A mutating method returns the new order; `Date`s
-- are milliseconds, and `new Date()` is the argument `now`.
pub mod Laws
use canals.Prelude.{ℕ, Text, Option, none, some, Bool, not, ltb}
use canals.Prelude.Double.{whole}
use canals.Prelude.Int.{ℤ, pos, negsuc}
use canals.Errors.{Uuid, Result, ok, err, illegal_transition, not_a_quantity, guard, ◌>>=◌, ◌>>◌}
use canals.Domain.Status.{
  OrderStatus, paid, payment_failed, confirmed, cancelled, can_transition_order_status,
}
use canals.Domain.Money
use canals.Domain.Money.{Money}
use canals.Domain.Address.{ShippingAddress, Coordinates}

pub record Order : Type 0 where
  pub id : Uuid
  pub order_number : Text
  pub customer_id : Uuid
  pub warehouse_id : Option Uuid
  pub status : OrderStatus
  pub total : Money
  pub shipping_address : ShippingAddress
  pub shipping_location : Coordinates
  pub reservation_expires_at : Option ℕ
  pub confirmed_at : Option ℕ
  pub cancelled_at : Option ℕ
  pub cancellation_reason : Option Text
  pub created_at : ℕ
  pub updated_at : ℕ

unfoldable pub assert_valid_order_transition : OrderStatus → OrderStatus → Result (Unit {0})
unfolding can_transition_order_status
assert_valid_order_transition from to =
    guard (can_transition_order_status from to) (illegal_transition from to)

unfoldable pub mark_paid : Order → Result Order
unfolding assert_valid_order_transition
mark_paid o = do assert_valid_order_transition o.status paid; ok (record o { status = paid })

unfoldable pub mark_payment_failed : Order → Result Order
unfolding assert_valid_order_transition
mark_payment_failed o = do
  assert_valid_order_transition o.status payment_failed
  ok (record o { status = payment_failed })

unfoldable pub confirm : ℕ → Order → Result Order
unfolding assert_valid_order_transition
confirm now o = do
  assert_valid_order_transition o.status confirmed
  ok (record o { status = confirmed; confirmed_at = some now })

unfoldable pub cancel : ℕ → Text → Order → Result Order
unfolding assert_valid_order_transition
cancel now reason o = do
  assert_valid_order_transition o.status cancelled
  ok (record o { status = cancelled; cancelled_at = some now; cancellation_reason = some reason })

pub record OrderItem : Type 0 where
  pub id : Uuid
  pub order_id : Uuid
  pub product_id : Uuid
  pub quantity : ℕ
  pub product_sku_snapshot : Text
  pub product_name_snapshot : Text
  pub unit_price : Money
  pub created_at : ℕ

-- The constructor: it throws unless the quantity is positive.
unfoldable pub order_item : OrderItem → Result OrderItem
order_item props = do guard (ltb 0 props.quantity) not_a_quantity; ok props

-- `getLineTotal`
unfoldable pub get_line_total : OrderItem → Result Money
get_line_total item = Money.multiply item.unit_price (whole (pos item.quantity))
