-- ===== src/Orders/Settlement.antt =====
-- src/application/orders/order-settlement.service.ts. A settlement is one transaction: from a
-- database it gives its result and the changed database, or throws. `lock` is what taking the
-- inventory locks raises. An order that a transition mutates is returned changed.
pub mod Parts
pub mod Winner
pub mod Race
pub mod Won
pub mod Effects
pub mod Others
use canals.Prelude.{
  ℕ, Text, codes, List, [], ◌∷◌, Option, none, some, Bool, true, false, map, filter, ◌==◌,
  if◌then◌else◌,
}
use canals.Prelude.Rows.{update_row}
use canals.Errors.{Uuid, SqlState, Result, ok, err, entity_not_found, ◌>>=◌}
use canals.Domain.Status.{
  OrderStatus, pending_payment, same_status, PaymentStatus, pending, unknown,
}
use canals.Domain.Order.{Order, mark_paid, mark_payment_failed, confirm, cancel}
use canals.Ports.{ChargeResult}
use canals.Store.{OrderRow, OrderItemRow, PaymentRow, Database, find_order, save_order}
use canals.Store.Mapper.{order_to_domain, order_to_persistence}
use canals.Messaging.Publisher.{publish}
use canals.Allocation.Inventory

pub data SettlementOutcome : Type 0 where
  settled already_settled : SettlementOutcome

pub record PaymentResolution : Type 0 where
  pub payment_id : Uuid
  pub charge_result : ChargeResult

pub record SettlementResult : Type 0 where
  pub outcome : SettlementOutcome
  pub order : Order

pub record Context : Type 0 where
  pub order : Order
  pub warehouse_id : Option Uuid
  pub product_ids : List Uuid

-- `status IN ('PENDING', 'UNKNOWN')`
unfoldable pub is_open : PaymentStatus → Bool
is_open pending = true
is_open unknown = true
is_open _ = false

-- The guarded `UPDATE payments`.
unfoldable pub resolve_row : ℕ → ChargeResult → PaymentRow → PaymentRow
unfolding is_open
resolve_row now result row =
    if is_open row.status
    then record row {
      status = result.status;
      provider_payment_id = result.provider_payment_id;
      card_last4 = result.card_last4;
      card_brand = result.card_brand;
      failure_code = result.failure_code;
      raw_response = result.raw_response;
      settled_at = some now;
      updated_at = now;
    }
    else row

unfoldable pub resolve_payment : Option PaymentResolution → Database → Database
unfolding resolve_row
resolve_payment none db = db
resolve_payment (some payment) db = record db {
  payments =
      update_row (λ (p : PaymentRow). p.id) payment.payment_id
        (resolve_row db.clock payment.charge_result) db.payments;
}

find_one_by_or_fail : Uuid → Database → Result OrderRow
find_one_by_or_fail id db = elim (find_order id db) [
  | none ↦ err entity_not_found
  | some row ↦ ok row
]

unfoldable pub ordered_products : Uuid → Database → List Uuid
ordered_products id db =
    map (λ (i : OrderItemRow). i.product_id)
      (filter (λ (i : OrderItemRow). i.order_id == id) db.order_items)

abbrev pub Transition : Type 0
Transition = Context → Database → Result (Order × Database)

unfoldable pub settle_pending :
    Uuid
    → Option PaymentResolution
    → Transition
    → Order
    → Database
    → Result (SettlementResult × Database)
unfolding resolve_payment ordered_products
settle_pending id payment transition order db = do
  let resolved = resolve_payment payment db
  (order', db') ←
      transition
        (record {
          order = order;
          warehouse_id = order.warehouse_id;
          product_ids = ordered_products id resolved;
        })
        resolved
  ok (record { outcome = settled; order = order' }, db')

unfoldable pub settle_read :
    Uuid
    → Option PaymentResolution
    → Transition
    → Order
    → Database
    → Result (SettlementResult × Database)
unfolding settle_pending
settle_read id payment transition order db =
    if same_status order.status pending_payment
    then settle_pending id payment transition order db
    else ok (record { outcome = already_settled; order = order }, db)

unfoldable pub settle :
    Uuid → Option PaymentResolution → Transition → Database → Result (SettlementResult × Database)
unfolding find_one_by_or_fail settle_read
settle id payment transition db = do
  row ← find_one_by_or_fail id db
  order ← order_to_domain row
  settle_read id payment transition order db

-- A null warehouse matches no inventory row, so an inventory method finds nothing to change.
abbrev at_warehouse : Option Uuid → (Uuid → Result Database) → Database → Result Database
at_warehouse none method db = ok db
at_warehouse (some w) method db = method w

unfoldable pub commit_reservation : Option SqlState → Context → Database → Result Database
commit_reservation lock context db =
    at_warehouse context.warehouse_id
      (λ w.
        Inventory.commit lock
          (record {
            order_id = context.order.id;
            warehouse_id = w;
            product_ids = context.product_ids;
          })
          db)
      db

unfoldable pub release_reservation : Option SqlState → Context → Database → Result Database
release_reservation lock context db =
    at_warehouse context.warehouse_id
      (λ w.
        Inventory.release lock
          (record {
            order_id = context.order.id;
            warehouse_id = w;
            product_ids = context.product_ids;
          })
          db)
      db

unfoldable pub save : Order → Database → Database
save order db = save_order (order_to_persistence db.clock order) db

unfoldable pub to_confirmed : Option SqlState → Transition
unfolding commit_reservation save
to_confirmed lock context db = do
  committed ← commit_reservation lock context db
  paid ← mark_paid context.order
  confirmed ← confirm db.clock paid
  published ←
      publish (codes "order.confirmed") (record { order_id = confirmed.id; occurred_at = db.clock })
        (save confirmed committed)
  ok (confirmed, published)

unfoldable pub to_payment_failed : Option SqlState → Transition
unfolding release_reservation save
to_payment_failed lock context db = do
  released ← release_reservation lock context db
  failed ← mark_payment_failed context.order
  ok (failed, save failed released)

unfoldable pub to_cancelled : Option SqlState → Text → Transition
unfolding release_reservation save
to_cancelled lock reason context db = do
  released ← release_reservation lock context db
  cancelled ← cancel db.clock reason context.order
  ok (cancelled, save cancelled released)

unfoldable pub confirm_captured :
    Option SqlState
    → Uuid
    → Option PaymentResolution
    → Database
    → Result (SettlementResult × Database)
confirm_captured lock id payment db = settle id payment (to_confirmed lock) db

unfoldable pub fail_declined :
    Option SqlState
    → Uuid
    → Option PaymentResolution
    → Database
    → Result (SettlementResult × Database)
fail_declined lock id payment db = settle id payment (to_payment_failed lock) db

unfoldable pub cancel_unpaid :
    Option SqlState
    → Uuid
    → Text
    → Option PaymentResolution
    → Database
    → Result (SettlementResult × Database)
cancel_unpaid lock id reason payment db = settle id payment (to_cancelled lock reason) db
