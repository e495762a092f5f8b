-- ===== src/Orders/Create.antt =====
-- src/application/orders/create-order.use-case.ts: the saga of POST /orders. `World` is what the
-- geocoder, the order number's sequence, `randomUUID` and the payment gateway read and change; other
-- transactions may commit while a charge is awaited, so `charge` is given the database as well.
pub mod Phases
pub mod Total
use canals.Prelude.{
  ℕ, Text, codes, List, [], ◌∷◌, ◌++◌, Option, none, some, Bool, true, false, map, filter, contains,
  not, is_some, if◌then◌else◌, ◌==◌, ◌&&◌,
}
use canals.Prelude.Double.{whole}
use canals.Prelude.Int.{pos}
use canals.Prelude.Rows.{find_row, save_row}
use canals.Errors.{
  Uuid, SqlState, Result, ok, err, guard, customer_not_found, product_not_found, payment_declined,
  payment_provider_unavailable, type_error, ◌>>=◌, ◌>>◌,
}
use canals.Domain.Status.{PaymentStatus, pending_payment, pending, captured, declined}
use canals.Domain.Money
use canals.Domain.Money.{Money, usd, none_yet}
use canals.Domain.Address.{ShippingAddress, address_of, Coordinates}
use canals.Domain.Order.{Order, OrderItem, order_item}
use canals.Store.{OrderItemRow, ChargeKey, PaymentRow, Database, save_order}
use canals.Store.Mapper.{order_to_persistence, order_item_to_persistence}
use canals.Ports.{ChargeCommand, ChargeResult}
use canals.Allocation.Inventory.{OrderLine, product_ids_of}
use canals.Allocation.Allocate
use canals.Allocation.Allocate.{AllocationResult, Candidate, OnBeforeReserve}
use canals.Orders.Settlement.{SettlementResult}
use canals.Orders.Settlement.Winner.{Attempt, confirming, failing, attempt}

pub record CustomerRow : Type 0 where
  pub id : Uuid
  pub is_deleted : Bool

pub record ProductRow : Type 0 where
  pub id : Uuid
  pub sku : Text
  pub name : Text
  pub unit_price_cents : ℕ
  pub is_active : Bool
  pub is_deleted : Bool

-- The tables that the saga only reads.
pub record Catalogue : Type 0 where
  pub customers : List CustomerRow
  pub products : List ProductRow

pub record CreateOrderCommand : Type 0 where
  pub customer_id : Uuid
  pub shipping_address : ShippingAddress
  pub lines : List OrderLine
  pub card_number : Text
  pub idempotency_key : Text

pub record ChargeOrderResult : Type 0 where
  pub payment : PaymentRow
  pub charge_result : ChargeResult

pub record ReserveOrderResult : Type 0 where
  pub order : Order
  pub items : List OrderItem
  pub allocation : AllocationResult

pub record CreateOrderResult : Type 0 where
  pub order : Order
  pub items : List OrderItem
  pub allocation : AllocationResult
  pub payment : PaymentRow
  pub charge_result : ChargeResult

-- What the saga calls: `locks` is what taking the locks of a warehouse's rows raises at each
-- warehouse, `item_id` gives the ids of the order's items in their order.
pub record Services (World : Type 0) : Type 0 where
  pub geocode : ShippingAddress → World → Result Coordinates × World
  pub find_candidates : Coordinates → List OrderLine → Database → List Candidate
  pub order_number : World → Text × World
  pub new_id : World → Uuid × World
  pub item_id : Uuid → Uuid → Uuid
  pub charge : ChargeCommand → Database × World → ChargeResult × (Database × World)
  pub locks : Uuid → Option SqlState
  pub settlement_lock : Option SqlState

unfoldable pub is_definitive_outcome : PaymentStatus → Bool
is_definitive_outcome captured = true
is_definitive_outcome declined = true
is_definitive_outcome _ = false

abbrev pub first_payment_attempt : ℕ
first_payment_attempt = 1

unfoldable pub build_charge_idempotency_key : Uuid → ℕ → ChargeKey
build_charge_idempotency_key order_id attempt = record { order_id = order_id; attempt = attempt }

-- The rows that `In(ids)`, `isActive` and `deletedAt IS NULL` select.
abbrev pub products_for : List Uuid → List ProductRow → List ProductRow
products_for ids products =
    filter (λ (p : ProductRow). contains ids p.id && (p.is_active && not p.is_deleted)) products

abbrev pub find_product : Uuid → List ProductRow → Option ProductRow
find_product id products = find_row (λ (p : ProductRow). p.id) id products

abbrev pub missing_in : List ProductRow → List Uuid → List Uuid
missing_in found ids = filter (λ id. not (is_some (find_product id found))) ids

abbrev is_empty : List Uuid → Bool
is_empty [] = true
is_empty (_ ∷ _) = false

unfoldable pub resolve_customer_and_products :
    CreateOrderCommand → Catalogue → Result (List ProductRow)
resolve_customer_and_products command catalogue = do
  guard
      (is_some (
        find_row (λ (c : CustomerRow). c.id) command.customer_id
          (filter (λ (c : CustomerRow). not c.is_deleted) catalogue.customers)))
      (customer_not_found command.customer_id)
  let ids = product_ids_of command.lines
  let found = products_for ids catalogue.products
  guard (is_empty (missing_in found ids)) (product_not_found (missing_in found ids))
  ok found

-- `productById.get(id)!`
abbrev pub get_product : List ProductRow → Uuid → Result ProductRow
get_product products id = elim (find_product id products) [ none ↦ err type_error | some p ↦ ok p ]

-- The `reduce` over the lines, from a sum.
unfoldable pub total_from : List ProductRow → Money → List OrderLine → Result Money
total_from products sum [] = ok sum
total_from products sum (line ∷ lines) = do
  product ← get_product products line.product_id
  price ← Money.of (whole (pos product.unit_price_cents)) usd
  line_total ← Money.multiply price (whole (pos line.quantity))
  next ← Money.add sum line_total
  total_from products next lines

unfoldable pub order_total : List ProductRow → List OrderLine → Result Money
unfolding total_from
order_total products lines = none_yet >>= λ sum. total_from products sum lines

unfoldable pub item_of : (Uuid → Uuid) → ℕ → List ProductRow → Uuid → OrderLine → Result OrderItem
item_of item_id now products order_id line = do
  product ← get_product products line.product_id
  price ← Money.of (whole (pos product.unit_price_cents)) usd
  order_item (record {
    id = item_id line.product_id;
    order_id = order_id;
    product_id = line.product_id;
    quantity = line.quantity;
    product_sku_snapshot = product.sku;
    product_name_snapshot = product.name;
    unit_price = price;
    created_at = now;
  })

unfoldable pub items_of :
    (Uuid → Uuid) → ℕ → List ProductRow → Uuid → List OrderLine → Result (List OrderItem)
unfolding item_of
items_of item_id now products order_id [] = ok []
items_of item_id now products order_id (line ∷ lines) = do
  item ← item_of item_id now products order_id line
  items ← items_of item_id now products order_id lines
  ok (item ∷ items)

-- The order of Phase 1.
unfoldable pub new_order :
    CreateOrderCommand → Text → Money → ShippingAddress → Coordinates → ℕ → Uuid → Uuid → Order
new_order command order_number total address location now order_id warehouse_id = record {
  id = order_id;
  order_number = order_number;
  customer_id = command.customer_id;
  warehouse_id = some warehouse_id;
  status = pending_payment;
  total = total;
  shipping_address = address;
  shipping_location = location;
  reservation_expires_at = none;
  confirmed_at = none;
  cancelled_at = none;
  cancellation_reason = none;
  created_at = now;
  updated_at = now;
}

-- `onBeforeReserve`: the order and its items are inserted.
unfoldable pub insert_order :
    (Uuid → Uuid → Uuid)
    → List ProductRow
    → List OrderLine
    → (Uuid → Uuid → Order)
    → OnBeforeReserve
unfolding order_to_persistence order_item_to_persistence items_of
insert_order item_id products lines order_at order_id warehouse_id db = do
  let saved = save_order (order_to_persistence db.clock (order_at order_id warehouse_id)) db
  items ← items_of (item_id order_id) db.clock products order_id lines
  ok (record saved { order_items = saved.order_items ++ map order_item_to_persistence items })

-- `reservedItems`, which is empty until the callback has set it.
abbrev pub items_or_none : Result (List OrderItem) → List OrderItem
items_or_none (err e) = []
items_or_none (ok items) = items

abbrev pub save_payment : PaymentRow → Database → Database
save_payment p db = record db { payments = save_row (λ (r : PaymentRow). r.id) p db.payments }
