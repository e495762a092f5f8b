-- ===== src/Store/Mapper.antt =====
-- src/infrastructure/database/mappers/order.mapper.ts. `now` is the time of `new Date()`.
use canals.Prelude.{ℕ, ◌≡◌, arith}
use canals.Prelude.Double.{whole}
use canals.Prelude.Int.{pos}
use canals.Errors.{Result, ok, ◌>>=◌}
use canals.Domain.Money
use canals.Domain.Address.{address_of, coordinates_of}
use canals.Domain.Order.{Order, OrderItem}
use canals.Store.{OrderRow, OrderItemRow}

unfoldable pub order_to_domain : OrderRow → Result Order
order_to_domain entity = do
  total ← Money.of (whole (pos entity.total_cents)) entity.currency
  shipping_address ← address_of entity.shipping_address
  shipping_location ←
      coordinates_of entity.shipping_location.latitude entity.shipping_location.longitude
  ok (record {
    id = entity.id;
    order_number = entity.order_number;
    customer_id = entity.customer_id;
    warehouse_id = entity.warehouse_id;
    status = entity.status;
    total = total;
    shipping_address = shipping_address;
    shipping_location = shipping_location;
    reservation_expires_at = entity.reservation_expires_at;
    confirmed_at = entity.confirmed_at;
    cancelled_at = entity.cancelled_at;
    cancellation_reason = entity.cancellation_reason;
    created_at = entity.created_at;
    updated_at = entity.updated_at;
  })

unfoldable pub order_to_persistence : ℕ → Order → OrderRow
order_to_persistence now order = record {
  id = order.id;
  order_number = order.order_number;
  customer_id = order.customer_id;
  warehouse_id = order.warehouse_id;
  status = order.status;
  currency = order.total.currency;
  total_cents = order.total.amount_cents;
  shipping_address = order.shipping_address;
  shipping_location = record {
    longitude = order.shipping_location.longitude;
    latitude = order.shipping_location.latitude;
  };
  reservation_expires_at = order.reservation_expires_at;
  confirmed_at = order.confirmed_at;
  cancelled_at = order.cancelled_at;
  cancellation_reason = order.cancellation_reason;
  created_at = now;
  updated_at = now;
}

unfoldable pub order_item_to_persistence : OrderItem → OrderItemRow
order_item_to_persistence item = record {
  id = item.id;
  order_id = item.order_id;
  product_id = item.product_id;
  quantity = item.quantity;
  product_sku_snapshot = item.product_sku_snapshot;
  product_name_snapshot = item.product_name_snapshot;
  unit_price_cents = item.unit_price.amount_cents;
}

-- Reading a row and writing the order back at a time `now` changes nothing in the row except that
-- both its times become `now`: the time at which the order was created is overwritten.
pub order_to_persistence-order_to_domain :
    (now : ℕ) (row : OrderRow) (order : Order)
    → order_to_domain row ≡ ok order
    → order_to_persistence now order ≡ record row { created_at = now; updated_at = now }
unfolding order_to_domain order_to_persistence Money.of address_of coordinates_of
order_to_persistence-order_to_domain now row order h = ground arith
