-- ===== src/Samples.antt =====
-- Data that the tests share: one warehouse with two products, and one order that waits for its
-- payment.
use canals.Prelude.{ℕ, codes, [], ◌∷◌, Option, none, some, ◌==◌, ◌&&◌, if◌then◌else◌}
use canals.Prelude.Int.{pos}
use canals.Errors.{Result, ok, err}
use canals.Domain.Status.{pending_payment, unknown, PaymentStatus}
use canals.Domain.Address.{ShippingAddress}
use canals.Store.{InventoryRow, OrderRow, OrderItemRow, PaymentRow, Database}
use canals.Ports.{ChargeResult}
use canals.Allocation.Inventory.{ReserveCommand, reserve}
use canals.Orders.Settlement.{PaymentResolution}

abbrev pub shelves : ℕ → ℕ → Option InventoryRow
shelves w p =
    if w == 1 && p == 7
    then some (record { quantity_available = 10; quantity_reserved = 0; version = 0 })
    else if w == 1 && p == 8
    then some (record { quantity_available = 5; quantity_reserved = 0; version = 3 })
    else none

abbrev pub sample_address : ShippingAddress
sample_address = record {
  recipient = codes "Ana";
  line1 = codes "1 Canal";
  line2 = none;
  city = codes "Delft";
  state = none;
  postal_code = none;
  country = codes "NL";
}

abbrev pub sample_order : OrderRow
sample_order = record {
  id = 100;
  order_number = codes "CNL-2026-000001";
  customer_id = 9;
  warehouse_id = some 1;
  status = pending_payment;
  currency = codes "USD";
  total_cents = 5000;
  shipping_address = sample_address;
  shipping_location = record { longitude = pos 4360000; latitude = pos 52010000 };
  reservation_expires_at = some 900;
  confirmed_at = none;
  cancelled_at = none;
  cancellation_reason = none;
  created_at = 10;
  updated_at = 10;
}

abbrev pub sample_item : OrderItemRow
sample_item = record {
  id = 300;
  order_id = 100;
  product_id = 7;
  quantity = 2;
  product_sku_snapshot = codes "SKU-7";
  product_name_snapshot = codes "Lamp";
  unit_price_cents = 2500;
}

abbrev pub sample_payment : PaymentRow
sample_payment = record {
  id = 200;
  order_id = 100;
  attempt = 1;
  provider_payment_id = none;
  idempotency_key = record { order_id = 100; attempt = 1 };
  status = unknown;
  amount_cents = 5000;
  currency = codes "USD";
  card_last4 = none;
  card_brand = none;
  failure_code = none;
  raw_response = none;
  settled_at = none;
  created_at = 20;
  updated_at = 20;
}

abbrev pub sample_database : Database
sample_database = record {
  inventory = shelves;
  movements = [];
  orders = sample_order ∷ [];
  order_items = sample_item ∷ [];
  payments = sample_payment ∷ [];
  jobs = [];
  clock = 1000;
}

abbrev pub two_lines : ReserveCommand
two_lines = record {
  order_id = 100;
  warehouse_id = 1;
  lines = record { product_id = 7; quantity = 2 } ∷ record { product_id = 8; quantity = 1 } ∷ [];
}

abbrev pub result_or {ℓ} : {A : Type ℓ} → A → Result A → A
result_or a (ok b) = b
result_or a (err e) = a

abbrev pub reserved_database : Database
reserved_database = result_or sample_database (reserve none two_lines sample_database)

abbrev pub answer_of : PaymentStatus → ChargeResult
answer_of status = record {
  status = status;
  provider_payment_id = none;
  card_last4 = none;
  card_brand = none;
  failure_code = none;
  raw_response = none;
}

abbrev pub resolution_of : PaymentStatus → PaymentResolution
resolution_of status = record { payment_id = 200; charge_result = answer_of status }
