-- ===== src/Store.antt =====
-- The database that the application reads and writes: the tables of
-- src/infrastructure/database/entities, as far as the modelled code uses their columns. `inventory`
-- is a function of its primary key, `movements` has the newest row (the greatest id) first, the
-- other tables are lists of rows. `clock` is the time that `now()` and `new Date()` give.
pub mod Mapper
mod Tests
use canals.Prelude.{
  ℕ, ◌≡◌, Text, List, [], ◌∷◌, Option, none, some, Bool, ◌&&◌, ◌==◌, if◌then◌else◌,
}
use canals.Prelude.Int.{ℤ}
use canals.Prelude.Rows.{find_row, save_row}
use canals.Errors.{Uuid, Result, ok, err, PaymentFailureCode}
use canals.Domain.Status.{OrderStatus, PaymentStatus}
use canals.Domain.Address.{ShippingAddress}

pub record InventoryRow : Type 0 where
  pub quantity_available : ℕ
  pub quantity_reserved : ℕ
  pub version : ℕ

pub data MovementType : Type 0 where
  reserve release commit restock adjust : MovementType

pub record Movement : Type 0 where
  pub warehouse_id : Uuid
  pub product_id : Uuid
  pub order_id : Option Uuid
  pub type : MovementType
  pub quantity_delta : ℤ
  pub available_after : ℤ
  pub reserved_after : ℤ

-- A GeoPoint: longitude first.
pub record GeoPoint : Type 0 where
  pub longitude : ℤ
  pub latitude : ℤ

pub record OrderRow : Type 0 where
  pub id : Uuid
  pub order_number : Text
  pub customer_id : Uuid
  pub warehouse_id : Option Uuid
  pub status : OrderStatus
  pub currency : Text
  pub total_cents : ℕ
  pub shipping_address : ShippingAddress
  pub shipping_location : GeoPoint
  pub reservation_expires_at : Option ℕ
  pub confirmed_at : Option ℕ
  pub cancelled_at : Option ℕ
  pub cancellation_reason : Option Text
  pub created_at : ℕ
  pub updated_at : ℕ

pub record OrderItemRow : Type 0 where
  pub id : Uuid
  pub order_id : Uuid
  pub product_id : Uuid
  pub quantity : ℕ
  pub product_sku_snapshot : Text
  pub product_name_snapshot : Text
  pub unit_price_cents : ℕ

pub data CardBrand : Type 0 where
  visa mastercard amex discover unknown : CardBrand

-- `order:<orderId>:attempt:<attempt>`, by its two parts.
pub record ChargeKey : Type 0 where
  pub order_id : Uuid
  pub attempt : ℕ

pub record PaymentRow : Type 0 where
  pub id : Uuid
  pub order_id : Uuid
  pub attempt : ℕ
  pub provider_payment_id : Option Text
  pub idempotency_key : ChargeKey
  pub status : PaymentStatus
  pub amount_cents : ℕ
  pub currency : Text
  pub card_last4 : Option Text
  pub card_brand : Option CardBrand
  pub failure_code : Option PaymentFailureCode
  pub raw_response : Option Text
  pub settled_at : Option ℕ
  pub created_at : ℕ
  pub updated_at : ℕ

-- A job in pg-boss, with the payload of order.confirmed.
pub record JobRow : Type 0 where
  pub queue : Text
  pub order_id : Uuid
  pub occurred_at : ℕ

pub record Database : Type 0 where
  pub inventory : Uuid → Uuid → Option InventoryRow
  pub movements : List Movement
  pub orders : List OrderRow
  pub order_items : List OrderItemRow
  pub payments : List PaymentRow
  pub jobs : List JobRow
  pub clock : ℕ

abbrev pub find_order : Uuid → Database → Option OrderRow
find_order id db = find_row (λ (o : OrderRow). o.id) id db.orders

abbrev pub save_order : OrderRow → Database → Database
save_order o db = record db { orders = save_row (λ (r : OrderRow). r.id) o db.orders }

-- `dataSource.transaction`: what throws is rolled back, and thrown on.
unfoldable pub transaction {ℓ} :
    {A : Type ℓ} → (Database → Result (A × Database)) → Database → Result A × Database
transaction work db = elim (work db) [ ok (a, db') ↦ (ok a, db') | err e ↦ (err e, db) ]
