-- ===== src/Http/OrderResponse.antt =====
-- src/infrastructure/http/dto/order-response.dto.ts with dto/helpers/money-format.helper.ts and
-- distance-format.helper.ts. Amounts are natural numbers of cents, for which `cents / 100` to two
-- decimals is exact; `kilometers_of` and `miles_of` are the roundings of a distance, which the source
-- computes in binary floating point.
pub mod Dollars
use canals.Prelude.{ℕ, Text, codes, List, map, ◌++◌, ◌/◌, ◌%◌}
use canals.Errors.{Uuid}
use canals.Domain.Status.{OrderStatus, PaymentStatus}
use canals.Domain.Order.{Order, OrderItem}
use canals.Http.OrderResponse.Dollars.{format_cents_as_dollars}

pub record DistanceBreakdown : Type 0 where
  pub meters : ℕ
  pub kilometers : ℕ
  pub miles : ℕ

pub record OrderResponseWarehouse : Type 0 where
  pub id : Uuid
  pub name : Text
  pub distance : DistanceBreakdown

pub record WarehouseAllocationInfo : Type 0 where
  pub id : Uuid
  pub name : Text
  pub distance_meters : ℕ

pub record OrderResponseItem : Type 0 where
  pub product_id : Uuid
  pub sku : Text
  pub name : Text
  pub quantity : ℕ
  pub unit_price_cents : ℕ
  pub unit_price_dollars : Text

pub record OrderResponse : Type 0 where
  pub id : Uuid
  pub order_number : Text
  pub status : OrderStatus
  pub warehouse : OrderResponseWarehouse
  pub items : List OrderResponseItem
  pub total_cents : ℕ
  pub total_dollars : Text
  pub currency : Text
  pub payment_status : PaymentStatus

pub record BuildOrderResponseParams : Type 0 where
  pub order : Order
  pub items : List OrderItem
  pub warehouse : WarehouseAllocationInfo
  pub payment_status : PaymentStatus

abbrev pub response_item : OrderItem → OrderResponseItem
response_item item = record {
  product_id = item.product_id;
  sku = item.product_sku_snapshot;
  name = item.product_name_snapshot;
  quantity = item.quantity;
  unit_price_cents = item.unit_price.amount_cents;
  unit_price_dollars = format_cents_as_dollars item.unit_price.amount_cents;
}

module _ (kilometers_of miles_of : ℕ → ℕ) where
  abbrev pub format_distance : ℕ → DistanceBreakdown
  format_distance meters = record {
    meters = meters;
    kilometers = kilometers_of meters;
    miles = miles_of meters;
  }

  unfoldable pub to_order_response : BuildOrderResponseParams → OrderResponse
  to_order_response params =
      let order = params.order in
      record {
        id = order.id;
        order_number = order.order_number;
        status = order.status;
        warehouse = record {
          id = params.warehouse.id;
          name = params.warehouse.name;
          distance = format_distance params.warehouse.distance_meters;
        };
        items = map response_item params.items;
        total_cents = order.total.amount_cents;
        total_dollars = format_cents_as_dollars order.total.amount_cents;
        currency = order.total.currency;
        payment_status = params.payment_status;
      }
