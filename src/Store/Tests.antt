-- ===== src/Store/Tests.antt =====
-- The mapper on one row.
use canals.Prelude.{◌≡◌, refl, none, some, codes}
use canals.Prelude.Int.{pos}
use canals.Domain.Money.Laws.{cents}
use canals.Domain.Order.{Order}
use canals.Store.Mapper.{
  order_to_domain, order_to_persistence, order_to_persistence-order_to_domain,
}
use canals.Samples.{sample_order, sample_address}

abbrev read_order : Order
read_order = record {
  id = 100;
  order_number = codes "CNL-2026-000001";
  customer_id = 9;
  warehouse_id = some 1;
  status = sample_order.status;
  total = cents 5000 (codes "USD");
  shipping_address = sample_address;
  shipping_location = record { latitude = pos 52010000; longitude = pos 4360000 };
  reservation_expires_at = some 900;
  confirmed_at = none;
  cancelled_at = none;
  cancellation_reason = none;
  created_at = 10;
  updated_at = 10;
}

order_to_persistence-order_to_domain_example :
    order_to_persistence 500 read_order ≡ record sample_order { created_at = 500; updated_at = 500 }
unfolding order_to_domain canals.Domain.Money.of canals.Domain.Money.is_currency
    canals.Domain.Address.address_of canals.Domain.Address.is_blank
    canals.Domain.Address.coordinates_of
order_to_persistence-order_to_domain_example =
    order_to_persistence-order_to_domain 500 sample_order read_order refl
