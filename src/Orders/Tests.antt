-- ===== src/Orders/Tests.antt =====
-- Settlements, races and the saga on the sample database.
use canals.Prelude.{
  ℕ, ◌+◌, ◌≡◌, refl, ◌++◌, List, [], ◌∷◌, Option, none, some, Bool, true, false, codes, ◌⊎◌, inl,
  inr, arith,
}
use canals.Prelude.Int.{pos}
use canals.Errors.{Error, Result, ok, err, lock_not_available}
use canals.Domain.Status.{captured, declined, cancelled, same_status, pending_payment}
use canals.Domain.Address.{ShippingAddress, Coordinates}
use canals.Domain.Order.{Order}
use canals.Domain.Money.{usd}
use canals.Domain.Money.Laws.{cents}
use canals.Store.{Database, OrderRow}
use canals.Allocation.Inventory.{OrderLine}
use canals.Allocation.Inventory.Ending.{give_back, ship}
use canals.Allocation.Allocate.{AllocationResult, Candidate}
use canals.Orders.Settlement.{
  SettlementResult, confirm_captured, cancel_unpaid, settled, already_settled,
}
use canals.Orders.Settlement.Parts.{confirmation_jobs}
use canals.Orders.Settlement.Winner.{Attempt, confirming, cancelling, failing, IsSettled}
use canals.Orders.Settlement.Race.{race, HasWinner, one_winner}
use canals.Orders.Settlement.Effects.{Settles, confirm_captured-Settles, released-Settles}
use canals.Orders.Create.{
  CustomerRow, ProductRow, Catalogue, CreateOrderCommand, ChargeOrderResult, ReserveOrderResult,
  CreateOrderResult, Services, order_total,
}
use canals.Orders.Create.Total.{order_total_lem}
use canals.Orders.Create.Phases.{execute, settle_order}
use canals.Orders.Create.Phases.Outcome.{settle_order-late}
use canals.Samples.{
  sample_address, sample_order, sample_payment, sample_database, reserved_database, result_or,
  answer_of, resolution_of,
}

abbrev settlers : List Attempt
settlers =
    confirming (some lock_not_available) (some (resolution_of captured))
    ∷ cancelling none (codes "RESERVATION_EXPIRED_NO_PAYMENT") none
    ∷ confirming none (some (resolution_of captured))
    ∷ []

one_winner_example :
    (race 100 settlers reserved_database ≡ (0, reserved_database))
    ⊎ HasWinner 100 settlers reserved_database
one_winner_example = one_winner 100 settlers reserved_database

abbrev read_sample : Order
read_sample = record {
  id = 100;
  order_number = codes "CNL-2026-000001";
  customer_id = 9;
  warehouse_id = some 1;
  status = pending_payment;
  total = cents 5000 usd;
  shipping_address = sample_address;
  shipping_location = record { latitude = pos 52010000; longitude = pos 4360000 };
  reservation_expires_at = none;
  confirmed_at = none;
  cancelled_at = none;
  cancellation_reason = none;
  created_at = 10;
  updated_at = 10;
}

abbrev nothing_settled : SettlementResult × Database
nothing_settled = (record { outcome = settled; order = read_sample }, sample_database)

abbrev confirmed_run : SettlementResult × Database
confirmed_run =
    result_or nothing_settled
      (confirm_captured none 100 (some (resolution_of captured)) reserved_database)

abbrev reserved_row : OrderRow
reserved_row = record sample_order { reservation_expires_at = some 901000 }

confirmed_runs :
    confirm_captured none 100 (some (resolution_of captured)) reserved_database ≡ ok confirmed_run
unfolding canals.Orders.Settlement.settle canals.Prelude.Rows.find_row
    canals.Allocation.Inventory.reserve canals.Allocation.Inventory.reserve_line
    canals.Allocation.Inventory.post canals.Allocation.Inventory.put canals.Prelude.Rows.update_row
    canals.Store.Mapper.order_to_domain canals.Domain.Money.of canals.Domain.Money.is_currency
    canals.Domain.Address.address_of canals.Domain.Address.is_blank
    canals.Domain.Address.coordinates_of canals.Domain.Order.mark_paid
    canals.Allocation.Inventory.held canals.Allocation.Inventory.insert_movement
    canals.Allocation.Inventory.latest_movement canals.Allocation.Inventory.lock_inventory_rows
    canals.Allocation.Inventory.reserve_lines canals.Allocation.Inventory.reserve_under_lock
    canals.Allocation.Inventory.set_reservation
    canals.Allocation.Inventory.update_inventory_balances
    canals.Domain.Order.assert_valid_order_transition
    canals.Domain.Status.can_transition_order_status canals.Domain.Status.order_transitions
    canals.Orders.Settlement.is_open canals.Orders.Settlement.ordered_products
    canals.Orders.Settlement.resolve_payment canals.Orders.Settlement.resolve_row
    canals.Orders.Settlement.save canals.Orders.Settlement.settle_pending
    canals.Orders.Settlement.settle_read canals.Prelude.Int.◌+ℤ◌ canals.Prelude.Int.◌-ℤ◌
    canals.Prelude.Rows.save_row canals.Store.Mapper.order_to_persistence
    canals.Orders.Settlement.confirm_captured canals.Orders.Settlement.to_confirmed
    canals.Allocation.Inventory.commit canals.Allocation.Inventory.commit_product
    canals.Allocation.Inventory.commit_products canals.Domain.Order.confirm
    canals.Messaging.Publisher.event_routing canals.Messaging.Publisher.job_for
    canals.Messaging.Publisher.publish canals.Orders.Settlement.commit_reservation
confirmed_runs = refl

confirm_captured-Settles_example :
    Settles ship 100 1 reserved_database confirmed_run.1
    × (confirmed_run.1.jobs
        ≡ reserved_database.jobs
          ++ confirmation_jobs (record { order_id = 100; occurred_at = 1000 }))
unfolding canals.Orders.Settlement.settle canals.Prelude.Rows.find_row
    canals.Allocation.Inventory.reserve canals.Allocation.Inventory.reserve_line
    canals.Allocation.Inventory.post canals.Allocation.Inventory.put canals.Prelude.Rows.update_row
    canals.Store.Mapper.order_to_domain canals.Domain.Money.of canals.Domain.Money.is_currency
    canals.Domain.Address.address_of canals.Domain.Address.is_blank
    canals.Domain.Address.coordinates_of canals.Domain.Order.mark_paid
    canals.Allocation.Inventory.held canals.Allocation.Inventory.insert_movement
    canals.Allocation.Inventory.latest_movement canals.Allocation.Inventory.lock_inventory_rows
    canals.Allocation.Inventory.reserve_lines canals.Allocation.Inventory.reserve_under_lock
    canals.Allocation.Inventory.set_reservation
    canals.Allocation.Inventory.update_inventory_balances
    canals.Domain.Order.assert_valid_order_transition
    canals.Domain.Status.can_transition_order_status canals.Domain.Status.order_transitions
    canals.Orders.Settlement.is_open canals.Orders.Settlement.ordered_products
    canals.Orders.Settlement.resolve_payment canals.Orders.Settlement.resolve_row
    canals.Orders.Settlement.save canals.Orders.Settlement.settle_pending
    canals.Orders.Settlement.settle_read canals.Prelude.Int.◌+ℤ◌ canals.Prelude.Int.◌-ℤ◌
    canals.Prelude.Rows.save_row canals.Store.Mapper.order_to_persistence
    canals.Orders.Settlement.confirm_captured canals.Orders.Settlement.to_confirmed
    canals.Allocation.Inventory.commit canals.Allocation.Inventory.commit_product
    canals.Allocation.Inventory.commit_products canals.Domain.Order.confirm
    canals.Messaging.Publisher.event_routing canals.Messaging.Publisher.job_for
    canals.Messaging.Publisher.publish canals.Orders.Settlement.commit_reservation
confirm_captured-Settles_example =
    confirm_captured-Settles none 100 1 (some (resolution_of captured)) reserved_database
      confirmed_run.1 reserved_row confirmed_run.0 refl refl refl confirmed_runs

abbrev cancelled_run : SettlementResult × Database
cancelled_run =
    result_or nothing_settled (cancel_unpaid none 100 (codes "LATE") none reserved_database)

cancelled_runs : cancel_unpaid none 100 (codes "LATE") none reserved_database ≡ ok cancelled_run
unfolding canals.Orders.Settlement.settle canals.Prelude.Rows.find_row
    canals.Allocation.Inventory.reserve canals.Allocation.Inventory.reserve_line
    canals.Allocation.Inventory.post canals.Allocation.Inventory.put canals.Prelude.Rows.update_row
    canals.Store.Mapper.order_to_domain canals.Domain.Money.of canals.Domain.Money.is_currency
    canals.Domain.Address.address_of canals.Domain.Address.is_blank
    canals.Domain.Address.coordinates_of canals.Domain.Order.mark_paid
    canals.Allocation.Inventory.held canals.Allocation.Inventory.insert_movement
    canals.Allocation.Inventory.latest_movement canals.Allocation.Inventory.lock_inventory_rows
    canals.Allocation.Inventory.reserve_lines canals.Allocation.Inventory.reserve_under_lock
    canals.Allocation.Inventory.set_reservation
    canals.Allocation.Inventory.update_inventory_balances
    canals.Domain.Order.assert_valid_order_transition
    canals.Domain.Status.can_transition_order_status canals.Domain.Status.order_transitions
    canals.Orders.Settlement.is_open canals.Orders.Settlement.ordered_products
    canals.Orders.Settlement.resolve_payment canals.Orders.Settlement.resolve_row
    canals.Orders.Settlement.save canals.Orders.Settlement.settle_pending
    canals.Orders.Settlement.settle_read canals.Prelude.Int.◌+ℤ◌ canals.Prelude.Int.◌-ℤ◌
    canals.Prelude.Rows.save_row canals.Store.Mapper.order_to_persistence
    canals.Orders.Settlement.cancel_unpaid canals.Orders.Settlement.to_cancelled
    canals.Allocation.Inventory.release canals.Allocation.Inventory.release_product
    canals.Allocation.Inventory.release_products canals.Domain.Order.cancel
    canals.Orders.Settlement.release_reservation
cancelled_runs = refl

released-Settles_example :
    Settles give_back 100 1 reserved_database cancelled_run.1
    × (cancelled_run.1.jobs ≡ reserved_database.jobs)
unfolding canals.Orders.Settlement.settle canals.Prelude.Rows.find_row
    canals.Allocation.Inventory.reserve canals.Allocation.Inventory.reserve_line
    canals.Allocation.Inventory.post canals.Allocation.Inventory.put canals.Prelude.Rows.update_row
    canals.Store.Mapper.order_to_domain canals.Domain.Money.of canals.Domain.Money.is_currency
    canals.Domain.Address.address_of canals.Domain.Address.is_blank
    canals.Domain.Address.coordinates_of canals.Domain.Order.mark_paid
    canals.Allocation.Inventory.held canals.Allocation.Inventory.insert_movement
    canals.Allocation.Inventory.latest_movement canals.Allocation.Inventory.lock_inventory_rows
    canals.Allocation.Inventory.reserve_lines canals.Allocation.Inventory.reserve_under_lock
    canals.Allocation.Inventory.set_reservation
    canals.Allocation.Inventory.update_inventory_balances
    canals.Domain.Order.assert_valid_order_transition
    canals.Domain.Status.can_transition_order_status canals.Domain.Status.order_transitions
    canals.Orders.Settlement.is_open canals.Orders.Settlement.ordered_products
    canals.Orders.Settlement.resolve_payment canals.Orders.Settlement.resolve_row
    canals.Orders.Settlement.save canals.Orders.Settlement.settle_pending
    canals.Orders.Settlement.settle_read canals.Prelude.Int.◌+ℤ◌ canals.Prelude.Int.◌-ℤ◌
    canals.Prelude.Rows.save_row canals.Store.Mapper.order_to_persistence
    canals.Orders.Settlement.cancel_unpaid canals.Orders.Settlement.to_cancelled
    canals.Allocation.Inventory.release canals.Allocation.Inventory.release_product
    canals.Allocation.Inventory.release_products canals.Domain.Order.cancel
    canals.Orders.Settlement.release_reservation
released-Settles_example =
    released-Settles none 100 1 none reserved_database cancelled_run.1 reserved_row cancelled_run.0
      refl refl refl (codes "LATE") (inr cancelled_runs)

abbrev lamp : ProductRow
lamp = record {
  id = 7;
  sku = codes "SKU-7";
  name = codes "Lamp";
  unit_price_cents = 2500;
  is_active = true;
  is_deleted = false;
}

abbrev pub two_lamps : List OrderLine
two_lamps = record { product_id = 7; quantity = 2 } ∷ []

order_total_lem_example : order_total (lamp ∷ []) two_lamps ≡ ok (cents 5000 usd)
unfolding canals.Prelude.Rows.find_row
order_total_lem_example = order_total_lem (lamp ∷ []) two_lamps (refl, tt) (omega arith)

-- The world counts the ids and numbers that were drawn.
abbrev pub willing : Services ℕ
willing = record {
  geocode = λ address n. (ok (record { latitude = pos 52010000; longitude = pos 4360000 }), n);
  find_candidates =
      λ location lines db. record { warehouse_id = 1; name = codes "W"; distance_meters = 5 } ∷ [];
  order_number = λ n. (codes "CNL-2026-000002", n);
  new_id = λ n. (n, n + 1);
  item_id = λ order_id product_id. product_id;
  charge = λ command s. (answer_of captured, s);
  locks = λ w. none;
  settlement_lock = none;
}

abbrev two_lamps_please : CreateOrderCommand
two_lamps_please = record {
  customer_id = 9;
  shipping_address = sample_address;
  lines = two_lamps;
  card_number = codes "4242424242424242";
  idempotency_key = codes "k";
}

abbrev pub shop : Catalogue
shop = record { customers = record { id = 9; is_deleted = false } ∷ []; products = lamp ∷ [] }

abbrev pub empty_database : Database
empty_database = record sample_database { orders = []; order_items = []; payments = [] }

abbrev reserved_sample : ReserveOrderResult
reserved_sample = record {
  order = read_sample;
  items = [];
  allocation = record { order_id = 100; warehouse_id = 1; name = codes "W"; distance_meters = 5 };
}

abbrev charged_sample : ChargeOrderResult
charged_sample = record { payment = sample_payment; charge_result = answer_of captured }

abbrev no_order : CreateOrderResult
no_order = record {
  order = read_sample;
  items = [];
  allocation = reserved_sample.allocation;
  payment = sample_payment;
  charge_result = answer_of declined;
}

abbrev ran : Result CreateOrderResult × (Database × ℕ)
ran = execute willing two_lamps_please shop (empty_database, 500)

abbrev created : CreateOrderResult
created = result_or no_order ran.0

abbrev cancelled_row : OrderRow
cancelled_row = record reserved_row {
  status = cancelled;
  cancelled_at = some 1000;
  cancellation_reason = some (codes "LATE");
  created_at = 1000;
  updated_at = 1000;
}

sample-IsSettled : IsSettled 100 cancelled_run.1
unfolding canals.Orders.Settlement.settle canals.Prelude.Rows.find_row
    canals.Allocation.Inventory.reserve canals.Allocation.Inventory.reserve_line
    canals.Allocation.Inventory.post canals.Allocation.Inventory.put canals.Prelude.Rows.update_row
    canals.Store.Mapper.order_to_domain canals.Domain.Money.of canals.Domain.Money.is_currency
    canals.Domain.Address.address_of canals.Domain.Address.is_blank
    canals.Domain.Address.coordinates_of canals.Domain.Order.mark_paid
    canals.Allocation.Inventory.held canals.Allocation.Inventory.insert_movement
    canals.Allocation.Inventory.latest_movement canals.Allocation.Inventory.lock_inventory_rows
    canals.Allocation.Inventory.reserve_lines canals.Allocation.Inventory.reserve_under_lock
    canals.Allocation.Inventory.set_reservation
    canals.Allocation.Inventory.update_inventory_balances
    canals.Domain.Order.assert_valid_order_transition
    canals.Domain.Status.can_transition_order_status canals.Domain.Status.order_transitions
    canals.Orders.Settlement.is_open canals.Orders.Settlement.ordered_products
    canals.Orders.Settlement.resolve_payment canals.Orders.Settlement.resolve_row
    canals.Orders.Settlement.save canals.Orders.Settlement.settle_pending
    canals.Orders.Settlement.settle_read canals.Prelude.Int.◌+ℤ◌ canals.Prelude.Int.◌-ℤ◌
    canals.Prelude.Rows.save_row canals.Store.Mapper.order_to_persistence
    canals.Orders.Settlement.cancel_unpaid canals.Orders.Settlement.to_cancelled
    canals.Allocation.Inventory.release canals.Allocation.Inventory.release_product
    canals.Allocation.Inventory.release_products canals.Domain.Order.cancel
    canals.Orders.Settlement.release_reservation
sample-IsSettled = (cancelled_row, refl, refl)

settle_order-late_example :
    ((e : Error) × (confirm_captured willing.settlement_lock reserved_sample.order.id none
          cancelled_run.1
        ≡ err e)
      × (settle_order willing two_lamps_please reserved_sample charged_sample (cancelled_run.1, 0)
          ≡ (err e, (cancelled_run.1, 0))))
    ⊎ ((m : SettlementResult) × (confirm_captured willing.settlement_lock reserved_sample.order.id
            none cancelled_run.1
          ≡ ok (m, cancelled_run.1))
        × (m.outcome ≡ already_settled)
        × (same_status m.order.status pending_payment ≡ false)
        × (settle_order willing two_lamps_please reserved_sample charged_sample (cancelled_run.1, 0)
            ≡ (
              ok (record {
                order = m.order;
                items = reserved_sample.items;
                allocation = reserved_sample.allocation;
                payment = charged_sample.payment;
                charge_result = charged_sample.charge_result;
              }),
              (cancelled_run.1, 0),
            )))
settle_order-late_example =
    settle_order-late willing two_lamps_please reserved_sample charged_sample cancelled_run.1 0 refl
      sample-IsSettled
