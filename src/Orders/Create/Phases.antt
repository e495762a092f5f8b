-- ===== src/Orders/Create/Phases.antt =====
-- src/application/orders/create-order.use-case.ts: the three phases and `execute`.
pub mod Outcome
use canals.Prelude.{ℕ, Text, codes, List, [], ◌∷◌, ◌++◌, Option, none, some, Bool, if◌then◌else◌}
use canals.Errors.{Uuid, Result, ok, err, payment_declined, payment_provider_unavailable}
use canals.Domain.Status.{PaymentStatus, pending, captured, declined}
use canals.Domain.Address.{address_of, ShippingAddress, Coordinates}
use canals.Domain.Order.{Order}
use canals.Domain.Money.{Money}
use canals.Store.{ChargeKey, PaymentRow, Database}
use canals.Ports.{ChargeResult}
use canals.Allocation.Allocate
use canals.Allocation.Allocate.{AllocationResult}
use canals.Orders.Settlement.{SettlementResult}
use canals.Orders.Settlement.Winner.{Attempt, confirming, failing, attempt}
use canals.Orders.Create.{
  Catalogue, ProductRow, CreateOrderCommand, ChargeOrderResult, ReserveOrderResult,
  CreateOrderResult, Services, is_definitive_outcome, first_payment_attempt,
  build_charge_idempotency_key, resolve_customer_and_products, order_total, new_order, insert_order,
  items_of, items_or_none, save_payment,
}

-- What throws ends the saga, and what was committed before stays.
infixl 5 ◌>=>◌
unfoldable pub ◌>=>◌ {ℓ} :
    {A B : Type 0} {S : Type ℓ} → Result A × S → (A → S → Result B × S) → Result B × S
(ok a, s) >=> f = f a s
(err e, s) >=> f = (err e, s)

module _ {World : Type 0} (services : Services World) (command : CreateOrderCommand) where
  -- What is settled before the failover loop: the validated address, its place and the number.
  pub record Draft : Type 0 where
    pub address : ShippingAddress
    pub location : Coordinates
    pub order_number : Text
    pub total : Money

  unfoldable pub draft_order :
      List ProductRow → Database × World → Result Draft × (Database × World)
  unfolding order_total
  draft_order products (db, w) = elim (address_of command.shipping_address) [
    | err e ↦ (err e, (db, w))
    | ok address ↦
        let (located, w1) = services.geocode address w in
        elim located [
          | err e ↦ (err e, (db, w1))
          | ok location ↦
              let (order_number, w2) = services.order_number w1 in
              elim (order_total products command.lines) [
                | err e ↦ (err e, (db, w2))
                | ok total ↦ (
                  ok (record {
                    address = address;
                    location = location;
                    order_number = order_number;
                    total = total;
                  }),
                  (db, w2),
                )
              ]
        ]
  ]

  abbrev pub order_at : Draft → ℕ → Uuid → Uuid → Order
  order_at draft now order_id warehouse_id =
      new_order command draft.order_number draft.total draft.address draft.location now order_id
        warehouse_id

  unfoldable pub allocate :
      List ProductRow → Draft → Database × World → Result ReserveOrderResult × (Database × World)
  unfolding new_order insert_order items_of
  allocate products draft (db, w) =
      let (order_id, w') = services.new_id w in
      let (allocated, db') =
        Allocate.execute services.locks
          (insert_order services.item_id products command.lines (order_at draft db.clock)) order_id
          command.lines (services.find_candidates draft.location command.lines db) db in
      elim allocated [
        | err e ↦ (err e, (db', w'))
        | ok allocation ↦ (
          ok (record {
            order = order_at draft db.clock order_id allocation.warehouse_id;
            items =
                items_or_none
                  (items_of (services.item_id order_id) db.clock products order_id command.lines);
            allocation = allocation;
          }),
          (db', w'),
        )
      ]

  unfoldable pub reserve_order :
      List ProductRow → Database × World → Result ReserveOrderResult × (Database × World)
  unfolding draft_order allocate ◌>=>◌
  reserve_order products s = draft_order products s >=> λ draft. allocate products draft

  abbrev pub initial_payment : Uuid → Order → ℕ → PaymentRow
  initial_payment id order now = record {
    id = id;
    order_id = order.id;
    attempt = first_payment_attempt;
    provider_payment_id = none;
    idempotency_key = build_charge_idempotency_key order.id first_payment_attempt;
    status = pending;
    amount_cents = order.total.amount_cents;
    currency = order.total.currency;
    card_last4 = none;
    card_brand = none;
    failure_code = none;
    raw_response = none;
    settled_at = none;
    created_at = now;
    updated_at = now;
  }

  abbrev pub charged_payment : PaymentRow → ChargeResult → ℕ → PaymentRow
  charged_payment pending_payment result now = record pending_payment {
    status = result.status;
    provider_payment_id = result.provider_payment_id;
    card_last4 = result.card_last4;
    card_brand = result.card_brand;
    failure_code = result.failure_code;
    raw_response = result.raw_response;
    settled_at = if is_definitive_outcome result.status then some now else none;
    updated_at = now;
  }

  unfoldable pub charge_order :
      Order → Database × World → Result ChargeOrderResult × (Database × World)
  unfolding is_definitive_outcome build_charge_idempotency_key
  charge_order order (db, w) =
      let (payment_id, w1) = services.new_id w in
      let pending_payment = initial_payment payment_id order db.clock in
      let (charge_result, (db2, w2)) =
        services.charge
          (record {
            card_number = command.card_number;
            amount_minor = order.total.amount_cents;
            currency = order.total.currency;
            description = codes "Order " ++ order.order_number;
            idempotency_key = build_charge_idempotency_key order.id first_payment_attempt;
          })
          (save_payment pending_payment db, w1) in
      let payment = charged_payment pending_payment charge_result db2.clock in
      (
        ok (record { payment = payment; charge_result = charge_result }),
        (save_payment payment db2, w2),
      )

  -- A settlement in its transaction.
  unfoldable pub settle_with :
      Uuid → Attempt → Database × World → Result SettlementResult × (Database × World)
  settle_with id a (db, w) = elim (attempt id a db) [
    | ok (s, db') ↦ (ok s, (db', w))
    | err e ↦ (err e, (db, w))
  ]

  abbrev settle_status :
      ReserveOrderResult
      → ChargeOrderResult
      → PaymentStatus
      → Database × World
      → Result CreateOrderResult × (Database × World)
  settle_status reserved charged captured s =
      settle_with reserved.order.id (confirming services.settlement_lock none) s
      >=> λ settlement s'. (
        ok (record {
          order = settlement.order;
          items = reserved.items;
          allocation = reserved.allocation;
          payment = charged.payment;
          charge_result = charged.charge_result;
        }),
        s',
      )
  settle_status reserved charged declined s =
      settle_with reserved.order.id (failing services.settlement_lock none) s >=> λ settlement s'.
      (err (payment_declined reserved.order.id charged.charge_result.failure_code), s')
  settle_status reserved charged _ s =
      (err (payment_provider_unavailable reserved.order.id charged.charge_result.failure_code), s)

  unfoldable pub settle_order :
      ReserveOrderResult
      → ChargeOrderResult
      → Database × World
      → Result CreateOrderResult × (Database × World)
  unfolding settle_with ◌>=>◌
  settle_order reserved charged s = settle_status reserved charged charged.charge_result.status s

  unfoldable pub execute :
      Catalogue → Database × World → Result CreateOrderResult × (Database × World)
  unfolding ◌>=>◌
  execute catalogue s = (resolve_customer_and_products command catalogue, s) >=> λ products s1.
      reserve_order products s1 >=> λ reserved s2.
      charge_order reserved.order s2 >=> λ charged s3. settle_order reserved charged s3
