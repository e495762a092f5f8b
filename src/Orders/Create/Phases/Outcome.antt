-- ===== src/Orders/Create/Phases/Outcome.antt =====
-- What the saga answers, and how that stands with the payment and the order.
use canals.Prelude.{◌≡◌, refl, ◌⊎◌, inl, inr, none, false}
use canals.Errors.{Error, Result, ok, err}
use canals.Domain.Status.{captured, same_status, pending_payment}
use canals.Store.{Database}
use canals.Orders.Settlement.{SettlementResult, already_settled, confirm_captured}
use canals.Orders.Settlement.Winner.{attempt, confirming, IsSettled, settled_loses}
use canals.Orders.Create.{
  CreateOrderCommand, ChargeOrderResult, ReserveOrderResult, CreateOrderResult, Services,
}
use canals.Orders.Create.Phases.{◌>=>◌, settle_with, settle_order}

module _ {World : Type 0} (services : Services World) (command : CreateOrderCommand) where
  -- What a settlement leads to when its outcome is not looked at: what it throws is thrown, and any
  -- result of it is answered with its order as a success.
  abbrev Unlooked :
      ReserveOrderResult
      → ChargeOrderResult
      → World
      → Result (SettlementResult × Database)
      → Database
      → Result CreateOrderResult × (Database × World)
      → Type 0
  Unlooked reserved charged w (err e) db answer = answer ≡ (err e, (db, w))
  Unlooked reserved charged w (ok (m, db')) db answer = answer ≡ (
    ok (record {
      order = m.order;
      items = reserved.items;
      allocation = reserved.allocation;
      payment = charged.payment;
      charge_result = charged.charge_result;
    }),
    (db', w),
  )

  settle_order-Unlooked :
      (reserved : ReserveOrderResult) (charged : ChargeOrderResult) (db : Database) (w : World)
      (r : Result (SettlementResult × Database))
      → charged.charge_result.status ≡ captured
      → attempt reserved.order.id (confirming services.settlement_lock none) db ≡ r
      → Unlooked reserved charged w r db (settle_order services command reserved charged (db, w))
  unfolding settle_order settle_with ◌>=>◌
  settle_order-Unlooked reserved charged db w (err e) paid t =
      rw (settle_order, paid) (rw (◌>=>◌, settle_with, t) refl)
  settle_order-Unlooked reserved charged db w (ok (m, db')) paid t =
      rw (settle_order, paid) (rw (◌>=>◌, settle_with, t) refl)

  -- The charge is captured, but the order's row is not pending any more (say, a job has cancelled it
  -- while the charge was awaited). An error that `confirm_captured` throws is thrown, with
  -- nothing changed. Else its outcome is ALREADY_SETTLED and nothing is changed, and the saga still
  -- answers a created order: the order that the settlement read, with a status that is not
  -- PENDING_PAYMENT, and the captured charge.
  pub settle_order-late :
      (reserved : ReserveOrderResult) (charged : ChargeOrderResult) (db : Database) (w : World)
      → charged.charge_result.status ≡ captured
      → IsSettled reserved.order.id db
      → ((e : Error) × (confirm_captured services.settlement_lock reserved.order.id none db ≡ err e)
          × (settle_order services command reserved charged (db, w) ≡ (err e, (db, w))))
        ⊎ ((m : SettlementResult) × (confirm_captured services.settlement_lock reserved.order.id
                none db
              ≡ ok (m, db))
            × (m.outcome ≡ already_settled)
            × (same_status m.order.status pending_payment ≡ false)
            × (settle_order services command reserved charged (db, w) ≡ (
              ok (record {
                order = m.order;
                items = reserved.items;
                allocation = reserved.allocation;
                payment = charged.payment;
                charge_result = charged.charge_result;
              }),
              (db, w),
            )))
  unfolding attempt
  settle_order-late reserved charged db w paid is =
      elim (settled_loses reserved.order.id (confirming services.settlement_lock none) db is) [
        | inl (e, t) ↦ inl (e, t, settle_order-Unlooked reserved charged db w (err e) paid t)
        | inr (m, t, late, moved) ↦
            inr (m, t, late, moved, settle_order-Unlooked reserved charged db w (ok (m, db)) paid t)
      ]
