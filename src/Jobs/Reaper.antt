-- ===== src/Jobs/Reaper.antt =====
-- src/application/jobs/reservation-reaper.handler.ts.
use canals.Prelude.{
  ℕ, codes, List, [], ◌∷◌, Option, none, some, Bool, take, ltb, ◌==◌, ◌&&◌, not, if◌then◌else◌,
}
use canals.Errors.{Uuid, Result, ok, err}
use canals.Domain.Status.{pending_payment, same_status, captured, declined, failed}
use canals.Store.{ChargeKey, OrderRow, PaymentRow, Database}
use canals.Orders.Settlement.{PaymentResolution}
use canals.Orders.Settlement.Winner.{Attempt, confirming, failing, cancelling, attempt}
use canals.Jobs.Batch.{order_by, Services, for_each}

abbrev pub reaper_batch_size : ℕ
reaper_batch_size = 50

abbrev pub reaper_alert_after_minutes : ℕ
reaper_alert_after_minutes = 30

pub record ExpiredReservationRow : Type 0 where
  pub id : Uuid
  pub reservation_expires_at : ℕ
  pub payment_id : Option Uuid
  pub idempotency_key : Option ChargeKey

-- `WHERE order_id = o.id ORDER BY attempt DESC LIMIT 1`
abbrev pub latest_payment : Uuid → List PaymentRow → Option PaymentRow
latest_payment order_id [] = none
latest_payment order_id (p ∷ ps) =
    let rest = latest_payment order_id ps in
    if p.order_id == order_id
    then elim rest [ none ↦ some p | some q ↦ if ltb p.attempt q.attempt then some q else some p ]
    else rest

-- The order's columns and the latest payment's.
abbrev pub expired_row : Database → OrderRow → ℕ → ExpiredReservationRow
expired_row db o expires = elim (latest_payment o.id db.payments) [
  | none ↦ record {
    id = o.id;
    reservation_expires_at = expires;
    payment_id = none;
    idempotency_key = none;
  }
  | some p ↦ record {
    id = o.id;
    reservation_expires_at = expires;
    payment_id = some p.id;
    idempotency_key = some p.idempotency_key;
  }
]

-- The rows of the WHERE clause; a row that another transaction holds is skipped.
unfoldable pub expired_rows : (Uuid → Bool) → Database → List OrderRow → List ExpiredReservationRow
expired_rows locked db [] = []
expired_rows locked db (o ∷ os) =
    let rest = expired_rows locked db os in
    elim o.reservation_expires_at [
      | none ↦ rest
      | some expires ↦
          if same_status o.status pending_payment && ltb expires db.clock && not (locked o.id)
          then expired_row db o expires ∷ rest
          else rest
    ]

unfoldable pub select_expired_reservations : (Uuid → Bool) → Database → List ExpiredReservationRow
unfolding expired_rows
select_expired_reservations locked db = take reaper_batch_size (
    order_by (λ (r : ExpiredReservationRow). r.reservation_expires_at)
      (expired_rows locked db db.orders))

module _ {World : Type 0} (services : Services World) where
  -- One settlement, in its transaction.
  unfoldable pub settle_by : Uuid → Attempt → Database → Result (Unit {0}) × Database
  settle_by id a db = elim (attempt id a db) [ ok (s, db') ↦ (ok tt, db') | err e ↦ (err e, db) ]

  -- The settlement that an answer of the provider calls for; an unclear one calls for none.
  unfoldable pub settlement_for : Uuid → PaymentResolution → Option Attempt
  settlement_for id payment = elim payment.charge_result.status [
    | captured ↦ some (confirming (services.lock_of id) (some payment))
    | declined ↦ some (failing (services.lock_of id) (some payment))
    | failed ↦
        some (
          cancelling (services.lock_of id) (codes "RESERVATION_EXPIRED_NOT_CHARGED") (some payment))
    | _ ↦ none
  ]

  unfoldable pub settle_if : Uuid → Option Attempt → Database → Result (Unit {0}) × Database
  unfolding settle_by
  settle_if id none db = (ok tt, db)
  settle_if id (some a) db = settle_by id a db

  unfoldable pub cancel_never_charged :
      Uuid → Database × World → Result (Unit {0}) × (Database × World)
  unfolding settle_by
  cancel_never_charged id (db, w) =
      let (r, db') =
        settle_by id
          (cancelling (services.lock_of id) (codes "RESERVATION_EXPIRED_NO_PAYMENT") none) db in
      (r, (db', w))

  unfoldable pub resolve_charge :
      Uuid → Uuid → ChargeKey → Database × World → Result (Unit {0}) × (Database × World)
  unfolding settlement_for settle_if
  resolve_charge id payment_id key (db, w) =
      let (charge_result, w') = services.get_status key w in
      let payment : PaymentResolution = record {
        payment_id = payment_id;
        charge_result = charge_result;
      } in
      let (r, db') = settle_if id (settlement_for id payment) db in (r, (db', w'))

  -- `!row.payment_id || !row.idempotency_key`
  unfoldable pub resolve_payment_of :
      Uuid
      → Option Uuid
      → Option ChargeKey
      → Database × World
      → Result (Unit {0}) × (Database × World)
  unfolding cancel_never_charged resolve_charge
  resolve_payment_of id (some payment_id) (some key) s = resolve_charge id payment_id key s
  resolve_payment_of id _ _ s = cancel_never_charged id s

  unfoldable pub resolve_reservation :
      ExpiredReservationRow → Database × World → Result (Unit {0}) × (Database × World)
  unfolding resolve_payment_of
  resolve_reservation row s = resolve_payment_of row.id row.payment_id row.idempotency_key s

  unfoldable pub handle : (Uuid → Bool) → Database × World → Database × World
  unfolding for_each select_expired_reservations resolve_reservation
  handle locked (db, w) =
      for_each resolve_reservation (select_expired_reservations locked db) (db, w)
