-- ===== src/Jobs/Reconciliation.antt =====
-- src/application/jobs/payment-reconciliation.handler.ts.
use canals.Prelude.{
  ℕ, ◌+◌, ◌*◌, List, Option, none, some, Bool, filter, take, ltb, ◌&&◌, not, is_some,
}
use canals.Errors.{Uuid, Result}
use canals.Domain.Status.{captured, declined}
use canals.Store.{PaymentRow, Database}
use canals.Orders.Settlement.{PaymentResolution, is_open}
use canals.Orders.Settlement.Winner.{Attempt, confirming, failing}
use canals.Jobs.Batch.{order_by, Services, for_each}
use canals.Jobs.Reaper.{settle_if}

abbrev pub reconciliation_batch_size : ℕ
reconciliation_batch_size = 50

abbrev pub reconciliation_grace_minutes : ℕ
reconciliation_grace_minutes = 2

-- `created_at < now() - 2 minutes`, in milliseconds.
abbrev pub is_past_grace : ℕ → PaymentRow → Bool
is_past_grace now p = ltb (p.created_at + reconciliation_grace_minutes * 60000) now

unfoldable pub select_unsettled_payments : (Uuid → Bool) → Database → List PaymentRow
unfolding order_by is_open
select_unsettled_payments locked db = take reconciliation_batch_size (
    order_by (λ (p : PaymentRow). p.created_at)
      (filter
        (λ (p : PaymentRow).
          not (is_some p.settled_at)
          && is_open p.status
          && is_past_grace db.clock p
          && not (locked p.id))
        db.payments))

module _ {World : Type 0} (services : Services World) where
  -- FAILED and UNKNOWN are left to the reaper.
  unfoldable pub definitive_settlement : Uuid → PaymentResolution → Option Attempt
  definitive_settlement id payment = elim payment.charge_result.status [
    | captured ↦ some (confirming (services.lock_of id) (some payment))
    | declined ↦ some (failing (services.lock_of id) (some payment))
    | _ ↦ none
  ]

  unfoldable pub resolve_payment :
      PaymentRow → Database × World → Result (Unit {0}) × (Database × World)
  unfolding definitive_settlement settle_if
  resolve_payment row (db, w) =
      let (charge_result, w') = services.get_status row.idempotency_key w in
      let payment : PaymentResolution = record {
        payment_id = row.id;
        charge_result = charge_result;
      } in
      let (r, db') =
        settle_if services row.order_id (definitive_settlement row.order_id payment) db in
      (r, (db', w'))

  unfoldable pub handle : (Uuid → Bool) → Database × World → Database × World
  unfolding for_each resolve_payment
  handle locked (db, w) = for_each resolve_payment (select_unsettled_payments locked db) (db, w)
