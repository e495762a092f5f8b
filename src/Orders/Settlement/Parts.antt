-- ===== src/Orders/Settlement/Parts.antt =====
-- What each of the three transitions is made of, read off a finished run.
use canals.Prelude.{ℕ, ◌≡◌, refl, Text, codes, List, [], ◌∷◌, ◌++◌, Option, arith, map}
use canals.Errors.{SqlState, Result, ok, >>=-eq-ok, ◌>>=◌}
use canals.Domain.Status.{
  OrderStatus, pending_payment, confirmed, payment_failed, cancelled, can_transition_order_status,
}
use canals.Domain.Order.{Order, mark_paid, mark_payment_failed, confirm, cancel}
use canals.Store.{Database, JobRow}
use canals.Messaging.Publisher.{publish, job_for, OrderConfirmedPayload}
use canals.Orders.Settlement.{
  Context, to_confirmed, to_payment_failed, to_cancelled, save, commit_reservation,
  release_reservation,
}

-- The jobs of one order.confirmed.
abbrev pub confirmation_jobs : OrderConfirmedPayload → List JobRow
confirmation_jobs payload =
    map (job_for payload)
      (codes "shipment.create" ∷ codes "customer.notify" ∷ codes "analytics.record" ∷ [])

publish-confirmed :
    (payload : OrderConfirmedPayload) (db : Database)
    → publish (codes "order.confirmed") payload db
      ≡ ok (record db { jobs = db.jobs ++ confirmation_jobs payload })
unfolding publish
publish-confirmed payload db = refl

-- What a finished transition did to the order that it was given: it was pending, it took its status
-- and its stamps, and it was saved over what the inventory method left.
pub record Moved (o order : Order) (status : OrderStatus) (left db' : Database) : Type 0 where
  pub was_pending : o.status ≡ pending_payment
  pub same_id : order.id ≡ o.id
  pub becomes : order.status ≡ status
  pub inventory : db'.inventory ≡ left.inventory
  pub movements : db'.movements ≡ left.movements
  pub order_items : db'.order_items ≡ left.order_items
  pub payments : db'.payments ≡ left.payments
  pub orders : db'.orders ≡ (save order left).orders

-- The transitions from where the inventory method has left off.
abbrev confirm_on : Order → ℕ → Database → Result (Order × Database)
confirm_on o now left = do
  paid ← mark_paid o
  done ← confirm now paid
  published ←
      publish (codes "order.confirmed") (record { order_id = done.id; occurred_at = now })
        (save done left)
  ok (done, published)

abbrev fail_on : Order → Database → Result (Order × Database)
fail_on o left = do failed ← mark_payment_failed o; ok (failed, save failed left)

abbrev cancel_on : Order → ℕ → Text → Database → Result (Order × Database)
cancel_on o now reason left = do done ← cancel now reason o; ok (done, save done left)

confirmed_rest :
    (o order : Order) (now : ℕ) (left db' : Database)
    → confirm_on o now left ≡ ok (order, db')
    → Moved o order confirmed left db'
      × (db'.jobs ≡ left.jobs ++ confirmation_jobs (record { order_id = o.id; occurred_at = now }))
unfolding mark_paid confirm publish save can_transition_order_status
confirmed_rest o order now left db' h = ground arith

failed_rest :
    (o order : Order) (left db' : Database)
    → fail_on o left ≡ ok (order, db')
    → Moved o order payment_failed left db' × (db'.jobs ≡ left.jobs)
unfolding mark_payment_failed save can_transition_order_status
failed_rest o order left db' h = ground arith

cancelled_rest :
    (o order : Order) (now : ℕ) (reason : Text) (left db' : Database)
    → cancel_on o now reason left ≡ ok (order, db')
    → Moved o order cancelled left db' × (db'.jobs ≡ left.jobs)
unfolding cancel save can_transition_order_status
cancelled_rest o order now reason left db' h = ground arith

module _ (lock : Option SqlState) (context : Context) (db db' : Database) (order : Order) where
  pub to_confirmed_parts :
      to_confirmed lock context db ≡ ok (order, db')
      → (left : Database) × (commit_reservation lock context db ≡ ok left)
        × Moved context.order order confirmed left db'
        × (db'.jobs
            ≡ left.jobs
              ++ confirmation_jobs (record { order_id = context.order.id; occurred_at = db.clock }))
  unfolding to_confirmed
  to_confirmed_parts h =
      let (left, first, later) = >>=-eq-ok (commit_reservation lock context db) _ h in
      let (moved, jobs) = confirmed_rest context.order order db.clock left db' later in
      (left, first, moved, jobs)

  pub to_payment_failed_parts :
      to_payment_failed lock context db ≡ ok (order, db')
      → (left : Database) × (release_reservation lock context db ≡ ok left)
        × Moved context.order order payment_failed left db'
        × (db'.jobs ≡ left.jobs)
  unfolding to_payment_failed
  to_payment_failed_parts h =
      let (left, first, later) = >>=-eq-ok (release_reservation lock context db) _ h in
      let (moved, jobs) = failed_rest context.order order left db' later in
      (left, first, moved, jobs)

  pub to_cancelled_parts :
      (reason : Text)
      → to_cancelled lock reason context db ≡ ok (order, db')
      → (left : Database) × (release_reservation lock context db ≡ ok left)
        × Moved context.order order cancelled left db'
        × (db'.jobs ≡ left.jobs)
  unfolding to_cancelled
  to_cancelled_parts reason h =
      let (left, first, later) = >>=-eq-ok (release_reservation lock context db) _ h in
      let (moved, jobs) = cancelled_rest context.order order db.clock reason left db' later in
      (left, first, moved, jobs)
