-- ===== src/Orders/Settlement/Effects.antt =====
-- What a won settlement does to the stock, to the ledger and to the job queues.
use canals.Prelude.{
  ℕ, ◌≡◌, refl, subst, ◌∙◌, Text, List, ◌++◌, Option, none, some, ◌&&◌, ◌⊎◌, inl, inr, arith,
  if◌then◌else◌, ◌==◌, is_some, contains,
}
use canals.Prelude.Rows.{find_row-key}
use canals.Errors.{Uuid, SqlState, ok}
use canals.Domain.Status.{OrderStatus}
use canals.Domain.Order.{Order}
use canals.Store.{OrderRow, JobRow, Database, find_order}
use canals.Store.Mapper.{order_to_domain}
use canals.Allocation.Inventory.{held}
use canals.Allocation.Inventory.Post.{stock}
use canals.Allocation.Inventory.Ending.{EndsEffect, ended_stock, give_back, ship}
use canals.Allocation.Inventory.Release.{commit-EndsEffect, release-EndsEffect}
use canals.Orders.Settlement.{
  settled, SettlementResult, PaymentResolution, resolve_payment, ordered_products, to_confirmed,
  to_payment_failed, to_cancelled, confirm_captured, fail_declined, cancel_unpaid,
  commit_reservation, release_reservation,
}
use canals.Orders.Settlement.Parts.{
  Moved, confirmation_jobs, to_confirmed_parts, to_payment_failed_parts, to_cancelled_parts,
}
use canals.Orders.Settlement.Won.{handed_to, settle_parts}

-- What a won settlement does at the order's warehouse `w`: each product of the order that the ledger
-- held for it has its balances moved, once, and is held no more.
pub record Settles (move : ℕ → ℕ × ℕ → ℕ × ℕ) (id w : Uuid) (db db' : Database) : Type 0 where
  pub stocks :
      (w' p' : Uuid)
      → stock w' p' db' ≡ (
          if w == w' && contains (ordered_products id db) p'
          then ended_stock move (held id p' db) (stock w' p' db)
          else stock w' p' db)
  pub holds :
      (o' p' : Uuid)
      → held o' p' db' ≡ (
          if id == o' && (contains (ordered_products id db) p' && is_some (stock w p' db))
          then none
          else held o' p' db)

-- Resolving a payment changes the payments alone.
ends_resolved :
    (move : ℕ → ℕ × ℕ → ℕ × ℕ) (o w : Uuid) (payment : Option PaymentResolution)
    (db left : Database)
    → EndsEffect move o w
        (ordered_products o (resolve_payment payment db))
        (resolve_payment payment db)
        left
    → Settles move o w db left × (left.jobs ≡ db.jobs)
unfolding resolve_payment ordered_products held
ends_resolved move o w none db left e =
    (record { stocks = λ w' p'. e.stocks w' p'; holds = λ o' p'. e.holds o' p' }, e.rest.jobs)
ends_resolved move o w (some payment) db left e =
    (record { stocks = λ w' p'. e.stocks w' p'; holds = λ o' p'. e.holds o' p' }, e.rest.jobs)

resolve_payment-clock :
    (payment : Option PaymentResolution) (db : Database)
    → (resolve_payment payment db).clock ≡ db.clock
unfolding resolve_payment
resolve_payment-clock none db = refl
resolve_payment-clock (some payment) db = refl

Moved-Settles :
    (move : ℕ → ℕ × ℕ → ℕ × ℕ) (id w : Uuid) (db left db' : Database) (o order : Order)
    (status : OrderStatus)
    → Moved o order status left db'
    → Settles move id w db left
    → Settles move id w db db'
unfolding held
Moved-Settles move id w db left db' o order status m e = record {
  stocks = λ w' p'. ground (arith, m.inventory, e.stocks w' p');
  holds = λ o' p'. ground (arith, m.movements, e.holds o' p');
}

row_fields :
    (row : OrderRow) (order : Order)
    → order_to_domain row ≡ ok order
    → (order.id ≡ row.id) × (order.warehouse_id ≡ row.warehouse_id)
unfolding order_to_domain
row_fields row order h = ground arith

module _ (lock : Option SqlState) (id w : Uuid) (order : Order) (db left : Database) where
  commit_context :
      order.id ≡ id
      → order.warehouse_id ≡ some w
      → commit_reservation lock (handed_to id order db) db ≡ ok left
      → EndsEffect ship id w (ordered_products id db) db left
  unfolding commit_reservation
  commit_context same at h =
      subst (λ o. EndsEffect ship o w (ordered_products id db) db left) same
        (commit-EndsEffect
          (record { order_id = order.id; warehouse_id = w; product_ids = ordered_products id db })
          db lock left (rw (at, commit_reservation) at h))

  release_context :
      order.id ≡ id
      → order.warehouse_id ≡ some w
      → release_reservation lock (handed_to id order db) db ≡ ok left
      → EndsEffect give_back id w (ordered_products id db) db left
  unfolding release_reservation
  release_context same at h =
      subst (λ o. EndsEffect give_back o w (ordered_products id db) db left) same
        (release-EndsEffect
          (record { order_id = order.id; warehouse_id = w; product_ids = ordered_products id db })
          db lock left (rw (at, release_reservation) at h))

module _ (lock : Option SqlState) (id w : Uuid) (payment : Option PaymentResolution)
    (db db' : Database) (row : OrderRow) (s : SettlementResult)
    (found : find_order id db ≡ some row) (located : row.warehouse_id ≡ some w)
    (wins : s.outcome ≡ settled) where
  read_order :
      (row' : OrderRow) (order : Order)
      → find_order id db ≡ some row'
      → order_to_domain row' ≡ ok order
      → (order.id ≡ id) × (order.warehouse_id ≡ some w)
  read_order row' order found' h =
      let (same, at_w) = row_fields row' order h in
      let key = find_row-key (λ (o : OrderRow). o.id) id db.orders row' found' in
      (same ∙ key, ground arith)

  -- For an order that has a warehouse, a confirmation that wins takes the order's reserved units off the reserved balances of its
  -- warehouse, leaves every available balance as it is, and publishes order.confirmed: one job for
  -- each of the three routed queues, after the jobs that were there.
  pub confirm_captured-Settles :
      confirm_captured lock id payment db ≡ ok (s, db')
      → Settles ship id w db db'
        × (db'.jobs
            ≡ db.jobs ++ confirmation_jobs (record { order_id = id; occurred_at = db.clock }))
  unfolding confirm_captured
  confirm_captured-Settles h =
      let (row', order, found', read, ran) =
        settle_parts id payment (to_confirmed lock) db db' s h wins in
      let (same, at_w) = read_order row' order found' read in
      let (left, inventory, moved, jobs) =
        to_confirmed_parts lock _ (resolve_payment payment db) db' s.order ran in
      let (ends, kept) =
        ends_resolved ship id w payment db left
          (commit_context lock id w order (resolve_payment payment db) left same at_w inventory) in
      (
        Moved-Settles ship id w db left db' order s.order _ moved ends,
        jobs_of (resolve_payment payment db).clock left.jobs order.id jobs kept same
            (resolve_payment-clock payment db),
      )
    where
      jobs_of :
          (t : ℕ) (js : List JobRow) (o : Uuid)
          → db'.jobs ≡ js ++ confirmation_jobs (record { order_id = o; occurred_at = t })
          → js ≡ db.jobs
          → o ≡ id
          → t ≡ db.clock
          → db'.jobs
            ≡ db.jobs ++ confirmation_jobs (record { order_id = id; occurred_at = db.clock })
      jobs_of t js o h a b c =
          h ∙ (λ i. a i ++ confirmation_jobs (record { order_id = b i; occurred_at = c i }))

  given_back :
      (row' : OrderRow) (order : Order) (status : OrderStatus) (left : Database)
      → find_order id db ≡ some row'
      → order_to_domain row' ≡ ok order
      → release_reservation lock
          (handed_to id order (resolve_payment payment db))
          (resolve_payment payment db)
        ≡ ok left
      → Moved order s.order status left db'
      → db'.jobs ≡ left.jobs
      → Settles give_back id w db db' × (db'.jobs ≡ db.jobs)
  given_back row' order status left found' read inventory moved jobs =
      let (same, at_w) = read_order row' order found' read in
      let (ends, kept) =
        ends_resolved give_back id w payment db left
          (release_context lock id w order (resolve_payment payment db) left same at_w inventory) in
      (Moved-Settles give_back id w db left db' order s.order status moved ends, jobs ∙ kept)

  -- For an order that has a warehouse, a decline or a cancellation that wins gives the order's reserved units back to the available
  -- balances of its warehouse, and publishes nothing.
  pub released-Settles :
      (reason : Text)
      → (fail_declined lock id payment db ≡ ok (s, db'))
        ⊎ (cancel_unpaid lock id reason payment db ≡ ok (s, db'))
      → Settles give_back id w db db' × (db'.jobs ≡ db.jobs)
  unfolding fail_declined cancel_unpaid
  released-Settles reason (inl h) =
      let (row', order, found', read, ran) =
        settle_parts id payment (to_payment_failed lock) db db' s h wins in
      let (left, inventory, moved, jobs) =
        to_payment_failed_parts lock _ (resolve_payment payment db) db' s.order ran in
      given_back row' order _ left found' read inventory moved jobs
  released-Settles reason (inr h) =
      let (row', order, found', read, ran) =
        settle_parts id payment (to_cancelled lock reason) db db' s h wins in
      let (left, inventory, moved, jobs) =
        to_cancelled_parts lock _ (resolve_payment payment db) db' s.order reason ran in
      given_back row' order _ left found' read inventory moved jobs
