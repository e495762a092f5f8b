-- ===== src/Orders/Settlement/Others.antt =====
-- What a settlement leaves alone: the rows of the other orders, and an order that is settled.
use canals.Prelude.{
  ◌≡◌, refl, sym, ◌∙◌, ap, inl, inr, Option, none, some, false, arith, ◌==◌, Bool-cases,
}
use canals.Prelude.Rows.{find_row, find_row-save_row, find_row-key}
use canals.Errors.{Uuid, SqlState, ok, ok-injective}
use canals.Domain.Order.{Order}
use canals.Store.{OrderRow, Database, find_order}
use canals.Store.Mapper.{order_to_persistence}
use canals.Allocation.Inventory.Release.{commit-EndsEffect, release-EndsEffect}
use canals.Orders.Settlement.{
  SettlementResult, PaymentResolution, Context, resolve_payment, commit_reservation,
  release_reservation, save, settled,
}
use canals.Orders.Settlement.Parts.{to_confirmed_parts, to_payment_failed_parts, to_cancelled_parts}
use canals.Orders.Settlement.Won.{handed_to, settle_parts}
use canals.Orders.Settlement.Winner.{
  Attempt, confirming, failing, cancelling, attempt, attempt-settle, transition_of, payment_of,
  IsSettled, Ending, threw, lost, won, attempt-Ending, settled_loses, order_to_domain-fields,
}

module _ (lock : Option SqlState) (context : Context) (db left : Database) where
  commit_orders : commit_reservation lock context db ≡ ok left → left.orders ≡ db.orders
  unfolding commit_reservation
  commit_orders h =
      elim (context.warehouse_id)
          as (λ (o : Option Uuid). context.warehouse_id ≡ o → left.orders ≡ db.orders) [
            | none ↦ λ at.
                ap (λ (d : Database). d.orders)
                  (sym (ok-injective (rw (at, commit_reservation) at h)))
            | some w ↦ λ at.
                (commit-EndsEffect
                  (record {
                    order_id = context.order.id;
                    warehouse_id = w;
                    product_ids = context.product_ids;
                  })
                  db lock left (rw (at, commit_reservation) at h)).rest.orders
          ]
        refl

  release_orders : release_reservation lock context db ≡ ok left → left.orders ≡ db.orders
  unfolding release_reservation
  release_orders h =
      elim (context.warehouse_id)
          as (λ (o : Option Uuid). context.warehouse_id ≡ o → left.orders ≡ db.orders) [
            | none ↦ λ at.
                ap (λ (d : Database). d.orders)
                  (sym (ok-injective (rw (at, release_reservation) at h)))
            | some w ↦ λ at.
                (release-EndsEffect
                  (record {
                    order_id = context.order.id;
                    warehouse_id = w;
                    product_ids = context.product_ids;
                  })
                  db lock left (rw (at, release_reservation) at h)).rest.orders
          ]
        refl

transition-orders :
    (a : Attempt) (context : Context) (db db' : Database) (order : Order)
    → transition_of a context db ≡ ok (order, db')
    → (left : Database) × (order.id ≡ context.order.id)
      × (db'.orders ≡ (save order left).orders)
      × (left.orders ≡ db.orders)
transition-orders (confirming lock payment) context db db' order h =
    let (left, first, moved, _) = to_confirmed_parts lock context db db' order h in
    (left, moved.same_id, moved.orders, commit_orders lock context db left first)
transition-orders (failing lock payment) context db db' order h =
    let (left, first, moved, _) = to_payment_failed_parts lock context db db' order h in
    (left, moved.same_id, moved.orders, release_orders lock context db left first)
transition-orders (cancelling lock reason payment) context db db' order h =
    let (left, first, moved, _) = to_cancelled_parts lock context db db' order reason h in
    (left, moved.same_id, moved.orders, release_orders lock context db left first)

resolve_payment-orders :
    (payment : Option PaymentResolution) (db : Database)
    → (resolve_payment payment db).orders ≡ db.orders
unfolding resolve_payment
resolve_payment-orders none db = refl
resolve_payment-orders (some payment) db = refl

saved_elsewhere :
    (other : Uuid) (order : Order) (left : Database)
    → (order.id == other) ≡ false
    → find_row (λ (o : OrderRow). o.id) other (save order left).orders
      ≡ find_row (λ (o : OrderRow). o.id) other left.orders
unfolding save order_to_persistence
saved_elsewhere other order left differs = ground (
  arith,
  find_row-save_row (λ (o : OrderRow). o.id) other (order_to_persistence left.clock order)
      left.orders,
)

won-others :
    (id other : Uuid) (a : Attempt) (db db' : Database) (s : SettlementResult)
    → attempt id a db ≡ ok (s, db')
    → s.outcome ≡ settled
    → (id == other) ≡ false
    → find_order other db' ≡ find_order other db
won-others id other a db db' s h o differs =
    let (row, order, found, read, ran) =
      settle_parts id (payment_of a) (transition_of a) db db' s (sym (attempt-settle id a db) ∙ h)
        o in
    let (left, same, saved, kept) =
      transition-orders a (handed_to id order (resolve_payment (payment_of a) db))
        (resolve_payment (payment_of a) db) db' s.order ran in
    let key : order.id ≡ id =
      (order_to_domain-fields row order read).0
      ∙ find_row-key (λ (o : OrderRow). o.id) id db.orders row found in
    let apart : (s.order.id == other) ≡ false = rw (same ∙ key) differs in
    ap (find_row (λ (o : OrderRow). o.id) other) saved
    ∙ saved_elsewhere other s.order left apart
    ∙ ap (find_row (λ (o : OrderRow). o.id) other) (kept ∙ resolve_payment-orders (payment_of a) db)

-- A settlement that is made leaves every other order's row as it was.
pub attempt-others :
    (id other : Uuid) (a : Attempt) (db db' : Database) (s : SettlementResult)
    → attempt id a db ≡ ok (s, db')
    → (id == other) ≡ false
    → find_order other db' ≡ find_order other db
attempt-others id other a db db' s h differs = by (attempt-Ending id a db)
  where
    by : Ending id a db → find_order other db' ≡ find_order other db
    by (threw t) = absurd (cc (h, t))
    by (lost t o) =
        ap (λ (x : SettlementResult × Database). find_order other x.1) (ok-injective (sym h ∙ t))
    by (won {s = s1} {db' = db1} t o becomes is) =
        ap (λ (x : SettlementResult × Database). find_order other x.1) (ok-injective (sym h ∙ t))
        ∙ won-others id other a db db1 s1 t o differs

-- Whatever order a settlement is made of, an order that is no longer pending keeps its row.
pub attempt-keeps :
    (id other : Uuid) (a : Attempt) (db db' : Database) (s : SettlementResult)
    → attempt id a db ≡ ok (s, db')
    → IsSettled other db
    → find_order other db' ≡ find_order other db
attempt-keeps id other a db db' s h is = elim (Bool-cases (id == other)) [
  | inr differs ↦ attempt-others id other a db db' s h differs
  | inl same ↦
      let e : other ≡ id = ground (arith, same) in
      rw e (elim (settled_loses id a db (rw e at is)) [
        | inl (_, t) ↦ absurd (cc (h, t))
        | inr (s1, t, _, _) ↦
            ap (λ (x : SettlementResult × Database). find_order id x.1) (ok-injective (sym h ∙ t))
      ])
]
