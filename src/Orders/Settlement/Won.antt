-- ===== src/Orders/Settlement/Won.antt =====
-- What a settlement that was won has run.
use canals.Prelude.{◌≡◌, refl, ◌∙◌, ap, Option, none, some, inl, inr, Bool-cases}
use canals.Errors.{Uuid, Result, ok, err, ok-injective}
use canals.Domain.Status.{pending_payment, same_status}
use canals.Domain.Order.{Order}
use canals.Store.{OrderRow, Database, find_order}
use canals.Store.Mapper.{order_to_domain}
use canals.Orders.Settlement.{
  settled, SettlementResult, PaymentResolution, Transition, settle_pending, settle_read, settle,
  find_one_by_or_fail, resolve_payment, ordered_products, Context,
}

-- The order that was read, as `settle` hands it to the transition.
abbrev pub handed_to : Uuid → Order → Database → Context
handed_to id order resolved = record {
  order = order;
  warehouse_id = order.warehouse_id;
  product_ids = ordered_products id resolved;
}

module _ (id : Uuid) (payment : Option PaymentResolution) (transition : Transition)
    (db db' : Database) (s : SettlementResult) where
  pending_parts :
      (order : Order)
      → settle_pending id payment transition order db ≡ ok (s, db')
      → transition (handed_to id order (resolve_payment payment db)) (resolve_payment payment db)
        ≡ ok (s.order, db')
  unfolding settle_pending
  pending_parts order h =
      go (transition (handed_to id order (resolve_payment payment db)) (resolve_payment payment db))
        refl
    where
      go :
          (r : Result (Order × Database))
          → transition
              (handed_to id order (resolve_payment payment db))
              (resolve_payment payment db)
            ≡ r
          → transition
              (handed_to id order (resolve_payment payment db))
              (resolve_payment payment db)
            ≡ ok (s.order, db')
      go (err e) t = absurd (cc (rw (t, settle_pending) at h))
      go (ok (o', d')) t =
          t
          ∙ ap (λ (x : SettlementResult × Database). ok (x.0.order, x.1))
              (ok-injective (rw (t, settle_pending) at h))

  -- A won settlement read a pending order and ran the transition to its end.
  pub settle_parts :
      settle id payment transition db ≡ ok (s, db')
      → s.outcome ≡ settled
      → (row : OrderRow) × (order : Order) × (find_order id db ≡ some row)
        × (order_to_domain row ≡ ok order)
        × (transition (handed_to id order (resolve_payment payment db)) (resolve_payment payment db)
            ≡ ok (s.order, db'))
  unfolding settle settle_read
  settle_parts h o = look (find_order id db) refl
    where
      read :
          (row : OrderRow) (r : Result Order)
          → find_order id db ≡ some row
          → order_to_domain row ≡ r
          → (row : OrderRow) × (order : Order) × (find_order id db ≡ some row)
            × (order_to_domain row ≡ ok order)
            × (transition
                  (handed_to id order (resolve_payment payment db))
                  (resolve_payment payment db)
                ≡ ok (s.order, db'))
      read row (err e) found t = absurd (cc (rw (settle, find_one_by_or_fail, found, t) at h))
      read row (ok order) found t = elim (Bool-cases (same_status order.status pending_payment)) [
        | inl open_still ↦ (
          row,
          order,
          found,
          t,
          pending_parts order
              (rw (settle_read, open_still) at (rw (settle, find_one_by_or_fail, found, t) at h)),
        )
        | inr other ↦
            absurd
              (cc (rw (settle_read, other) at (rw (settle, find_one_by_or_fail, found, t) at h), o))
      ]

      look :
          (r : Option OrderRow)
          → find_order id db ≡ r
          → (row : OrderRow) × (order : Order) × (find_order id db ≡ some row)
            × (order_to_domain row ≡ ok order)
            × (transition
                  (handed_to id order (resolve_payment payment db))
                  (resolve_payment payment db)
                ≡ ok (s.order, db'))
      look none missing = absurd (cc (rw (settle, find_one_by_or_fail, missing) at h))
      look (some row) found = read row (order_to_domain row) found refl
