-- ===== src/Orders/Settlement/Winner.antt =====
-- Settlers that race for one order: one wins, and the others change nothing.
use canals.Prelude.{
  ◌≡◌, refl, ◌∙◌, Text, Option, none, some, false, ◌⊎◌, inl, inr, arith, Bool-cases,
}
use canals.Prelude.Rows.{find_row-save_row, find_row-key}
use canals.Errors.{Uuid, SqlState, Error, entity_not_found, Result, ok, err}
use canals.Domain.Status.{
  OrderStatus, pending_payment, confirmed, payment_failed, cancelled, same_status,
}
use canals.Domain.Order.{Order}
use canals.Store.{OrderRow, Database, find_order}
use canals.Store.Mapper.{order_to_domain, order_to_persistence}
use canals.Orders.Settlement.{
  settled, already_settled, SettlementResult, PaymentResolution, Context, Transition,
  settle_pending, settle_read, settle, to_confirmed, to_payment_failed, to_cancelled,
  confirm_captured, fail_declined, cancel_unpaid, save, resolve_payment, ordered_products,
  find_one_by_or_fail,
}
use canals.Orders.Settlement.Parts.{
  Moved, to_confirmed_parts, to_payment_failed_parts, to_cancelled_parts,
}

-- A call of one of the three methods for an order, with what it is given.
pub data Attempt : Type 0 where
  confirming failing : Option SqlState → Option PaymentResolution → Attempt
  cancelling : Option SqlState → Text → Option PaymentResolution → Attempt

unfoldable pub attempt : Uuid → Attempt → Database → Result (SettlementResult × Database)
attempt id (confirming lock payment) db = confirm_captured lock id payment db
attempt id (failing lock payment) db = fail_declined lock id payment db
attempt id (cancelling lock reason payment) db = cancel_unpaid lock id reason payment db

abbrev pub goal_of : Attempt → OrderStatus
goal_of (confirming _ _) = confirmed
goal_of (failing _ _) = payment_failed
goal_of (cancelling _ _ _) = cancelled

abbrev pub transition_of : Attempt → Transition
transition_of (confirming lock _) = to_confirmed lock
transition_of (failing lock _) = to_payment_failed lock
transition_of (cancelling lock reason _) = to_cancelled lock reason

abbrev pub payment_of : Attempt → Option PaymentResolution
payment_of (confirming _ payment) = payment
payment_of (failing _ payment) = payment
payment_of (cancelling _ _ payment) = payment

pub attempt-settle :
    (id : Uuid) (a : Attempt) (db : Database)
    → attempt id a db ≡ settle id (payment_of a) (transition_of a) db
unfolding attempt confirm_captured fail_declined cancel_unpaid
attempt-settle id (confirming lock payment) db = refl
attempt-settle id (failing lock payment) db = refl
attempt-settle id (cancelling lock reason payment) db = refl

pub order_to_domain-fields :
    (row : OrderRow) (order : Order)
    → order_to_domain row ≡ ok order
    → (order.id ≡ row.id) × (order.status ≡ row.status)
unfolding order_to_domain
order_to_domain-fields row order h = ground arith

-- What a finished transition wrote of the order, whichever it was.
transition-Moved :
    (a : Attempt) (context : Context) (db db' : Database) (order : Order)
    → transition_of a context db ≡ ok (order, db')
    → (left : Database) × Moved context.order order (goal_of a) left db'
transition-Moved (confirming lock payment) context db db' order h =
    let (left, _, moved, _) = to_confirmed_parts lock context db db' order h in (left, moved)
transition-Moved (failing lock payment) context db db' order h =
    let (left, _, moved, _) = to_payment_failed_parts lock context db db' order h in (left, moved)
transition-Moved (cancelling lock reason payment) context db db' order h =
    let (left, _, moved, _) = to_cancelled_parts lock context db db' order reason h in (left, moved)

goal_not_pending : (a : Attempt) → same_status (goal_of a) pending_payment ≡ false
goal_not_pending (confirming lock payment) = refl
goal_not_pending (failing lock payment) = refl
goal_not_pending (cancelling lock reason payment) = refl

-- The order's row is there, and it is not pending.
abbrev pub IsSettled : Uuid → Database → Type 0
IsSettled id db =
    (row : OrderRow) × (find_order id db ≡ some row)
    × (same_status row.status pending_payment ≡ false)

-- The three ways an attempt ends.
pub data Ending (id : Uuid) (a : Attempt) (db : Database) : Type 0 where
  threw : {e : Error} → attempt id a db ≡ err e → Ending id a db
  lost :
      {s : SettlementResult}
      → attempt id a db ≡ ok (s, db)
      → s.outcome ≡ already_settled
      → Ending id a db
  won :
      {s : SettlementResult} {db' : Database}
      → attempt id a db ≡ ok (s, db')
      → s.outcome ≡ settled
      → s.order.status ≡ goal_of a
      → IsSettled id db'
      → Ending id a db

Moved-IsSettled :
    (id : Uuid) (o order : Order) (status : OrderStatus) (left db' : Database)
    → Moved o order status left db'
    → o.id ≡ id
    → same_status status pending_payment ≡ false
    → IsSettled id db'
unfolding save order_to_persistence
Moved-IsSettled id o order status left db' m same other =
    let written = order_to_persistence left.clock order in
    (
      written,
      ground (arith, find_row-save_row (λ (r : OrderRow). r.id) id written left.orders),
      ground arith,
    )

-- What `settle` hands to its transition.
abbrev handed : Uuid → Option PaymentResolution → Order → Database → Context
handed id payment order db = record {
  order = order;
  warehouse_id = order.warehouse_id;
  product_ids = ordered_products id (resolve_payment payment db);
}

pending-Ending :
    (id : Uuid) (a : Attempt) (db : Database) (order : Order)
    → order.id ≡ id
    → attempt id a db ≡ settle_pending id (payment_of a) (transition_of a) order db
    → Ending id a db
unfolding settle_pending
pending-Ending id a db order same runs =
    go (transition_of a (handed id (payment_of a) order db) (resolve_payment (payment_of a) db))
      refl
  where
    go :
        (r : Result (Order × Database))
        → transition_of a (handed id (payment_of a) order db) (resolve_payment (payment_of a) db)
          ≡ r
        → Ending id a db
    go (err e) t = threw {e = e} (runs ∙ rw (settle_pending, t))
    go (ok (order', db')) t =
        let (left, moved) = transition-Moved a _ _ db' order' t in
        won {s = record { outcome = settled; order = order' }} {db' = db'}
          (runs ∙ rw (settle_pending, t)) refl moved.becomes
          (Moved-IsSettled id order order' (goal_of a) left db' moved same (goal_not_pending a))

settle_read-Ending :
    (id : Uuid) (a : Attempt) (db : Database) (order : Order)
    → order.id ≡ id
    → attempt id a db ≡ settle_read id (payment_of a) (transition_of a) order db
    → Ending id a db
unfolding settle_read
settle_read-Ending id a db order same runs =
    elim (Bool-cases (same_status order.status pending_payment)) [
      | inl open_still ↦ pending-Ending id a db order same (runs ∙ rw (settle_read, open_still))
      | inr other ↦
          lost {s = record { outcome = already_settled; order = order }}
            (runs ∙ rw (settle_read, other)) refl
    ]

-- Every attempt throws, or loses and leaves the database as it is, or wins and settles the order.
pub attempt-Ending : (id : Uuid) (a : Attempt) (db : Database) → Ending id a db
unfolding settle
attempt-Ending id a db = look (find_order id db) refl
  where
    read :
        (row : OrderRow) (r : Result Order)
        → find_order id db ≡ some row
        → order_to_domain row ≡ r
        → Ending id a db
    read row (err e) found h =
        threw {e = e} (attempt-settle id a db ∙ rw (settle, find_one_by_or_fail, found, h))
    read row (ok order) found h =
        settle_read-Ending id a db order
          ((order_to_domain-fields row order h).0
            ∙ find_row-key (λ (o : OrderRow). o.id) id db.orders row found)
          (attempt-settle id a db ∙ rw (settle, find_one_by_or_fail, found, h))

    look : (o : Option OrderRow) → find_order id db ≡ o → Ending id a db
    look none missing =
        threw {e = entity_not_found}
          (attempt-settle id a db ∙ rw (settle, find_one_by_or_fail, missing))
    look (some row) found = read row (order_to_domain row) found refl

-- On an order that is no longer pending no attempt wins, and none changes anything.
pub settled_loses :
    (id : Uuid) (a : Attempt) (db : Database)
    → IsSettled id db
    → ((e : Error) × (attempt id a db ≡ err e))
      ⊎ ((s : SettlementResult) × (attempt id a db ≡ ok (s, db))
          × (s.outcome ≡ already_settled)
          × (same_status s.order.status pending_payment ≡ false))
unfolding settle settle_read
settled_loses id a db (row, found, other) = read (order_to_domain row) refl
  where
    read :
        (r : Result Order)
        → order_to_domain row ≡ r
        → ((e : Error) × (attempt id a db ≡ err e))
          ⊎ ((s : SettlementResult) × (attempt id a db ≡ ok (s, db))
              × (s.outcome ≡ already_settled)
              × (same_status s.order.status pending_payment ≡ false))
    read (err e) h = inl (e, attempt-settle id a db ∙ rw (settle, find_one_by_or_fail, found, h))
    read (ok order) h =
        let still : same_status order.status pending_payment ≡ false =
          rw (order_to_domain-fields row order h).1 other in
        inr (
          record { outcome = already_settled; order = order },
          attempt-settle id a db
              ∙ rw (settle, find_one_by_or_fail, found, h) (rw (settle_read, still)),
          refl,
          still,
        )
