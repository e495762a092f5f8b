-- ===== src/Jobs/Keeping.antt =====
-- What a run of a job leaves alone.
use canals.Prelude.{◌≡◌, refl, ◌∙◌, List, [], ◌∷◌, Option, none, some, Bool}
use canals.Errors.{Uuid, Result, ok, err}
use canals.Store.{ChargeKey, Database, PaymentRow, find_order}
use canals.Orders.Settlement.{SettlementResult}
use canals.Orders.Settlement.Winner.{Attempt, attempt, IsSettled}
use canals.Orders.Settlement.Others.{attempt-keeps}
use canals.Jobs.Batch.{Services, for_each}
use canals.Jobs.Reaper
use canals.Jobs.Reaper.{
  ExpiredReservationRow, settle_by, settle_if, settlement_for, cancel_never_charged, resolve_charge,
  resolve_payment_of, resolve_reservation, select_expired_reservations,
}
use canals.Jobs.Reconciliation
use canals.Jobs.Reconciliation.{select_unsettled_payments, definitive_settlement}

-- What every row's step keeps, the loop keeps.
for_each-keeps :
    {R S : Type 0} (P : S → Type 0) (resolve : R → S → Result (Unit {0}) × S) (rs : List R) (s : S)
    → ((r : R) (s : S) → P s → P (resolve r s).1)
    → P s
    → P (for_each resolve rs s)
unfolding for_each
for_each-keeps P resolve [] s step h = h
for_each-keeps P resolve (r ∷ rs) s step h =
    for_each-keeps P resolve rs (resolve r s).1 step (step r s h)

module _ {World : Type 0} (services : Services World) (other : Uuid) (first : Database)
    (is : IsSettled other first) where
  abbrev Keeps : Database → Type 0
  Keeps db = find_order other db ≡ find_order other first

  still-IsSettled : (db : Database) → Keeps db → IsSettled other db
  still-IsSettled db k = let (row, found, not_pending) = is in (row, k ∙ found, not_pending)

  settle_by-Keeps :
      (id : Uuid) (a : Attempt) (db : Database) → Keeps db → Keeps (settle_by services id a db).1
  unfolding settle_by
  settle_by-Keeps id a db k = go (attempt id a db) refl
    where
      go :
          (r : Result (SettlementResult × Database))
          → attempt id a db ≡ r
          → Keeps (settle_by services id a db).1
      go (err e) h = rw (settle_by, h) k
      go (ok (s, db')) h =
          rw (settle_by, h) (attempt-keeps id other a db db' s h (still-IsSettled db k) ∙ k)

  settle_if-Keeps :
      (id : Uuid) (a : Option Attempt) (db : Database)
      → Keeps db
      → Keeps (settle_if services id a db).1
  unfolding settle_if
  settle_if-Keeps id none db k = k
  settle_if-Keeps id (some a) db k = settle_by-Keeps id a db k

  resolved-Keeps :
      (id : Uuid) (payment_id : Option Uuid) (key : Option ChargeKey) (s : Database × World)
      → Keeps s.0
      → Keeps (resolve_payment_of services id payment_id key s).1.0
  unfolding resolve_payment_of cancel_never_charged resolve_charge
  resolved-Keeps id (some payment_id) (some key) (db, w) k = settle_if-Keeps id _ db k
  resolved-Keeps id (some payment_id) none (db, w) k = settle_by-Keeps id _ db k
  resolved-Keeps id none (some key) (db, w) k = settle_by-Keeps id _ db k
  resolved-Keeps id none none (db, w) k = settle_by-Keeps id _ db k

  reservation-Keeps :
      (row : ExpiredReservationRow) (s : Database × World)
      → Keeps s.0
      → Keeps (resolve_reservation services row s).1.0
  unfolding resolve_reservation
  reservation-Keeps row s k = resolved-Keeps row.id row.payment_id row.idempotency_key s k

  payment-Keeps :
      (row : PaymentRow) (s : Database × World)
      → Keeps s.0
      → Keeps (Reconciliation.resolve_payment services row s).1.0
  unfolding Reconciliation.resolve_payment
  payment-Keeps row (db, w) k = settle_if-Keeps row.order_id _ db k

module _ {World : Type 0} (services : Services World) (locked : Uuid → Bool) (other : Uuid)
    (db : Database) (w : World) where
  -- A run of the reaper leaves the row of every order that is not PENDING_PAYMENT when it starts
  -- exactly as it was, whatever it selects, whatever the provider answers and whatever fails.
  pub reaper-keeps :
      IsSettled other db
      → find_order other (Reaper.handle services locked (db, w)).0 ≡ find_order other db
  unfolding Reaper.handle
  reaper-keeps is =
      for_each-keeps (λ (s : Database × World). Keeps services other db is s.0)
        (resolve_reservation services) (select_expired_reservations locked db) (db, w)
        (reservation-Keeps services other db is) refl

  -- A run of the reconciliation leaves the row of every order that is not PENDING_PAYMENT when it
  -- starts exactly as it was, whatever the provider answers and whatever fails.
  pub reconciliation-keeps :
      IsSettled other db
      → find_order other (Reconciliation.handle services locked (db, w)).0 ≡ find_order other db
  unfolding Reconciliation.handle
  reconciliation-keeps is =
      for_each-keeps (λ (s : Database × World). Keeps services other db is s.0)
        (Reconciliation.resolve_payment services) (select_unsettled_payments locked db) (db, w)
        (payment-Keeps services other db is) refl
