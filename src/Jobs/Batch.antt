-- ===== src/Jobs/Batch.antt =====
-- What src/application/jobs/reservation-reaper.handler.ts and payment-reconciliation.handler.ts do
-- alike: they select rows in a transaction of its own, oldest first and at most so many, and settle
-- each in turn, where a failure is logged and does not stop the batch. `World` is what the gateway
-- reads and changes.
use canals.Prelude.{ℕ, List, [], ◌∷◌, Option, if◌then◌else◌, leb}
use canals.Errors.{Uuid, SqlState, Result}
use canals.Store.{ChargeKey}
use canals.Ports.{ChargeResult}

-- `ORDER BY`, ascending and stable.
unfoldable pub insert_by {ℓ} : {R : Type ℓ} → (R → ℕ) → R → List R → List R
insert_by key r [] = r ∷ []
insert_by key r (s ∷ rs) =
    let rest = insert_by key r rs in if leb (key r) (key s) then r ∷ s ∷ rs else s ∷ rest

unfoldable pub order_by {ℓ} : {R : Type ℓ} → (R → ℕ) → List R → List R
unfolding insert_by
order_by key [] = []
order_by key (r ∷ rs) = insert_by key r (order_by key rs)

-- `PaymentGateway.getStatus`, and what taking the inventory locks raises for an order.
pub record Services (World : Type 0) : Type 0 where
  pub get_status : ChargeKey → World → ChargeResult × World
  pub lock_of : Uuid → Option SqlState

-- The loop of `handle` over the selected rows: the log lines are left out, so a row that fails is
-- passed over.
unfoldable pub for_each {ℓ κ} :
    {R : Type ℓ} {S : Type κ} → (R → S → Result (Unit {0}) × S) → List R → S → S
for_each resolve [] s = s
for_each resolve (r ∷ rs) s = for_each resolve rs (resolve r s).1
