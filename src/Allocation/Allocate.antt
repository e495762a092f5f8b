-- ===== src/Allocation/Allocate.antt =====
-- src/application/allocation/allocate-inventory.use-case.ts. The candidates, nearest first, are what
-- the selection query gives; `locks` is what taking the locks raises at each warehouse.
pub mod Failover
use canals.Prelude.{ℕ, Text, List, [], ◌∷◌, ◌++◌, Option, none, some, contains, if◌then◌else◌}
use canals.Errors.{
  Uuid, SqlState, Error, insufficient_stock, no_fulfilment_possible, no_candidates,
  reservation_race_lost, Result, ok, err, ◌>>=◌,
}
use canals.Store.{Database, transaction}
use canals.Allocation.Inventory.{OrderLine, reserve, product_ids_of}

-- A row of the selection query; the distance in whole meters.
pub record Candidate : Type 0 where
  pub warehouse_id : Uuid
  pub name : Text
  pub distance_meters : ℕ

pub record AllocationResult : Type 0 where
  pub order_id : Uuid
  pub warehouse_id : Uuid
  pub name : Text
  pub distance_meters : ℕ

abbrev pub OnBeforeReserve : Type 0
OnBeforeReserve = Uuid → Uuid → Database → Result Database

-- `Set.add`, of each.
abbrev pub add_all : List Uuid → List Uuid → List Uuid
add_all [] set = set
add_all (p ∷ ps) set = if contains set p then add_all ps set else add_all ps (set ++ (p ∷ []))

-- `instanceof InsufficientStockError`, with its products.
abbrev pub unmet_by : Error → Option (List Uuid)
unmet_by (insufficient_stock ids) = some ids
unmet_by _ = none

module _ (locks : Uuid → Option SqlState) (on_before_reserve : OnBeforeReserve) (order_id : Uuid)
    (lines : List OrderLine) where
  -- The body of one attempt's transaction.
  unfoldable pub attempt_at : Uuid → Database → Result (Unit {0} × Database)
  attempt_at warehouse_id db = do
    inserted ← on_before_reserve order_id warehouse_id db
    reserved ←
        reserve (locks warehouse_id)
          (record { order_id = order_id; warehouse_id = warehouse_id; lines = lines }) inserted
    ok (tt, reserved)

  abbrev pub allocated : Candidate → AllocationResult
  allocated c = record {
    order_id = order_id;
    warehouse_id = c.warehouse_id;
    name = c.name;
    distance_meters = c.distance_meters;
  }

  -- What follows an attempt's transaction; InsufficientStockError alone leads to the next candidate.
  unfoldable pub after_attempt :
      Candidate
      → (List Uuid → Database → Result AllocationResult × Database)
      → Result (Unit {0}) × Database
      → Result AllocationResult × Database
  after_attempt c next (ok u, db) = (ok (allocated c), db)
  after_attempt c next (err e, db) = elim (unmet_by e) [
    | none ↦ (err e, db)
    | some ids ↦ next ids db
  ]

  -- The failover loop.
  unfoldable pub try_candidates :
      List Candidate → List Uuid → Database → Result AllocationResult × Database
  unfolding transaction after_attempt
  try_candidates [] unmet db = (err (no_fulfilment_possible unmet reservation_race_lost), db)
  try_candidates (c ∷ cs) unmet db =
      after_attempt c (λ ids db'. try_candidates cs (add_all ids unmet) db')
        (transaction (attempt_at c.warehouse_id) db)

  unfoldable pub execute : List Candidate → Database → Result AllocationResult × Database
  execute [] db = (err (no_fulfilment_possible (product_ids_of lines) no_candidates), db)
  execute (c ∷ cs) db = try_candidates (c ∷ cs) [] db
