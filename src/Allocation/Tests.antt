-- ===== src/Allocation/Tests.antt =====
-- Reservations, their ends and allocations on the sample warehouse.
use canals.Prelude.{
  ℕ, ◌≡◌, ◌≢◌, refl, [], ◌∷◌, none, codes, ◌⊎◌, inl, IsDistinct, ◌==◌, if◌then◌else◌,
}
use canals.Errors.{ok, err, insufficient_stock}
use canals.Store.{Database}
use canals.Allocation.Inventory.{
  ReserveCommand, ReleaseCommand, reserve, release, commit, product_ids_of,
}
use canals.Allocation.Inventory.Post.{stock}
use canals.Allocation.Inventory.Lines.{wanted}
use canals.Allocation.Inventory.Reserve.{Reserved, unmet_lines, reserve-total}
use canals.Allocation.Inventory.RoundTrip.{
  ending_of, sold, reserve-release, reserve-commit, ended_once,
}
use canals.Allocation.Inventory.Ledger.{
  IsReplayed, Call, reserving, releasing, committing, Calls, start, after, Calls-IsReplayed,
}
use canals.Allocation.Allocate.{Candidate, execute}
use canals.Allocation.Allocate.Failover.{Ends, execute-Ends}
use canals.Samples.{sample_database, two_lines, reserved_database, result_or}

two_lines-IsDistinct : IsDistinct (product_ids_of two_lines.lines)
two_lines-IsDistinct = (refl, (refl, tt))

two_lines_reserved : reserve none two_lines sample_database ≡ ok reserved_database
unfolding reserve canals.Allocation.Inventory.reserve_line canals.Allocation.Inventory.post
    canals.Allocation.Inventory.put
two_lines_reserved = refl

reserve-total_example :
    ((unmet_lines 1 sample_database two_lines.lines ≡ [])
      × (db' : Database) × (reserve none two_lines sample_database ≡ ok db')
      × Reserved two_lines sample_database db')
    ⊎ ((unmet_lines 1 sample_database two_lines.lines ≢ [])
        × (reserve none two_lines sample_database
            ≡ err (
                insufficient_stock
                  (product_ids_of (unmet_lines 1 sample_database two_lines.lines)))))
reserve-total_example = reserve-total two_lines sample_database two_lines-IsDistinct

reserve-release_example :
    (db' : Database) × (release none (ending_of two_lines) reserved_database ≡ ok db')
    × ((w p : ℕ) → stock w p db' ≡ stock w p sample_database)
reserve-release_example =
    reserve-release two_lines sample_database reserved_database two_lines-IsDistinct
      two_lines_reserved

reserve-commit_example :
    (db' : Database) × (commit none (ending_of two_lines) reserved_database ≡ ok db')
    × ((w p : ℕ)
        → stock w p db' ≡ (
            if 1 == w
            then sold (wanted p two_lines.lines) (stock w p sample_database)
            else stock w p sample_database))
reserve-commit_example =
    reserve-commit two_lines sample_database reserved_database two_lines-IsDistinct
      two_lines_reserved

abbrev released_database : Database
released_database = result_or sample_database (release none (ending_of two_lines) reserved_database)

two_lines_released : release none (ending_of two_lines) reserved_database ≡ ok released_database
unfolding release canals.Allocation.Inventory.release_product reserve
    canals.Allocation.Inventory.reserve_line canals.Allocation.Inventory.post
    canals.Allocation.Inventory.put
two_lines_released = refl

ended_once_example :
    (release none (ending_of two_lines) released_database ≡ ok released_database)
    × (commit none (ending_of two_lines) released_database ≡ ok released_database)
ended_once_example =
    ended_once (ending_of two_lines) reserved_database released_database none
      (inl two_lines_released)

sample-IsReplayed : IsReplayed sample_database
unfolding canals.Allocation.Inventory.Ledger.is_replayed
    canals.Allocation.Inventory.Ledger.latest_at
sample-IsReplayed w p = refl

reserved_then_released : Calls sample_database released_database
reserved_then_released =
    after (after start (reserving none two_lines two_lines_reserved))
      (releasing none (ending_of two_lines) two_lines_released)

Calls-IsReplayed_example : IsReplayed released_database
Calls-IsReplayed_example = Calls-IsReplayed reserved_then_released sample-IsReplayed

abbrev near : Candidate
near = record { warehouse_id = 2; name = codes "near"; distance_meters = 10 }

abbrev far : Candidate
far = record { warehouse_id = 1; name = codes "far"; distance_meters = 20 }

execute-Ends_example :
    Ends
      (λ _. none)
      (λ _ _ db. ok db)
      100
      two_lines.lines
      sample_database
      (near ∷ far ∷ [])
      []
      (execute (λ _. none) (λ _ _ db. ok db) 100 two_lines.lines (near ∷ far ∷ []) sample_database)
execute-Ends_example =
    execute-Ends (λ _. none) (λ _ _ db. ok db) 100 two_lines.lines sample_database near (far ∷ [])
