-- ===== src/Jobs/Tests.antt =====
-- Runs of the jobs on a database whose order is cancelled already.
use canals.Prelude.{ℕ, ◌+◌, ◌≡◌, refl, List, [], ◌∷◌, Option, none, some, Bool, false, codes}
use canals.Domain.Status.{captured, cancelled}
use canals.Store.{OrderRow, Database, find_order}
use canals.Orders.Settlement.Winner.{IsSettled}
use canals.Jobs.Batch.{Services}
use canals.Jobs.Reaper
use canals.Jobs.Reconciliation
use canals.Jobs.Keeping.{reaper-keeps, reconciliation-keeps}
use canals.Samples.{sample_order, sample_database, answer_of}

abbrev cancelled_order : OrderRow
cancelled_order = record sample_order { id = 101; status = cancelled; cancelled_at = some 500 }

-- A cancelled order beside the one that has expired, with the unclear payment of the latter.
abbrev two_orders : Database
two_orders = record sample_database { orders = cancelled_order ∷ sample_order ∷ []; clock = 500000 }

abbrev capturing : Services ℕ
capturing = record { get_status = λ key n. (answer_of captured, n + 1); lock_of = λ id. none }

cancelled-IsSettled : IsSettled 101 two_orders
unfolding canals.Prelude.Rows.find_row
cancelled-IsSettled = (cancelled_order, refl, refl)

reaper-keeps_example :
    find_order 101 (Reaper.handle capturing (λ id. false) (two_orders, 0)).0
    ≡ find_order 101 two_orders
reaper-keeps_example = reaper-keeps capturing (λ id. false) 101 two_orders 0 cancelled-IsSettled

reconciliation-keeps_example :
    find_order 101 (Reconciliation.handle capturing (λ id. false) (two_orders, 0)).0
    ≡ find_order 101 two_orders
reconciliation-keeps_example =
    reconciliation-keeps capturing (λ id. false) 101 two_orders 0 cancelled-IsSettled
