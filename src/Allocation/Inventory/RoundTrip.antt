-- ===== src/Allocation/Inventory/RoundTrip.antt =====
-- The methods against one another: what is reserved can be released or committed, once.
use canals.Prelude.{
  ℕ, ◌-◌, ◌≡◌, Option, none, some, true, ◌==◌, ◌⊎◌, inl, inr, if◌then◌else◌, arith, IsDistinct,
}
use mathlib.Core.Option
use canals.Errors.{Uuid, SqlState, ok, ok_of_is_ok}
use canals.Store.{Database}
use canals.Allocation.Inventory.{
  ReserveCommand, ReleaseCommand, reserve, release, commit, product_ids_of,
}
use canals.Allocation.Inventory.Post.{stock}
use canals.Allocation.Inventory.Lines.{wanted}
use canals.Allocation.Inventory.Reserve.{
  reserve-Reserved, is_covered, unmet_nil-is_covered, contains-wanted,
}
use canals.Allocation.Inventory.Release.{
  release-EndsEffect, commit-EndsEffect, release_succeeds, commit_succeeds, release_idle,
  commit_idle, AllEnough, IsIdle,
}

-- Units that have left the available balance.
abbrev pub sold : Option ℕ → Option (ℕ × ℕ) → Option (ℕ × ℕ)
sold none s = s
sold (some q) s = Option.map (λ (x : ℕ × ℕ). (x.0 - q, x.1)) s

-- The command that ends what a command reserved.
abbrev pub ending_of : ReserveCommand → ReleaseCommand
ending_of command = record {
  order_id = command.order_id;
  warehouse_id = command.warehouse_id;
  product_ids = product_ids_of command.lines;
}

module _ (command : ReserveCommand) (db mid : Database)
    (distinct : IsDistinct (product_ids_of command.lines))
    (ran : reserve none command db ≡ ok mid) where
  open command use {order_id, warehouse_id, lines}

  reserved_enough : AllEnough (ending_of command) mid
  reserved_enough p k =
      let done = (reserve-Reserved command db mid distinct ran).1 in
      ground (arith, done.holds p, done.stocks warehouse_id p, contains-wanted p lines)

  covered : (p : Uuid) → is_covered (wanted p lines) (stock warehouse_id p db) ≡ true
  covered p =
      unmet_nil-is_covered warehouse_id db lines p (reserve-Reserved command db mid distinct ran).0

  -- A reservation of distinct products that is released at once leaves every balance of every
  -- warehouse as it was before it, and the release cannot fail once its locks are granted.
  pub reserve-release :
      (db' : Database) × (release none (ending_of command) mid ≡ ok db')
      × ((w p : Uuid) → stock w p db' ≡ stock w p db)
  reserve-release =
      let done = (reserve-Reserved command db mid distinct ran).1 in
      let (db', released) =
        ok_of_is_ok _ (release_succeeds (ending_of command) mid reserved_enough) in
      let e = release-EndsEffect (ending_of command) mid none db' released in
      (
        db',
        released,
        λ w p. ground (
          arith,
          e.stocks w p,
          done.stocks w p,
          done.holds p,
          contains-wanted p lines,
          covered p,
        ),
      )

  -- A reservation of distinct products that is committed at once has taken exactly the lines' quantities out of the available
  -- balance of its warehouse, and nothing else is left of it: the reserved balances are as before.
  pub reserve-commit :
      (db' : Database) × (commit none (ending_of command) mid ≡ ok db')
      × ((w p : Uuid)
          → stock w p db'
            ≡ (if warehouse_id == w then sold (wanted p lines) (stock w p db) else stock w p db))
  reserve-commit =
      let done = (reserve-Reserved command db mid distinct ran).1 in
      let (db', committed) =
        ok_of_is_ok _ (commit_succeeds (ending_of command) mid reserved_enough) in
      let e = commit-EndsEffect (ending_of command) mid none db' committed in
      (
        db',
        committed,
        λ w p. ground (
          arith,
          e.stocks w p,
          done.stocks w p,
          done.holds p,
          contains-wanted p lines,
          covered p,
        ),
      )

-- After a reservation was ended, by either method, neither has anything left to do.
module _ (command : ReleaseCommand) (db db' : Database) (lock : Option SqlState) where
  open command use {order_id, warehouse_id, product_ids}

  release-IsIdle : release lock command db ≡ ok db' → IsIdle command db'
  release-IsIdle h p k =
      let e = release-EndsEffect command db lock db' h in
      ground (arith, e.holds order_id p, e.stocks warehouse_id p)

  commit-IsIdle : commit lock command db ≡ ok db' → IsIdle command db'
  commit-IsIdle h p k =
      let e = commit-EndsEffect command db lock db' h in
      ground (arith, e.holds order_id p, e.stocks warehouse_id p)

  -- Whichever of `release` and `commit` finished first, both are then without effect on the whole
  -- database: a retried job and a race between settlers change no balance and write no movement.
  pub ended_once :
      (release lock command db ≡ ok db') ⊎ (commit lock command db ≡ ok db')
      → (release none command db' ≡ ok db') × (commit none command db' ≡ ok db')
  ended_once (inl h) =
      let idle = release-IsIdle h in (release_idle command db' idle, commit_idle command db' idle)
  ended_once (inr h) =
      let idle = commit-IsIdle h in (release_idle command db' idle, commit_idle command db' idle)
