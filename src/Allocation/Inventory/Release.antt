-- ===== src/Allocation/Inventory/Release.antt =====
-- `release` and `commit` as endings: what they do to stock and ledger, and when they succeed.
use canals.Prelude.{
  ◌≡◌, refl, ◌∙◌, ap, sym, fun_ext, List, [], ◌∷◌, Option, none, some, true, ◌⊎◌, inl, inr, arith,
  contains,
}
use mathlib.Core.Option
use canals.Prelude.Int.{pos, ◌+ℤ◌, ◌-ℤ◌}
use canals.Errors.{Uuid, SqlState, ok, is_ok, ◌>>=◌}
use canals.Store.{InventoryRow, MovementType, Database}
use canals.Allocation.Inventory.{
  ReleaseCommand, held, release_product, release_products, release, commit_product, commit_products,
  commit,
}
use canals.Allocation.Inventory.Post.{stock, balances}
use canals.Allocation.Inventory.Reserve.{locked}
use canals.Allocation.Inventory.Ending.{
  give_back, ship, Enough, EndsEffect, each, IsPosting, posting-IsEnding, each_effect,
  each_succeeds, each_idle,
}

none_of_map : (o : Option InventoryRow) → Option.map balances o ≡ none → o ≡ none
none_of_map none h = refl
none_of_map (some row) h = cc

module _ (rows : Uuid → Option InventoryRow) (o w : Uuid) where
  release-IsPosting : IsPosting give_back rows o w (release_product rows o w) MovementType.release
  unfolding release_product
  release-IsPosting = record {
    ended = refl;
    skips = λ p db h. rw (release_product, h);
    misses = λ p db h. ground arith;
    delta = λ q. pos q;
    available = λ q row. pos row.quantity_available +ℤ pos q;
    reserved = λ q row. pos row.quantity_reserved -ℤ pos q;
    posts = λ p db q row h k. rw (release_product, h, k);
    moves = λ q row. ground arith;
    fits = λ q row h. ground arith;
  }

  commit-IsPosting : IsPosting ship rows o w (commit_product rows o w) MovementType.commit
  unfolding commit_product
  commit-IsPosting = record {
    ended = refl;
    skips = λ p db h. rw (commit_product, h);
    misses = λ p db h. ground arith;
    delta = λ q. pos 0;
    available = λ q row. pos row.quantity_available;
    reserved = λ q row. pos row.quantity_reserved -ℤ pos q;
    posts = λ p db q row h k. rw (commit_product, h, k);
    moves = λ q row. ground arith;
    fits = λ q row h. ground arith;
  }

  release_products-each :
      (ps : List Uuid) (db : Database)
      → release_products rows o w ps db ≡ each (release_product rows o w) ps db
  unfolding release_products each
  release_products-each [] db = refl
  release_products-each (p ∷ ps) db =
      ap (λ k. release_product rows o w p db >>= k) (fun_ext (release_products-each ps))

  commit_products-each :
      (ps : List Uuid) (db : Database)
      → commit_products rows o w ps db ≡ each (commit_product rows o w) ps db
  unfolding commit_products each
  commit_products-each [] db = refl
  commit_products-each (p ∷ ps) db =
      ap (λ k. commit_product rows o w p db >>= k) (fun_ext (commit_products-each ps))

module _ (command : ReleaseCommand) (db : Database) where
  open command use {order_id, warehouse_id, product_ids}

  -- The rows that the locks guard.
  abbrev guarded : Uuid → Option InventoryRow
  guarded = locked warehouse_id product_ids db

  release-each :
      release none command db ≡ each (release_product guarded order_id warehouse_id) product_ids db
  unfolding release locked
  release-each = release_products-each guarded order_id warehouse_id product_ids db

  commit-each :
      commit none command db ≡ each (commit_product guarded order_id warehouse_id) product_ids db
  unfolding commit locked
  commit-each = commit_products-each guarded order_id warehouse_id product_ids db

  guarded-fits :
      (p : Uuid)
      → contains product_ids p ≡ true
      → Option.map balances (guarded p) ≡ stock warehouse_id p db
  unfolding locked
  guarded-fits p h = ground arith

  -- A finished `release` gave back, at the warehouse, exactly what the ledger held for the order of
  -- each product named, and the ledger holds nothing more of them for it; all else is unchanged.
  pub release-EndsEffect :
      (lock : Option SqlState) (db' : Database)
      → release lock command db ≡ ok db'
      → EndsEffect give_back order_id warehouse_id product_ids db db'
  unfolding release
  release-EndsEffect none db' h =
      each_effect give_back guarded order_id warehouse_id
        (release_product guarded order_id warehouse_id)
        (posting-IsEnding give_back guarded order_id warehouse_id _ MovementType.release
          (release-IsPosting guarded order_id warehouse_id))
        product_ids db db' (λ p c. inr (guarded-fits p c)) (sym release-each ∙ h)
  release-EndsEffect (some e) db' h = cc

  -- A finished `commit` took it off the reserved balance alone: the units have left.
  pub commit-EndsEffect :
      (lock : Option SqlState) (db' : Database)
      → commit lock command db ≡ ok db'
      → EndsEffect ship order_id warehouse_id product_ids db db'
  unfolding commit
  commit-EndsEffect none db' h =
      each_effect ship guarded order_id warehouse_id (commit_product guarded order_id warehouse_id)
        (posting-IsEnding ship guarded order_id warehouse_id _ MovementType.commit
          (commit-IsPosting guarded order_id warehouse_id))
        product_ids db db' (λ p c. inr (guarded-fits p c)) (sym commit-each ∙ h)
  commit-EndsEffect (some e) db' h = cc

  abbrev pub IsIdle : Type 0
  IsIdle =
      (p : Uuid)
      → contains product_ids p ≡ true
      → (held order_id p db ≡ none) ⊎ (stock warehouse_id p db ≡ none)

  guarded-idle :
      IsIdle
      → (p : Uuid) → contains product_ids p ≡ true
      → (held order_id p db ≡ none) ⊎ (guarded p ≡ none)
  guarded-idle idle p c = elim (idle p c) [
    | inl free ↦ inl free
    | inr missing ↦ inr (none_of_map (guarded p) (guarded-fits p c ∙ missing))
  ]

  pub release_idle : IsIdle → release none command db ≡ ok db
  release_idle idle =
      release-each
      ∙ each_idle give_back guarded order_id warehouse_id _ MovementType.release
          (release-IsPosting guarded order_id warehouse_id) product_ids db (guarded-idle idle)

  pub commit_idle : IsIdle → commit none command db ≡ ok db
  commit_idle idle =
      commit-each
      ∙ each_idle ship guarded order_id warehouse_id _ MovementType.commit
          (commit-IsPosting guarded order_id warehouse_id) product_ids db (guarded-idle idle)

  abbrev pub AllEnough : Type 0
  AllEnough =
      (p : Uuid)
      → contains product_ids p ≡ true
      → Enough (held order_id p db) (stock warehouse_id p db)

  pub release_succeeds : AllEnough → is_ok (release none command db) ≡ true
  release_succeeds enough = rw release-each (
      each_succeeds give_back guarded order_id warehouse_id _
        (posting-IsEnding give_back guarded order_id warehouse_id _ MovementType.release
          (release-IsPosting guarded order_id warehouse_id))
        product_ids db (λ p c. inr (guarded-fits p c)) enough)

  pub commit_succeeds : AllEnough → is_ok (commit none command db) ≡ true
  commit_succeeds enough = rw commit-each (
      each_succeeds ship guarded order_id warehouse_id _
        (posting-IsEnding ship guarded order_id warehouse_id _ MovementType.commit
          (commit-IsPosting guarded order_id warehouse_id))
        product_ids db (λ p c. inr (guarded-fits p c)) enough)
