-- ===== src/Allocation/Inventory/Ledger.antt =====
-- src/infrastructure/database/sql/verify-ledger.sql: every balance is the snapshot that its latest
-- movement took. The three methods keep that so, which is what the ledger check looks for.
use canals.Prelude.{
  ℕ, ◌≡◌, refl, subst, List, [], ◌∷◌, Option, none, some, Bool, true, ◌&&◌, ◌==◌, inl, inr,
  if◌then◌else◌, arith, Option-cases, filter,
}
use canals.Prelude.Int.{ℤ, pos_part, neg_part}
use canals.Errors.{Uuid, SqlState, ok, >>=-eq-ok, ok-injective}
use canals.Store.{InventoryRow, MovementType, Movement, Database}
use canals.Allocation.Inventory.{
  OrderLine, ReserveCommand, ReleaseCommand, put, post, reserve_line, reserve_lines,
  reserve_under_lock, is_unmet, reserve, release_product, release_products, release, commit_product,
  commit_products, commit, set_reservation, product_ids_of, held,
}

-- `DISTINCT ON (warehouse_id, product_id) … ORDER BY id DESC`
unfoldable pub latest_at : Uuid → Uuid → List Movement → Option Movement
latest_at w p [] = none
latest_at w p (m ∷ ms) =
    if m.warehouse_id == w && m.product_id == p then some m else latest_at w p ms

abbrev is_pos : ℕ → ℤ → Bool
is_pos n z = pos_part z == n && neg_part z == 0

-- `false` where the query would report the row.
unfoldable pub is_replayed : Option Movement → Option InventoryRow → Bool
is_replayed none row = true
is_replayed (some m) none = true
is_replayed (some m) (some row) =
    is_pos row.quantity_available m.available_after && is_pos row.quantity_reserved m.reserved_after

-- The query reports nothing.
abbrev pub IsReplayed : Database → Type 0
IsReplayed db = (w p : Uuid) → is_replayed (latest_at w p db.movements) (db.inventory w p) ≡ true

module _ (o w p : Uuid) (type : MovementType) (d a r : ℤ) (db db' : Database) where
  post-IsReplayed : IsReplayed db → post o w p type d a r db ≡ ok db' → IsReplayed db'
  unfolding post put latest_at is_replayed
  post-IsReplayed h e w' p' = ground (arith, h w' p')

module _ (rows : Uuid → Option InventoryRow) (o w : Uuid) where
  reserve_line-IsReplayed :
      (line : OrderLine) (db db' : Database)
      → IsReplayed db
      → reserve_line rows o w line db ≡ ok db'
      → IsReplayed db'
  unfolding reserve_line
  reserve_line-IsReplayed line db db' h e = elim (Option-cases (rows line.product_id)) [
    | inl missing ↦ absurd (cc (rw (missing, reserve_line) at e))
    | inr (row, found) ↦ post-IsReplayed _ _ _ _ _ _ _ _ _ h (rw (found, reserve_line) at e)
  ]

  reserve_lines-IsReplayed :
      (lines : List OrderLine) (db db' : Database)
      → IsReplayed db
      → reserve_lines rows o w lines db ≡ ok db'
      → IsReplayed db'
  unfolding reserve_lines
  reserve_lines-IsReplayed [] db db' h e = subst IsReplayed (ok-injective e) h
  reserve_lines-IsReplayed (line ∷ lines) db db' h e =
      let (mid, first, later) =
        >>=-eq-ok (reserve_line rows o w line db) (reserve_lines rows o w lines) e in
      reserve_lines-IsReplayed lines mid db' (reserve_line-IsReplayed line db mid h first) later

  release_product-IsReplayed :
      (p : Uuid) (db db' : Database)
      → IsReplayed db
      → release_product rows o w p db ≡ ok db'
      → IsReplayed db'
  unfolding release_product
  release_product-IsReplayed p db db' h e = elim (Option-cases (held o p db)) [
    | inl free ↦ subst IsReplayed (ok-injective (rw (free, release_product) at e)) h
    | inr (q, kept) ↦ elim (Option-cases (rows p)) [
      | inl missing ↦ subst IsReplayed (ok-injective (rw (kept, missing, release_product) at e)) h
      | inr (row, found) ↦
          post-IsReplayed _ _ _ _ _ _ _ _ _ h (rw (kept, found, release_product) at e)
    ]
  ]

  commit_product-IsReplayed :
      (p : Uuid) (db db' : Database)
      → IsReplayed db
      → commit_product rows o w p db ≡ ok db'
      → IsReplayed db'
  unfolding commit_product
  commit_product-IsReplayed p db db' h e = elim (Option-cases (held o p db)) [
    | inl free ↦ subst IsReplayed (ok-injective (rw (free, commit_product) at e)) h
    | inr (q, kept) ↦ elim (Option-cases (rows p)) [
      | inl missing ↦ subst IsReplayed (ok-injective (rw (kept, missing, commit_product) at e)) h
      | inr (row, found) ↦
          post-IsReplayed _ _ _ _ _ _ _ _ _ h (rw (kept, found, commit_product) at e)
    ]
  ]

  release_products-IsReplayed :
      (ps : List Uuid) (db db' : Database)
      → IsReplayed db
      → release_products rows o w ps db ≡ ok db'
      → IsReplayed db'
  unfolding release_products
  release_products-IsReplayed [] db db' h e = subst IsReplayed (ok-injective e) h
  release_products-IsReplayed (p ∷ ps) db db' h e =
      let (mid, first, later) =
        >>=-eq-ok (release_product rows o w p db) (release_products rows o w ps) e in
      release_products-IsReplayed ps mid db' (release_product-IsReplayed p db mid h first) later

  commit_products-IsReplayed :
      (ps : List Uuid) (db db' : Database)
      → IsReplayed db
      → commit_products rows o w ps db ≡ ok db'
      → IsReplayed db'
  unfolding commit_products
  commit_products-IsReplayed [] db db' h e = subst IsReplayed (ok-injective e) h
  commit_products-IsReplayed (p ∷ ps) db db' h e =
      let (mid, first, later) =
        >>=-eq-ok (commit_product rows o w p db) (commit_products rows o w ps) e in
      commit_products-IsReplayed ps mid db' (commit_product-IsReplayed p db mid h first) later

reserve_under_lock-IsReplayed :
    (rows : Uuid → Option InventoryRow) (command : ReserveCommand) (db db' : Database)
    → IsReplayed db
    → reserve_under_lock rows command db ≡ ok db'
    → IsReplayed db'
unfolding reserve_under_lock
reserve_under_lock-IsReplayed rows command db db' h e =
    split (product_ids_of (filter (is_unmet rows) command.lines)) refl
  where
    split :
        (ps : List Uuid)
        → product_ids_of (filter (is_unmet rows) command.lines) ≡ ps
        → IsReplayed db'
    split [] met =
        let (mid, runs, stamped) =
          >>=-eq-ok (reserve_lines rows command.order_id command.warehouse_id command.lines db)
            (λ db'. ok (set_reservation command.order_id command.warehouse_id db'))
            (rw (met, reserve_under_lock) at e) in
        let same =
          reserve_lines-IsReplayed rows command.order_id command.warehouse_id command.lines db mid h
            runs in
        subst IsReplayed (ok-injective stamped) (λ w p. same w p)
    split (p ∷ ps) unmet = absurd (cc (rw (unmet, reserve_under_lock) at e))

reserve-IsReplayed :
    (lock : Option SqlState) (command : ReserveCommand) (db db' : Database)
    → IsReplayed db
    → reserve lock command db ≡ ok db'
    → IsReplayed db'
unfolding reserve
reserve-IsReplayed none command db db' h e = reserve_under_lock-IsReplayed _ command db db' h e
reserve-IsReplayed (some state) command db db' h e = ground arith

release-IsReplayed :
    (lock : Option SqlState) (command : ReleaseCommand) (db db' : Database)
    → IsReplayed db
    → release lock command db ≡ ok db'
    → IsReplayed db'
unfolding release
release-IsReplayed none command db db' h e =
    release_products-IsReplayed _ command.order_id command.warehouse_id command.product_ids db db' h
      e
release-IsReplayed (some state) command db db' h e = absurd (cc e)

commit-IsReplayed :
    (lock : Option SqlState) (command : ReleaseCommand) (db db' : Database)
    → IsReplayed db
    → commit lock command db ≡ ok db'
    → IsReplayed db'
unfolding commit
commit-IsReplayed none command db db' h e =
    commit_products-IsReplayed _ command.order_id command.warehouse_id command.product_ids db db' h
      e
commit-IsReplayed (some state) command db db' h e = absurd (cc e)

-- One finished call of a method, under whatever its locks raised.
pub data Call : Database → Database → Type 0 where
  reserving :
      {db db' : Database} (lock : Option SqlState) (command : ReserveCommand)
      → reserve lock command db ≡ ok db'
      → Call db db'
  releasing :
      {db db' : Database} (lock : Option SqlState) (command : ReleaseCommand)
      → release lock command db ≡ ok db'
      → Call db db'
  committing :
      {db db' : Database} (lock : Option SqlState) (command : ReleaseCommand)
      → commit lock command db ≡ ok db'
      → Call db db'

pub data Calls (db : Database) : Database → Type 0 where
  start : Calls db db
  after : {mid db' : Database} → Calls db mid → Call mid db' → Calls db db'

Call-IsReplayed : {db db' : Database} → Call db db' → IsReplayed db → IsReplayed db'
Call-IsReplayed (reserving lock command e) h = reserve-IsReplayed lock command _ _ h e
Call-IsReplayed (releasing lock command e) h = release-IsReplayed lock command _ _ h e
Call-IsReplayed (committing lock command e) h = commit-IsReplayed lock command _ _ h e

-- However reserve, release and commit follow one another, for any orders, warehouses and products
-- (repeated ones too), every inventory row keeps agreeing with its latest movement: the query of
-- verify-ledger.sql goes on reporting nothing.
pub Calls-IsReplayed : {db db' : Database} → Calls db db' → IsReplayed db → IsReplayed db'
Calls-IsReplayed start h = h
Calls-IsReplayed (after calls call) h = Call-IsReplayed call (Calls-IsReplayed calls h)
