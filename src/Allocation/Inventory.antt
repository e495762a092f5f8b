-- ===== src/Allocation/Inventory.antt =====
-- src/application/allocation/inventory.service.ts and helpers/inventory.helpers.ts. Each method
-- runs in the caller's transaction: from a database it gives the changed one, or throws. The
-- argument `lock` is what taking the row locks raises, `none` when they are all granted.
pub mod Post
pub mod Lines
pub mod Reserve
pub mod Ending
pub mod Release
pub mod RoundTrip
pub mod Ledger
use canals.Prelude.{
  ℕ, ◌+◌, ◌*◌, filter, contains, map, List, [], ◌∷◌, Option, none, some, Bool, true, false, ◌&&◌,
  ◌||◌, ◌==◌, ltb, if◌then◌else◌,
}
use canals.Prelude.Int.{ℤ, pos, negsuc, ◌+ℤ◌, ◌-ℤ◌, pos_part, neg_part}
use canals.Prelude.Rows.{update_row}
use canals.Errors.{
  Uuid, Result, ok, err, Error, SqlState, lock_not_available, check_violation, query_failed,
  insufficient_stock, type_error, ◌>>=◌,
}
use canals.Store.{InventoryRow, MovementType, Movement, OrderRow, Database}

pub record OrderLine : Type 0 where
  pub product_id : Uuid
  pub quantity : ℕ

pub record ReserveCommand : Type 0 where
  pub order_id : Uuid
  pub warehouse_id : Uuid
  pub lines : List OrderLine

pub record ReleaseCommand : Type 0 where
  pub order_id : Uuid
  pub warehouse_id : Uuid
  pub product_ids : List Uuid

-- 15 minutes, in the clock's milliseconds.
abbrev pub reservation_ttl : ℕ
reservation_ttl = 15 * 60 * 1000

-- The rows as they were when the locks were granted.
unfoldable pub lock_inventory_rows :
    Option SqlState → Uuid → List Uuid → Database → Result (Uuid → Option InventoryRow)
lock_inventory_rows (some state) warehouse_id product_ids db = err (query_failed state)
lock_inventory_rows none warehouse_id product_ids db =
    ok (λ p. if contains product_ids p then db.inventory warehouse_id p else none)

-- Rows of the table, one of them written.
unfoldable pub put :
    Uuid
    → Uuid
    → InventoryRow
    → (Uuid → Uuid → Option InventoryRow)
    → Uuid
    → Uuid
    → Option InventoryRow
put w p row inventory w' p' = if w == w' && p == p' then some row else inventory w' p'

abbrev is_negative : ℤ → Bool
is_negative (pos _) = false
is_negative (negsuc _) = true

-- The CHECK constraints of the table refuse a negative balance; no row, no change.
unfoldable pub update_inventory_balances : Uuid → Uuid → ℤ → ℤ → Database → Result Database
update_inventory_balances w p available_after reserved_after db = elim (db.inventory w p) [
  | none ↦ ok db
  | some row ↦
      if is_negative available_after || is_negative reserved_after
      then err (query_failed check_violation)
      else ok (record db {
        inventory =
            put w p
              (record row {
                quantity_available = pos_part available_after;
                quantity_reserved = pos_part reserved_after;
                version = row.version + 1;
              })
              db.inventory;
      })
]

unfoldable pub insert_movement : Movement → Database → Database
insert_movement m db = record db { movements = m ∷ db.movements }

-- The two writes that each of the three methods makes for a product.
unfoldable pub post : Uuid → Uuid → Uuid → MovementType → ℤ → ℤ → ℤ → Database → Result Database
unfolding update_inventory_balances insert_movement
post order_id w p type quantity_delta available_after reserved_after db = do
  db' ← update_inventory_balances w p available_after reserved_after db
  ok (
      insert_movement
        (record {
          warehouse_id = w;
          product_id = p;
          order_id = some order_id;
          type = type;
          quantity_delta = quantity_delta;
          available_after = available_after;
          reserved_after = reserved_after;
        })
        db')

abbrev is_lock_timeout : Error → Bool
is_lock_timeout (query_failed lock_not_available) = true
is_lock_timeout _ = false

-- `!row || row.quantity_available < line.quantity`
abbrev pub is_unmet : (Uuid → Option InventoryRow) → OrderLine → Bool
is_unmet rows line = elim (rows line.product_id) [
  | none ↦ true
  | some row ↦ ltb row.quantity_available line.quantity
]

unfoldable pub reserve_line :
    (Uuid → Option InventoryRow) → Uuid → Uuid → OrderLine → Database → Result Database
unfolding ◌+ℤ◌ ◌-ℤ◌
reserve_line rows order_id w line db = elim (rows line.product_id) [
  | none ↦ err type_error
  | some row ↦
      post order_id w line.product_id MovementType.reserve (pos 0 -ℤ pos line.quantity)
        (pos row.quantity_available -ℤ pos line.quantity)
        (pos row.quantity_reserved +ℤ pos line.quantity) db
]

unfoldable pub reserve_lines :
    (Uuid → Option InventoryRow) → Uuid → Uuid → List OrderLine → Database → Result Database
reserve_lines rows order_id w [] db = ok db
reserve_lines rows order_id w (line ∷ lines) db = do
  db' ← reserve_line rows order_id w line db
  reserve_lines rows order_id w lines db'

-- `UPDATE orders SET warehouse_id, reservation_expires_at WHERE id`
unfoldable pub set_reservation : Uuid → Uuid → Database → Database
set_reservation order_id w db = record db {
  orders =
      update_row (λ (o : OrderRow). o.id) order_id
        (λ o. record o {
          warehouse_id = some w;
          reservation_expires_at = some (db.clock + reservation_ttl);
        })
        db.orders;
}

unfoldable pub reserve_under_lock :
    (Uuid → Option InventoryRow) → ReserveCommand → Database → Result Database
unfolding reserve_lines set_reservation
reserve_under_lock rows command db =
    elim (map (λ (line : OrderLine). line.product_id) (filter (is_unmet rows) command.lines)) [
      | [] ↦ do
        db' ← reserve_lines rows command.order_id command.warehouse_id command.lines db
        ok (set_reservation command.order_id command.warehouse_id db')
      | p ∷ ps ↦ err (insufficient_stock (p ∷ ps))
    ]

abbrev pub product_ids_of : List OrderLine → List Uuid
product_ids_of lines = map (λ (line : OrderLine). line.product_id) lines

unfoldable pub reserve : Option SqlState → ReserveCommand → Database → Result Database
unfolding lock_inventory_rows reserve_under_lock
reserve lock command db =
    elim (lock_inventory_rows lock command.warehouse_id (product_ids_of command.lines) db) [
      | err e ↦
          if is_lock_timeout e
          then err (insufficient_stock (product_ids_of command.lines))
          else err e
      | ok rows ↦ reserve_under_lock rows command db
    ]

abbrev is_of : Uuid → Uuid → Movement → Bool
is_of order_id p m = elim m.order_id [ none ↦ false | some o ↦ o == order_id ] && m.product_id == p

-- `… WHERE order_id AND product_id ORDER BY id DESC LIMIT 1`
unfoldable pub latest_movement : Uuid → Uuid → List Movement → Option Movement
latest_movement order_id p [] = none
latest_movement order_id p (m ∷ ms) =
    if is_of order_id p m then some m else latest_movement order_id p ms

-- `RELEASE` and `COMMIT` end a reservation.
abbrev pub is_ended : MovementType → Bool
is_ended MovementType.release = true
is_ended MovementType.commit = true
is_ended _ = false

abbrev pub held_by : Option Movement → Option ℕ
held_by none = none
held_by (some m) =
    if is_ended m.type then none else some (pos_part m.quantity_delta + neg_part m.quantity_delta)

-- What the latest movement holds for the order: `Math.abs(latest.quantity_delta)`, and `none` where
-- `release` and `commit` skip the product.
unfoldable pub held : Uuid → Uuid → Database → Option ℕ
unfolding latest_movement
held order_id p db = held_by (latest_movement order_id p db.movements)

unfoldable pub release_product :
    (Uuid → Option InventoryRow) → Uuid → Uuid → Uuid → Database → Result Database
unfolding held ◌+ℤ◌ ◌-ℤ◌
release_product rows order_id w p db = elim (held order_id p db) [
  | none ↦ ok db
  | some q ↦ elim (rows p) [
    | none ↦ ok db
    | some row ↦
        post order_id w p MovementType.release (pos q) (pos row.quantity_available +ℤ pos q)
          (pos row.quantity_reserved -ℤ pos q) db
  ]
]

unfoldable pub release_products :
    (Uuid → Option InventoryRow) → Uuid → Uuid → List Uuid → Database → Result Database
release_products rows order_id w [] db = ok db
release_products rows order_id w (p ∷ ps) db = do
  db' ← release_product rows order_id w p db
  release_products rows order_id w ps db'

unfoldable pub release : Option SqlState → ReleaseCommand → Database → Result Database
unfolding lock_inventory_rows release_products
release lock command db = do
  rows ← lock_inventory_rows lock command.warehouse_id command.product_ids db
  release_products rows command.order_id command.warehouse_id command.product_ids db

-- The available balance is written back as it was: the units left the pool when they were reserved.
unfoldable pub commit_product :
    (Uuid → Option InventoryRow) → Uuid → Uuid → Uuid → Database → Result Database
unfolding held ◌-ℤ◌
commit_product rows order_id w p db = elim (held order_id p db) [
  | none ↦ ok db
  | some q ↦ elim (rows p) [
    | none ↦ ok db
    | some row ↦
        post order_id w p MovementType.commit (pos 0) (pos row.quantity_available)
          (pos row.quantity_reserved -ℤ pos q) db
  ]
]

unfoldable pub commit_products :
    (Uuid → Option InventoryRow) → Uuid → Uuid → List Uuid → Database → Result Database
commit_products rows order_id w [] db = ok db
commit_products rows order_id w (p ∷ ps) db = do
  db' ← commit_product rows order_id w p db
  commit_products rows order_id w ps db'

unfoldable pub commit : Option SqlState → ReleaseCommand → Database → Result Database
unfolding lock_inventory_rows commit_products
commit lock command db = do
  rows ← lock_inventory_rows lock command.warehouse_id command.product_ids db
  commit_products rows command.order_id command.warehouse_id command.product_ids db
