-- ===== src/Allocation/Inventory/Reserve.antt =====
-- What `reserve` does to the stock and to the ledger, and when it throws.
use canals.Prelude.{
  ℕ, ◌≡◌, ◌≢◌, refl, ◌∙◌, sym, subst, leb, filter_nil, List, [], ◌∷◌, Option, none, some, Bool,
  true, false, ◌==◌, ◌⊎◌, inl, inr, if◌then◌else◌, arith, is_some, All, contains, IsDistinct,
  filter,
}
use canals.Errors.{Uuid, ok, err, ok_of_is_ok, insufficient_stock, ok-injective}
use canals.Store.{InventoryRow, Database}
use canals.Allocation.Inventory.{
  OrderLine, ReserveCommand, is_unmet, reserve_lines, reserve_under_lock, reserve, product_ids_of,
  held, set_reservation,
}
use canals.Allocation.Inventory.Post.{stock}
use canals.Allocation.Inventory.Lines.{
  wanted, set_aside_wanted, or_else, Agrees, LinesEffect, lines_effect, lines_succeed,
}

-- The lines of an order that a warehouse cannot serve.
abbrev pub unmet_lines : Uuid → Database → List OrderLine → List OrderLine
unmet_lines w db lines = filter (is_unmet (λ p. db.inventory w p)) lines

unfoldable pub locked : Uuid → List Uuid → Database → Uuid → Option InventoryRow
locked w ids db p = if contains ids p then db.inventory w p else none

abbrev Covers : List Uuid → List OrderLine → Type 0
Covers ids lines = All (λ (line : OrderLine). contains ids line.product_id ≡ true) lines

Covers-of :
    (ids : List Uuid) (lines : List OrderLine)
    → ((p : Uuid) → contains (product_ids_of lines) p ≡ true → contains ids p ≡ true)
    → Covers ids lines
Covers-of ids [] h = tt
Covers-of ids (line ∷ rest) h =
    (h line.product_id (ground arith), Covers-of ids rest (λ p c. h p (ground arith)))

-- With the locks granted, the rows of the lines' products are those of the table.
module _ (w : Uuid) (ids : List Uuid) (db : Database) where
  unmet-locked :
      (lines : List OrderLine)
      → Covers ids lines
      → filter (is_unmet (locked w ids db)) lines ≡ unmet_lines w db lines
  unfolding locked
  unmet-locked [] c = refl
  unmet-locked (line ∷ lines) (c, cs) = ground (arith, unmet-locked lines cs)

  Agrees-locked :
      (lines : List OrderLine) → Covers ids lines → All (Agrees (locked w ids db) w db) lines
  unfolding locked
  Agrees-locked [] c = tt
  Agrees-locked (line ∷ lines) (c, cs) = (ground arith, Agrees-locked lines cs)

module _ (command : ReserveCommand) (db : Database) where
  open command use {order_id, warehouse_id, lines}

  lines_run :
      IsDistinct (product_ids_of lines)
      → unmet_lines warehouse_id db lines ≡ []
      → let rows = locked warehouse_id (product_ids_of lines) db in
        (mid : Database) × (reserve_lines rows order_id warehouse_id lines db ≡ ok mid)
        × LinesEffect rows order_id warehouse_id lines db mid
  lines_run distinct h =
      let ids = product_ids_of lines in
      let rows = locked warehouse_id ids db in
      let covers = Covers-of ids lines (λ p c. c) in
      let met =
        filter_nil (is_unmet rows) lines (unmet-locked warehouse_id ids db lines covers ∙ h) in
      let agree = Agrees-locked warehouse_id ids db lines covers in
      let good = lines_succeed rows order_id warehouse_id lines db met agree distinct in
      let (mid, runs) = ok_of_is_ok _ good in
      (mid, runs, lines_effect rows order_id warehouse_id lines db mid met agree distinct runs)

  reserve-unlocked :
      reserve none command db
      ≡ reserve_under_lock (locked warehouse_id (product_ids_of lines) db) command db
  unfolding reserve locked
  reserve-unlocked = refl

  reserve-refused :
      (l : OrderLine) (ls : List OrderLine)
      → unmet_lines warehouse_id db lines ≡ l ∷ ls
      → reserve none command db ≡ err (insufficient_stock (product_ids_of (l ∷ ls)))
  unfolding reserve_under_lock
  reserve-refused l ls h =
      reserve-unlocked
      ∙ under (
          unmet-locked warehouse_id (product_ids_of lines) db lines
            (Covers-of (product_ids_of lines) lines (λ p c. c))
          ∙ h)
    where
      under :
          filter (is_unmet (locked warehouse_id (product_ids_of lines) db)) lines ≡ l ∷ ls
          → reserve_under_lock (locked warehouse_id (product_ids_of lines) db) command db
            ≡ err (insufficient_stock (product_ids_of (l ∷ ls)))
      under e = rw (reserve_under_lock, e)

  reserve-granted :
      (mid : Database)
      → unmet_lines warehouse_id db lines ≡ []
      → reserve_lines (locked warehouse_id (product_ids_of lines) db) order_id warehouse_id lines db
        ≡ ok mid
      → reserve none command db ≡ ok (set_reservation order_id warehouse_id mid)
  unfolding reserve_under_lock
  reserve-granted mid h runs =
      reserve-unlocked
      ∙ under (
          unmet-locked warehouse_id (product_ids_of lines) db lines
            (Covers-of (product_ids_of lines) lines (λ p c. c))
          ∙ h)
    where
      under :
          filter (is_unmet (locked warehouse_id (product_ids_of lines) db)) lines ≡ []
          → reserve_under_lock (locked warehouse_id (product_ids_of lines) db) command db
            ≡ ok (set_reservation order_id warehouse_id mid)
      under e = rw (reserve_under_lock, e) (rw runs)

  -- What a granted reservation has done.
  pub record Reserved (db' : Database) : Type 0 where
    -- Each product that is asked for has moved from available to reserved, at this warehouse only.
    pub stocks :
        (w' p' : Uuid)
        → stock w' p' db' ≡ (
            if warehouse_id == w'
            then set_aside_wanted (wanted p' lines) (stock w' p' db)
            else stock w' p' db)
    -- The ledger holds each line's quantity for the order.
    pub holds : (p' : Uuid) → held order_id p' db' ≡ or_else (wanted p' lines) (held order_id p' db)
    -- The order points to the warehouse and has its deadline; no other row is touched.
    pub orders : db'.orders ≡ (set_reservation order_id warehouse_id db).orders
    pub order_items : db'.order_items ≡ db.order_items
    pub payments : db'.payments ≡ db.payments
    pub jobs : db'.jobs ≡ db.jobs
    pub clock : db'.clock ≡ db.clock

  Reserved-of :
      (mid : Database)
      → LinesEffect
          (locked warehouse_id (product_ids_of lines) db)
          order_id
          warehouse_id
          lines
          db
          mid
      → Reserved (set_reservation order_id warehouse_id mid)
  unfolding set_reservation held
  Reserved-of mid e = record {
    stocks = λ w' p'. e.stocks w' p';
    holds = λ p'. e.holds p';
    orders = ground (arith, e.rest);
    order_items = e.rest.order_items;
    payments = e.rest.payments;
    jobs = e.rest.jobs;
    clock = e.rest.clock;
  }

-- With the row locks granted and no product named twice, `reserve` either has every line's stock at
-- the warehouse and moves all of it, or throws InsufficientStockError with exactly the products that
-- cannot be met, in the order of the lines: it never half-reserves and never meets a CHECK.
pub reserve-total :
    (command : ReserveCommand) (db : Database)
    → IsDistinct (product_ids_of command.lines)
    → ((unmet_lines command.warehouse_id db command.lines ≡ [])
        × (db' : Database) × (reserve none command db ≡ ok db')
        × Reserved command db db')
      ⊎ ((unmet_lines command.warehouse_id db command.lines ≢ [])
          × (reserve none command db
              ≡ err (
                  insufficient_stock
                    (product_ids_of (unmet_lines command.warehouse_id db command.lines)))))
reserve-total command db distinct = split (unmet_lines command.warehouse_id db command.lines) refl
  where
    split :
        (ls : List OrderLine)
        → unmet_lines command.warehouse_id db command.lines ≡ ls
        → ((unmet_lines command.warehouse_id db command.lines ≡ [])
            × (db' : Database) × (reserve none command db ≡ ok db')
            × Reserved command db db')
          ⊎ ((unmet_lines command.warehouse_id db command.lines ≢ [])
              × (reserve none command db
                  ≡ err (
                      insufficient_stock
                        (product_ids_of (unmet_lines command.warehouse_id db command.lines)))))
    split [] h =
        let (mid, runs, effect) = lines_run command db distinct h in
        inl (h, _, reserve-granted command db mid h runs, Reserved-of command db mid effect)
    split (l ∷ ls) h = inr (λ e. cc, rw h (reserve-refused command db l ls h))

-- The stock covers what is asked of a product.
abbrev pub is_covered : Option ℕ → Option (ℕ × ℕ) → Bool
is_covered none s = true
is_covered (some q) none = false
is_covered (some q) (some (a, r)) = leb q a

pub unmet_nil-is_covered :
    (w : Uuid) (db : Database) (lines : List OrderLine) (p : Uuid)
    → unmet_lines w db lines ≡ []
    → is_covered (wanted p lines) (stock w p db) ≡ true
unfolding wanted
unmet_nil-is_covered w db [] p h = refl
unmet_nil-is_covered w db (line ∷ lines) p h = ground (arith, unmet_nil-is_covered w db lines p)

-- A granted reservation was covered, and did what `Reserved` says.
pub reserve-Reserved :
    (command : ReserveCommand) (db db' : Database)
    → IsDistinct (product_ids_of command.lines)
    → reserve none command db ≡ ok db'
    → (unmet_lines command.warehouse_id db command.lines ≡ []) × Reserved command db db'
reserve-Reserved command db db' distinct h = elim (reserve-total command db distinct) [
  | inl (met, made, runs, done) ↦
      (met, subst (Reserved command db) (ok-injective (sym runs ∙ h)) done)
  | inr (unmet, refused) ↦ absurd (cc (h, refused))
]

pub contains-wanted :
    (p : Uuid) (lines : List OrderLine)
    → contains (product_ids_of lines) p ≡ is_some (wanted p lines)
unfolding wanted
contains-wanted p [] = refl
contains-wanted p (line ∷ lines) = ground (arith, contains-wanted p lines)
