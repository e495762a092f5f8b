-- ===== src/Allocation/Inventory/Lines.antt =====
-- What `reserve` does line by line, once its lines are met.
use canals.Prelude.{
  ℕ, ◌+◌, ◌-◌, ◌≤◌, ◌≡◌, refl, List, [], ◌∷◌, Option, none, some, true, false, ◌&&◌, ◌==◌, inl, inr,
  if◌then◌else◌, arith, All, contains, IsDistinct, Option-cases,
}
use mathlib.Core.Option
use canals.Prelude.Int.{pos, ◌+ℤ◌, ◌-ℤ◌}
use canals.Errors.{Uuid, ok, is_ok, ok_of_is_ok, >>=-eq-ok}
use canals.Store.{InventoryRow, MovementType, Database}
use canals.Allocation.Inventory.{
  OrderLine, is_unmet, reserve_line, reserve_lines, product_ids_of, held, post,
}
use canals.Allocation.Inventory.Post.{
  stock, balances, KeepsRest, KeepsRest-trans, stock-post, held-post, post-KeepsRest,
}

-- The quantity that the lines ask of a product.
unfoldable pub wanted : Uuid → List OrderLine → Option ℕ
wanted p [] = none
wanted p (line ∷ lines) = if line.product_id == p then some line.quantity else wanted p lines

-- Units moved from the available balance to the reserved one.
abbrev pub set_aside : ℕ → ℕ × ℕ → ℕ × ℕ
set_aside q (a, r) = (a - q, r + q)

abbrev pub set_aside_wanted : Option ℕ → Option (ℕ × ℕ) → Option (ℕ × ℕ)
set_aside_wanted none s = s
set_aside_wanted (some q) s = Option.map (set_aside q) s

abbrev pub or_else {ℓ} : {A : Type ℓ} → Option A → Option A → Option A
or_else none b = b
or_else (some a) b = some a

abbrev Met : (Uuid → Option InventoryRow) → OrderLine → Type 0
Met rows line = is_unmet rows line ≡ false

-- The row that was read under the lock is that of the table, as far as balances go.
abbrev pub Agrees : (Uuid → Option InventoryRow) → Uuid → Database → OrderLine → Type 0
Agrees rows w db line = Option.map balances (rows line.product_id) ≡ stock w line.product_id db

wanted-none :
    (p : Uuid) (lines : List OrderLine)
    → contains (product_ids_of lines) p ≡ false
    → wanted p lines ≡ none
unfolding wanted
wanted-none p [] h = refl
wanted-none p (line ∷ lines) h = ground (arith, wanted-none p lines)

module _ (rows : Uuid → Option InventoryRow) (o w : Uuid) where
  line_posts :
      (line : OrderLine) (db db' : Database)
      → Met rows line
      → reserve_line rows o w line db ≡ ok db'
      → (row : InventoryRow) × (rows line.product_id ≡ some row)
        × (line.quantity ≤ row.quantity_available)
        × (post o w line.product_id MovementType.reserve
              (pos 0 -ℤ pos line.quantity)
              (pos row.quantity_available -ℤ pos line.quantity)
              (pos row.quantity_reserved +ℤ pos line.quantity)
              db
            ≡ ok db')
  unfolding reserve_line
  line_posts line db db' met h = elim (Option-cases (rows line.product_id)) [
    | inl missing ↦ ground arith
    | inr (row, found) ↦ (row, found, ground arith, rw (found, reserve_line) at h)
  ]

  -- One line: its product moves from available to reserved, and its movement holds its quantity.
  record LineEffect (line : OrderLine) (db db' : Database) : Type 0 where
    stocks :
        (w' p' : Uuid)
        → stock w' p' db' ≡ (
            if w == w' && line.product_id == p'
            then Option.map (set_aside line.quantity) (stock w' p' db)
            else stock w' p' db)
    holds :
        (p' : Uuid)
        → held o p' db' ≡ (if line.product_id == p' then some line.quantity else held o p' db)
    rest : KeepsRest db db'

  line_effect :
      (line : OrderLine) (db db' : Database)
      → Met rows line
      → Agrees rows w db line
      → reserve_line rows o w line db ≡ ok db'
      → LineEffect line db db'
  unfolding ◌-ℤ◌ ◌+ℤ◌
  line_effect line db db' met agree h =
      let (row, found, enough, posted) = line_posts line db db' met h in
      record {
        stocks = λ w' p'. ground (arith, stock-post _ _ _ _ _ _ _ _ _ posted w' p');
        holds = λ p'. ground (arith, held-post _ _ _ _ _ _ _ _ _ posted o p');
        rest = post-KeepsRest _ _ _ _ _ _ _ _ _ posted;
      }

  Agrees-keep :
      (line : OrderLine) (db db' : Database) (lines : List OrderLine)
      → LineEffect line db db'
      → contains (product_ids_of lines) line.product_id ≡ false
      → All (Agrees rows w db) lines
      → All (Agrees rows w db') lines
  Agrees-keep line db db' [] e h k = tt
  Agrees-keep line db db' (l ∷ ls) e h (k, ks) =
      (ground (arith, e.stocks w l.product_id), Agrees-keep line db db' ls e (ground arith) ks)

  -- All the lines: each product that is asked for is moved once, the others stay.
  pub record LinesEffect (lines : List OrderLine) (db db' : Database) : Type 0 where
    pub stocks :
        (w' p' : Uuid)
        → stock w' p' db' ≡ (
            if w == w' then set_aside_wanted (wanted p' lines) (stock w' p' db) else stock w' p' db)
    pub holds : (p' : Uuid) → held o p' db' ≡ or_else (wanted p' lines) (held o p' db)
    pub rest : KeepsRest db db'

  pub lines_effect :
      (lines : List OrderLine) (db db' : Database)
      → All (Met rows) lines
      → All (Agrees rows w db) lines
      → IsDistinct (product_ids_of lines)
      → reserve_lines rows o w lines db ≡ ok db'
      → LinesEffect lines db db'
  unfolding reserve_lines wanted
  lines_effect [] db db' met agree distinct h = record {
    stocks = λ w' p'. ground arith;
    holds = λ p'. ground arith;
    rest = ground arith;
  }
  lines_effect (line ∷ lines) db db' (m, met) (a, agree) (d, distinct) h =
      let (mid, first, later) =
        >>=-eq-ok (reserve_line rows o w line db) (reserve_lines rows o w lines) h in
      let one = line_effect line db mid m a first in
      let more =
        lines_effect lines mid db' met (Agrees-keep line db mid lines one d agree) distinct later in
      let fresh = wanted-none line.product_id lines d in
      record {
        stocks = λ w' p'. ground (arith, one.stocks w' p', more.stocks w' p', fresh);
        holds = λ p'. ground (arith, one.holds p', more.holds p', fresh);
        rest = KeepsRest-trans db mid db' one.rest more.rest;
      }

  line_succeeds :
      (line : OrderLine) (db : Database)
      → Met rows line
      → Agrees rows w db line
      → is_ok (reserve_line rows o w line db) ≡ true
  unfolding reserve_line post ◌-ℤ◌ ◌+ℤ◌
  line_succeeds line db met agree = ground arith

  pub lines_succeed :
      (lines : List OrderLine) (db : Database)
      → All (Met rows) lines
      → All (Agrees rows w db) lines
      → IsDistinct (product_ids_of lines)
      → is_ok (reserve_lines rows o w lines db) ≡ true
  unfolding reserve_lines
  lines_succeed [] db met agree distinct = refl
  lines_succeed (line ∷ lines) db (m, met) (a, agree) (d, distinct) =
      let (mid, first) = ok_of_is_ok (reserve_line rows o w line db) (line_succeeds line db m a) in
      let one = line_effect line db mid m a first in
      rw first (lines_succeed lines mid met (Agrees-keep line db mid lines one d agree) distinct)
