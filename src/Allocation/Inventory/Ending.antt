-- ===== src/Allocation/Inventory/Ending.antt =====
-- What `release` and `commit` do to the stock and to the ledger: one loop, two ways of writing a
-- product's balances.
use canals.Prelude.{
  ℕ, ◌+◌, ◌-◌, leb, ◌≤◌, ◌≡◌, refl, List, [], ◌∷◌, Option, none, some, Bool, true, ◌&&◌, ◌==◌, ◌⊎◌,
  inl, inr, if◌then◌else◌, arith, is_some, contains, Option-cases,
}
use mathlib.Core.Option
use canals.Prelude.Int.{ℤ, pos_part, neg_part}
use canals.Errors.{Uuid, Result, ok, is_ok, ok_of_is_ok, >>=-eq-ok, ◌>>=◌}
use canals.Store.{InventoryRow, MovementType, Database}
use canals.Allocation.Inventory.{is_ended, held, post}
use canals.Allocation.Inventory.Post.{
  stock, balances, KeepsRest, KeepsRest-trans, stock-post, held-post, post-KeepsRest, post_fits,
}

-- A held quantity given back to the pool, and one that has left the warehouse.
abbrev pub give_back : ℕ → ℕ × ℕ → ℕ × ℕ
give_back q (a, r) = (a + q, r - q)

abbrev pub ship : ℕ → ℕ × ℕ → ℕ × ℕ
ship q (a, r) = (a, r - q)

abbrev pub ended_stock : (ℕ → ℕ × ℕ → ℕ × ℕ) → Option ℕ → Option (ℕ × ℕ) → Option (ℕ × ℕ)
ended_stock move none s = s
ended_stock move (some q) s = Option.map (move q) s

-- The balances allow to take the held quantity off the reserved one.
abbrev pub is_enough : Option ℕ → Option (ℕ × ℕ) → Bool
is_enough none s = true
is_enough (some q) none = true
is_enough (some q) (some (a, r)) = leb q r

abbrev pub Enough : Option ℕ → Option (ℕ × ℕ) → Type 0
Enough h s = is_enough h s ≡ true

-- What ending the reservation of some products does.
pub record EndsEffect (move : ℕ → ℕ × ℕ → ℕ × ℕ) (o w : Uuid) (ps : List Uuid) (db db' : Database)
    : Type 0 where
  pub stocks :
      (w' p' : Uuid)
      → stock w' p' db' ≡ (
          if w == w' && contains ps p'
          then ended_stock move (held o p' db) (stock w' p' db)
          else stock w' p' db)
  pub holds :
      (o' p' : Uuid)
      → held o' p' db'
        ≡ (if o == o' && (contains ps p' && is_some (stock w p' db)) then none else held o' p' db)
  pub rest : KeepsRest db db'

unfoldable pub each : (Uuid → Database → Result Database) → List Uuid → Database → Result Database
each step [] db = ok db
each step (p ∷ ps) db = step p db >>= each step ps

module _ (move : ℕ → ℕ × ℕ → ℕ × ℕ) (rows : Uuid → Option InventoryRow) (o w : Uuid)
    (step : Uuid → Database → Result Database) where
  -- The row read under the lock is that of the table, or the product is no longer held.
  abbrev pub Fits : Uuid → Database → Type 0
  Fits p db = (held o p db ≡ none) ⊎ (Option.map balances (rows p) ≡ stock w p db)

  -- What the loop needs of one step.
  pub record IsEnding : Type 0 where
    pub effect :
        (p : Uuid) (db db' : Database)
        → Fits p db
        → step p db ≡ ok db'
        → EndsEffect move o w (p ∷ []) db db'
    pub succeeds :
        (p : Uuid) (db : Database)
        → Fits p db
        → Enough (held o p db) (stock w p db)
        → is_ok (step p db) ≡ true

  module _ (ending : IsEnding) where
    Fits-keep :
        (p : Uuid) (db db' : Database)
        → EndsEffect move o w (p ∷ []) db db'
        → (p' : Uuid) → Fits p db
        → Fits p' db
        → Fits p' db'
    Fits-keep p db db' e p' f f' = ground (arith, e.stocks w p', e.holds o p')

    Enough-keep :
        (p : Uuid) (db db' : Database)
        → EndsEffect move o w (p ∷ []) db db'
        → (p' : Uuid) → Enough (held o p' db) (stock w p' db)
        → Enough (held o p' db') (stock w p' db')
    Enough-keep p db db' e p' h = ground (arith, e.stocks w p', e.holds o p')

    pub each_effect :
        (ps : List Uuid) (db db' : Database)
        → ((p : Uuid) → contains ps p ≡ true → Fits p db)
        → each step ps db ≡ ok db'
        → EndsEffect move o w ps db db'
    unfolding each
    each_effect [] db db' fits h = record {
      stocks = λ w' p'. ground arith;
      holds = λ o' p'. ground arith;
      rest = ground arith;
    }
    each_effect (p ∷ ps) db db' fits h =
        let (mid, first, later) = >>=-eq-ok (step p db) (each step ps) h in
        let f = fits p (ground arith) in
        let one = ending.effect p db mid f first in
        let more =
          each_effect ps mid db' (λ p' c. Fits-keep p db mid one p' f (fits p' (ground arith)))
            later in
        record {
          stocks = λ w' p'. ground (arith, one.stocks w' p', one.holds o p', more.stocks w' p');
          holds = λ o' p'. ground (arith, one.holds o' p', one.stocks w p', more.holds o' p');
          rest = KeepsRest-trans db mid db' one.rest more.rest;
        }

    pub each_succeeds :
        (ps : List Uuid) (db : Database)
        → ((p : Uuid) → contains ps p ≡ true → Fits p db)
        → ((p : Uuid) → contains ps p ≡ true → Enough (held o p db) (stock w p db))
        → is_ok (each step ps db) ≡ true
    unfolding each
    each_succeeds [] db fits enough = refl
    each_succeeds (p ∷ ps) db fits enough =
        let f = fits p (ground arith) in
        let good = ending.succeeds p db f (enough p (ground arith)) in
        let (mid, first) = ok_of_is_ok (step p db) good in
        let one = ending.effect p db mid f first in
        rw first (
          each_succeeds ps mid (λ p' c. Fits-keep p db mid one p' f (fits p' (ground arith)))
            (λ p' c. Enough-keep p db mid one p' (enough p' (ground arith))))

-- A step that skips what is not held or has no row, and else posts the moved balances.
pub record IsPosting (move : ℕ → ℕ × ℕ → ℕ × ℕ) (rows : Uuid → Option InventoryRow) (o w : Uuid)
    (step : Uuid → Database → Result Database) (type : MovementType) : Type 0 where
  pub ended : is_ended type ≡ true
  pub skips : (p : Uuid) (db : Database) → held o p db ≡ none → step p db ≡ ok db
  pub misses : (p : Uuid) (db : Database) → rows p ≡ none → step p db ≡ ok db
  pub delta : ℕ → ℤ
  pub available : ℕ → InventoryRow → ℤ
  pub reserved : ℕ → InventoryRow → ℤ
  pub posts :
      (p : Uuid) (db : Database) (q : ℕ) (row : InventoryRow)
      → held o p db ≡ some q
      → rows p ≡ some row
      → step p db ≡ post o w p type (delta q) (available q row) (reserved q row) db
  pub moves :
      (q : ℕ) (row : InventoryRow)
      → (pos_part (available q row), pos_part (reserved q row)) ≡ move q (balances row)
  pub fits :
      (q : ℕ) (row : InventoryRow)
      → q ≤ row.quantity_reserved
      → (neg_part (available q row) ≡ 0) × (neg_part (reserved q row) ≡ 0)

module _ (move : ℕ → ℕ × ℕ → ℕ × ℕ) (rows : Uuid → Option InventoryRow) (o w : Uuid)
    (step : Uuid → Database → Result Database) (type : MovementType)
    (posting : IsPosting move rows o w step type) where
  idle_effect :
      (p : Uuid) (db db' : Database)
      → (held o p db ≡ none) ⊎ (stock w p db ≡ none)
      → db' ≡ db
      → EndsEffect move o w (p ∷ []) db db'
  idle_effect p db db' h e = record {
    stocks = λ w' p'. ground arith;
    holds = λ o' p'. ground arith;
    rest = ground arith;
  }

  posted_effect :
      (p : Uuid) (db db' : Database) (q : ℕ) (row : InventoryRow)
      → held o p db ≡ some q
      → some (balances row) ≡ stock w p db
      → post o w p type (posting.delta q) (posting.available q row) (posting.reserved q row) db
        ≡ ok db'
      → EndsEffect move o w (p ∷ []) db db'
  posted_effect p db db' q row hq hrow posted =
      let ended = posting.ended in
      let moved = posting.moves q row in
      record {
        stocks = λ w' p'. ground (arith, stock-post _ _ _ _ _ _ _ _ _ posted w' p');
        holds = λ o' p'. ground (arith, held-post _ _ _ _ _ _ _ _ _ posted o' p');
        rest = post-KeepsRest _ _ _ _ _ _ _ _ _ posted;
      }

  pub posting-IsEnding : IsEnding move rows o w step
  posting-IsEnding = record {
    effect = λ p db db' f h. elim (Option-cases (held o p db)) [
      | inl free ↦ idle_effect p db db' (inl free) (cc (posting.skips p db free))
      | inr (q, kept) ↦ elim (Option-cases (rows p)) [
        | inl missing ↦ idle_effect p db db' (inr (ground arith)) (cc (posting.misses p db missing))
        | inr (row, found) ↦
            posted_effect p db db' q row kept (ground arith)
              (cc (posting.posts p db q row kept found))
      ]
    ];
    succeeds = λ p db f enough. elim (Option-cases (held o p db)) [
      | inl free ↦ rw (posting.skips p db free) refl
      | inr (q, kept) ↦ elim (Option-cases (rows p)) [
        | inl missing ↦ rw (posting.misses p db missing) refl
        | inr (row, found) ↦
            rw (posting.posts p db q row kept found)
              (post_fits o w p type (posting.delta q) _ _ db (posting.fits q row (ground arith)))
      ]
    ];
  }

  -- What is held no more, or has no row, is passed over.
  pub each_idle :
      (ps : List Uuid) (db : Database)
      → ((p : Uuid) → contains ps p ≡ true → (held o p db ≡ none) ⊎ (rows p ≡ none))
      → each step ps db ≡ ok db
  unfolding each
  each_idle [] db h = refl
  each_idle (p ∷ ps) db h =
      let first : step p db ≡ ok db = elim (h p (ground arith)) [
        | inl free ↦ posting.skips p db free
        | inr missing ↦ posting.misses p db missing
      ] in
      rw first (each_idle ps db (λ p' c. h p' (ground arith)))
