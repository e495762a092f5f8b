-- ===== src/Orders/Reads/Sorted.antt =====
-- orders-read.repository.ts: the order of the rows, and what follows a row in it.
use canals.Prelude.{
  ℕ, ◌≡◌, refl, List, [], ◌∷◌, ◌++◌, Bool, true, false, ◌==◌, filter, map, All, contains,
  IsDistinct, arith, Bool-cases, inl, inr,
}
use canals.Orders.Reads.{OrderRow, comes_first, is_after, insert_row, order_rows}

-- Every row comes before all that follow it.
abbrev pub IsSorted : List OrderRow → Type 0
IsSorted [] = Unit
IsSorted (a ∷ rows) = All (λ b. comes_first a b ≡ true) rows × IsSorted rows

abbrev pub ids_of : List OrderRow → List ℕ
ids_of rows = map (λ (r : OrderRow). r.id) rows

trans :
    (a b c : OrderRow) → comes_first a b ≡ true → comes_first b c ≡ true → comes_first a c ≡ true
trans a b c h k = ground arith

total : (a b : OrderRow) → (a.id == b.id) ≡ false → comes_first a b ≡ false → comes_first b a ≡ true
total a b h k = ground arith

All-trans :
    (a b : OrderRow) (rows : List OrderRow)
    → comes_first a b ≡ true
    → All (λ c. comes_first b c ≡ true) rows
    → All (λ c. comes_first a c ≡ true) rows
All-trans a b [] h hs = tt
All-trans a b (c ∷ rows) h hs = (trans a b c h hs.0, All-trans a b rows h hs.1)

module _ (P : OrderRow → Type 0) where
  pub All-insert_row :
      (a : OrderRow) (rows : List OrderRow) → P a → All P rows → All P (insert_row a rows)
  unfolding insert_row
  All-insert_row a [] p h = (p, tt)
  All-insert_row a (b ∷ rows) p h = elim (Bool-cases (comes_first a b)) [
    | inl first ↦ rw first (p, h)
    | inr later ↦ rw later (h.0, All-insert_row a rows p h.1)
  ]

  pub All-order_rows : (rows : List OrderRow) → All P rows → All P (order_rows rows)
  unfolding order_rows
  All-order_rows [] h = tt
  All-order_rows (a ∷ rows) h = All-insert_row a (order_rows rows) h.0 (All-order_rows rows h.1)

insert_row-IsSorted :
    (a : OrderRow) (rows : List OrderRow)
    → All (λ (b : OrderRow). (a.id == b.id) ≡ false) rows
    → IsSorted rows
    → IsSorted (insert_row a rows)
unfolding insert_row
insert_row-IsSorted a [] h s = (tt, tt)
insert_row-IsSorted a (b ∷ rows) h s = elim (Bool-cases (comes_first a b)) [
  | inl first ↦ rw first ((first, All-trans a b rows first s.0), s)
  | inr later ↦ rw later (
    All-insert_row (λ c. comes_first b c ≡ true) a rows (total a b h.0 later) s.0,
    insert_row-IsSorted a rows h.1 s.1,
  )
]

not_contained :
    (id : ℕ) (rows : List OrderRow)
    → contains (ids_of rows) id ≡ false
    → All (λ (b : OrderRow). (id == b.id) ≡ false) rows
not_contained id [] h = tt
not_contained id (b ∷ rows) h = ground (arith, not_contained id rows)

-- A table whose ids are distinct is put in order.
pub order_rows-IsSorted :
    (rows : List OrderRow) → IsDistinct (ids_of rows) → IsSorted (order_rows rows)
unfolding order_rows
order_rows-IsSorted [] h = tt
order_rows-IsSorted (a ∷ rows) h =
    insert_row-IsSorted a (order_rows rows)
      (All-order_rows (λ b. (a.id == b.id) ≡ false) rows (not_contained a.id rows h.0))
      (order_rows-IsSorted rows h.1)

pub All-filter :
    (P : OrderRow → Type 0) (p : OrderRow → Bool) (rows : List OrderRow)
    → All P rows
    → All P (filter p rows)
All-filter P p [] h = tt
All-filter P p (a ∷ rows) h = elim (Bool-cases (p a)) [
  | inl kept ↦ rw kept (h.0, All-filter P p rows h.1)
  | inr dropped ↦ rw dropped (All-filter P p rows h.1)
]

pub filter-IsSorted :
    (p : OrderRow → Bool) (rows : List OrderRow) → IsSorted rows → IsSorted (filter p rows)
filter-IsSorted p [] h = tt
filter-IsSorted p (a ∷ rows) h = elim (Bool-cases (p a)) [
  | inl kept ↦
      rw kept (All-filter (λ b. comes_first a b ≡ true) p rows h.0, filter-IsSorted p rows h.1)
  | inr dropped ↦ rw dropped (filter-IsSorted p rows h.1)
]

filter_sorted :
    (a : OrderRow) (rows : List OrderRow)
    → All (λ b. comes_first a b ≡ true) rows
    → filter (is_after a.created_at a.id) rows ≡ rows
filter_sorted a [] h = refl
filter_sorted a (b ∷ rows) h = ground (arith, filter_sorted a rows h.1, h.0)

middle :
    (P : OrderRow → Type 0) (before : List OrderRow) (a : OrderRow) (rows : List OrderRow)
    → All P (before ++ (a ∷ rows))
    → P a
middle P [] a rows h = h.0
middle P (b ∷ before) a rows h = middle P before a rows h.1

before_lem : (a b : OrderRow) → comes_first b a ≡ true → is_after a.created_at a.id b ≡ false
before_lem a b h = ground arith

-- The condition of a row's cursor selects what follows the row.
pub filter-is_after :
    (before : List OrderRow) (a : OrderRow) (rows : List OrderRow)
    → IsSorted (before ++ (a ∷ rows))
    → filter (is_after a.created_at a.id) (before ++ (a ∷ rows)) ≡ rows
filter-is_after [] a rows h = ground (arith, filter_sorted a rows h.0)
filter-is_after (b ∷ before) a rows h =
    rw (before_lem a b (middle (λ c. comes_first b c ≡ true) before a rows h.0))
      (filter-is_after before a rows h.1)
