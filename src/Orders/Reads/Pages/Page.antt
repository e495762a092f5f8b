-- ===== src/Orders/Reads/Pages/Page.antt =====
-- list-orders.service.ts: one page of what is left, and the whole listing.
use canals.Prelude.{
  ℕ, zero, suc, ◌+◌, ◌≤◌, ◌<◌, ◌≡◌, refl, ap, Text, List, [], ◌∷◌, ◌++◌, Option, none, some, true,
  false, ltb, ◌==◌, filter, map, take, length, length-append, All, contains, arith, ==_iff, lt→ltb,
}
use canals.Errors.{Uuid}
use canals.Orders.Reads.{
  OrderRow, OrderItemRow, OrderPageRow, Tables, find_items_by_order_ids, page_row,
}
use canals.Orders.Reads.Listing.{
  ListOrdersParams, ListOrdersOrder, returns, CursorServices, or_default, with_items, items_for,
  cursor_of_row, page_of, execute, last_of,
}
use canals.Orders.Reads.Pages.{at_cursor}

-- A list that is longer than a page, by the last row of its first page.
pub split_page :
    (m : ℕ) (rows : List OrderRow)
    → suc m < length rows
    → (front : List OrderRow) × (a : OrderRow) × (b : OrderRow) × (rest : List OrderRow) × (rows
        ≡ front ++ (a ∷ b ∷ rest))
      × (length front ≡ m)
split_page m [] h = ground arith
split_page m (a ∷ []) h = ground arith
split_page zero (a ∷ b ∷ rest) h = ([], a, b, rest, refl, refl)
split_page (suc m) (a ∷ b ∷ rest) h =
    let (front, c, d, rest', same, long) = split_page m (b ∷ rest) (omega (arith, h)) in
    (a ∷ front, c, d, rest', ap (λ rows. a ∷ rows) same, omega (arith, long))

drop_zero : (n k : ℕ) → n ≡ 0 + k → n ≡ k
drop_zero n k h = omega (arith, h)

take_front :
    (n k : ℕ) (front rows : List OrderRow)
    → n ≡ length front + k
    → take n (front ++ rows) ≡ front ++ take k rows
take_front n k [] rows h = ap (λ i. take i rows) (drop_zero n k h)
take_front zero k (a ∷ front) rows h = ground (arith, h)
take_front (suc n) k (a ∷ front) rows h =
    ap (λ r. a ∷ r) (take_front n k front rows (omega (arith, h)))

take_all : (n : ℕ) (rows : List OrderRow) → length rows ≤ n → take n rows ≡ rows
take_all zero [] h = refl
take_all (suc n) [] h = refl
take_all zero (a ∷ rows) h = ground arith
take_all (suc n) (a ∷ rows) h = ap (λ r. a ∷ r) (take_all n rows (omega (arith, h)))

contains_same : (ids : List ℕ) (i j : ℕ) → (i == j) ≡ true → contains ids i ≡ contains ids j
contains_same ids i j h = ap (contains ids) ((==_iff i j).0 h)

module _ (services : CursorServices) (tables : Tables) where
  abbrev pub shown : OrderRow → OrderPageRow
  shown = page_row services.cast_timestamp services.cast_uuid services.print_timestamp

  -- A row with its items, as a listing shows it.
  abbrev pub listed : OrderRow → ListOrdersOrder
  listed row = with_items tables.order_items (shown row)

  items_for-found :
      (id : Uuid) (ids : List Uuid) (items : List OrderItemRow)
      → contains ids id ≡ true
      → items_for id (filter (λ (i : OrderItemRow). contains ids i.order_id) items)
        ≡ items_for id items
  items_for-found id ids [] h = refl
  items_for-found id ids (i ∷ items) h =
      ground (arith, items_for-found id ids items h, contains_same ids i.order_id id)

  -- The rows of a page have all their items.
  IdsIn : List Uuid → List OrderRow → Type 0
  IdsIn ids rows = All (λ (r : OrderRow). contains ids r.id ≡ true) rows

  found : List Uuid → List OrderItemRow
  found ids = find_items_by_order_ids ids tables

  map-listed :
      (ids : List Uuid) (rows : List OrderRow)
      → IdsIn ids rows
      → map (with_items (found ids)) (map shown rows) ≡ map listed rows
  unfolding IdsIn found find_items_by_order_ids
  map-listed ids [] h = refl
  map-listed ids (r ∷ rows) h =
      rw (items_for-found r.id ids tables.order_items h.0, map-listed ids rows h.1) refl

  IdsIn-more :
      (i : Uuid) (ids : List Uuid) (rows : List OrderRow) → IdsIn ids rows → IdsIn (i ∷ ids) rows
  unfolding IdsIn
  IdsIn-more i ids [] h = tt
  IdsIn-more i ids (r ∷ rows) h = (ground (arith, h.0), IdsIn-more i ids rows h.1)

  page_ids : List OrderRow → List Uuid
  page_ids rows = map (λ (r : OrderPageRow). r.order.id) (map shown rows)

  IdsIn-page_ids : (rows : List OrderRow) → IdsIn (page_ids rows) rows
  unfolding IdsIn page_ids
  IdsIn-page_ids [] = tt
  IdsIn-page_ids (r ∷ rows) =
      (ground arith, IdsIn-more r.id (page_ids rows) rows (IdsIn-page_ids rows))

  length-shown : (rows : List OrderRow) → length (map shown rows) ≡ length rows
  length-shown [] = refl
  length-shown (r ∷ rows) = ap suc (length-shown rows)

  not_more :
      (n : ℕ) (rows : List OrderRow) → length rows ≤ n → ltb n (length (map shown rows)) ≡ false
  not_more n rows h = ground (arith, length-shown rows, h)

  is_more :
      (m : ℕ) (front : List OrderRow) (a b : OrderRow)
      → length front ≡ m
      → ltb (suc m) (length (map shown (front ++ (a ∷ b ∷ [])))) ≡ true
  is_more m front a b h =
      lt→ltb (suc m) (length (map shown (front ++ (a ∷ b ∷ []))))
        (omega (arith, length-shown (front ++ (a ∷ b ∷ [])), length-append front (a ∷ b ∷ []), h))

  take-shown : (n : ℕ) (rows : List OrderRow) → take n (map shown rows) ≡ map shown (take n rows)
  take-shown zero rows = refl
  take-shown (suc n) [] = refl
  take-shown (suc n) (r ∷ rows) = ap (λ rs. shown r ∷ rs) (take-shown n rows)

  last_of-shown :
      (front : List OrderRow) (a : OrderRow)
      → last_of (map shown (front ++ (a ∷ []))) ≡ some (shown a)
  last_of-shown [] a = refl
  last_of-shown (b ∷ []) a = refl
  last_of-shown (b ∷ c ∷ front) a = last_of-shown (c ∷ front) a

  -- A page that holds all the rows that are left.
  pub page_last :
      (n : ℕ) (rows : List OrderRow)
      → length rows ≤ n
      → page_of services n tables (map shown (take (n + 1) rows))
        ≡ record { orders = map listed rows; has_more = false; next_cursor = none }
  unfolding page_of page_ids found
  page_last n rows h =
      rw (take_all (n + 1) rows (omega (arith, h)), not_more n rows h)
        (ap (λ o. record { orders = o; has_more = false; next_cursor = none })
          (map-listed (page_ids rows) rows (IdsIn-page_ids rows)))

  -- A page that more rows follow.
  pub page_more :
      (m : ℕ) (front : List OrderRow) (a b : OrderRow) (rest : List OrderRow)
      → length front ≡ m
      → page_of services (suc m) tables (map shown (take (suc m + 1) (front ++ (a ∷ b ∷ rest))))
        ≡ record {
          orders = map listed (front ++ (a ∷ []));
          has_more = true;
          next_cursor = some (cursor_of_row services (shown a));
        }
  unfolding page_of page_ids found
  page_more m front a b rest h =
      rw
        (
          take_front (suc m + 1) 2 front (a ∷ b ∷ rest) (omega (arith, h)),
          is_more m front a b h,
          take-shown (suc m) (front ++ (a ∷ b ∷ [])),
          take_front (suc m) 1 front (a ∷ b ∷ []) (omega (arith, h)),
          last_of-shown front a,
        )
        (ap
          (λ o. record {
            orders = o;
            has_more = true;
            next_cursor = some (cursor_of_row services (shown a));
          })
          (map-listed (page_ids (front ++ (a ∷ []))) (front ++ (a ∷ []))
            (IdsIn-page_ids (front ++ (a ∷ [])))))

  -- The page that the service makes of the rows that are left.
  abbrev pub NextPage : Option Text → ListOrdersParams → List OrderRow → Type 0
  NextPage cursor params rows =
      execute services (at_cursor params cursor) tables
      ≡ returns (
          page_of services (or_default params.page_size) tables
            (map shown (take (or_default params.page_size + 1) rows)))
