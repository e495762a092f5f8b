-- ===== src/Orders/Reads/Pages/Whole.antt =====
-- list-orders.service.ts with orders-read.repository.ts: the pages together are the whole listing.
use canals.Prelude.{
  ℕ, zero, suc, ◌+◌, ◌≤◌, ◌<◌, ◌≡◌, refl, sym, ap, ◌∙◌, subst, Text, text_eq, All, List, [], ◌∷◌,
  ◌++◌, Option, none, some, true, false, ltb, filter, map, length, length-append, IsDistinct, arith,
  inl, inr, Bool-cases, ltb→lt, take,
}
use canals.Errors.{ok}
use canals.Orders.Reads.{
  OrderRow, OrderCursor, Tables, find_page, cursor_condition, matches, order_rows, is_after,
}
use canals.Orders.Reads.Cursor.{decode_cursor}
use canals.Orders.Reads.Listing.{
  ListOrdersParams, ListOrdersOrder, returns, CursorServices, or_default, cursor_of_row, page_of,
  execute, decode_cursor_or_throw, filters_of, after_cursor_read, after_query,
}
use canals.Orders.Reads.Sorted.{
  IsSorted, ids_of, order_rows-IsSorted, filter-IsSorted, filter-is_after, All-order_rows,
  All-filter,
}
use canals.Orders.Reads.Pages.{
  IsReadable, IsWritable, at_cursor, follow, written-IsAscii, append_bar_given,
  decode_cursor-encode_cursor,
}
use canals.Orders.Reads.Pages.Page.{shown, listed, NextPage, page_last, page_more, split_page}

append_assoc : (xs ys zs : List OrderRow) → (xs ++ ys) ++ zs ≡ xs ++ (ys ++ zs)
append_assoc [] ys zs = refl
append_assoc (x ∷ xs) ys zs = ap (λ r. x ∷ r) (append_assoc xs ys zs)

map-split :
    (f : OrderRow → ListOrdersOrder) (front : List OrderRow) (a : OrderRow) (rows : List OrderRow)
    → map f (front ++ (a ∷ [])) ++ map f rows ≡ map f (front ++ (a ∷ rows))
map-split f [] a rows = refl
map-split f (x ∷ front) a rows = ap (λ r. f x ∷ r) (map-split f front a rows)

filter-true : (rows : List OrderRow) → filter (λ row. true) rows ≡ rows
filter-true [] = refl
filter-true (r ∷ rows) = ap (λ rs. r ∷ rs) (filter-true rows)

All-back : (front rows : List OrderRow) → All IsWritable (front ++ rows) → All IsWritable rows
All-back [] rows h = h
All-back (r ∷ front) rows h = All-back front rows h.1

decode_given :
    (services : CursorServices) (t : Text) (cursor : OrderCursor)
    → text_eq t [] ≡ false
    → decode_cursor services.encode services.decode services.is_date t ≡ some cursor
    → decode_cursor_or_throw services (some t) ≡ returns (some cursor)
unfolding decode_cursor_or_throw
decode_given services [] cursor given read = ground arith
decode_given services (c ∷ cs) cursor given read = rw (decode_cursor_or_throw, read) refl

-- The rows that the filters select, newest first.
unfoldable pub selected : CursorServices → ListOrdersParams → Tables → List OrderRow
unfolding matches order_rows
selected services params tables =
    filter (matches (filters_of services params none)) (order_rows tables.orders)

module _ (services : CursorServices) (readable : IsReadable services) (params : ListOrdersParams)
    (tables : Tables) where
  abbrev rows_selected : List OrderRow
  rows_selected = selected services params tables

  first_page : NextPage services tables none params rows_selected
  unfolding execute decode_cursor_or_throw find_page cursor_condition selected matches
  first_page = rw (filter-true rows_selected) refl

  selected-IsSorted : IsDistinct (ids_of tables.orders) → IsSorted rows_selected
  unfolding selected
  selected-IsSorted distinct =
      filter-IsSorted (matches (filters_of services params none)) (order_rows tables.orders)
        (order_rows-IsSorted tables.orders distinct)

  abbrev cursor_for : OrderRow → OrderCursor
  cursor_for a = record {
    created_at = services.print_timestamp a.created_at;
    id = services.print_uuid a.id;
  }

  abbrev cursor_text : OrderRow → Text
  cursor_text a = cursor_of_row services (shown services tables a)

  read_cursor :
      (a : OrderRow)
      → IsWritable a
      → decode_cursor_or_throw services (some (cursor_text a)) ≡ returns (some (cursor_for a))
  unfolding canals.Orders.Reads.Cursor.encode_cursor
  read_cursor a h =
      decode_given services (cursor_text a) (cursor_for a)
        (readable.encode-IsGiven
          (services.print_timestamp a.created_at ++ (b'|' ∷ services.print_uuid a.id))
          (written-IsAscii services readable a.created_at a.id h.0 h.1)
          (append_bar_given (services.print_timestamp a.created_at) (services.print_uuid a.id)))
        (decode_cursor-encode_cursor services readable a.created_at a.id h.0 h.1)

  query :
      (a : OrderRow)
      → IsWritable a
      → find_page services.cast_timestamp services.cast_uuid services.print_timestamp
          (filters_of services (at_cursor params (some (cursor_text a))) (some (cursor_for a)))
          tables
        ≡ ok (
            map (shown services tables) (
              take
                (or_default params.page_size + 1)
                (filter (is_after a.created_at a.id) rows_selected)))
  unfolding find_page cursor_condition selected matches
  query a h = rw (readable.cast-print a.created_at h.0, readable.cast-print_uuid a.id h.1) refl

  after_row :
      (before : List OrderRow) (a : OrderRow) (rows : List OrderRow)
      → IsDistinct (ids_of tables.orders)
      → rows_selected ≡ before ++ (a ∷ rows)
      → filter (is_after a.created_at a.id) rows_selected ≡ rows
  after_row before a rows distinct here =
      ap (filter (is_after a.created_at a.id)) here
      ∙ filter-is_after before a rows (subst IsSorted here (selected-IsSorted distinct))

  next_page :
      (before : List OrderRow) (a : OrderRow) (rows : List OrderRow)
      → IsWritable a
      → IsDistinct (ids_of tables.orders)
      → rows_selected ≡ before ++ (a ∷ rows)
      → NextPage services tables (some (cursor_text a)) params rows
  unfolding execute
  next_page before a rows writable distinct here =
      ap (after_cursor_read services (at_cursor params (some (cursor_text a))) tables)
        (read_cursor a writable)
      ∙ ap (after_query services (or_default params.page_size) tables) (query a writable)
      ∙ ap
          (λ rs. returns (
            page_of services (or_default params.page_size) tables
              (map (shown services tables) (take (or_default params.page_size + 1) rs))))
          (after_row before a rows distinct here)

  follow_last :
      (fuel : ℕ) (cursor : Option Text) (rows : List OrderRow)
      → NextPage services tables cursor params rows
      → length rows ≤ or_default params.page_size
      → follow services params tables (suc fuel) cursor
        ≡ returns (map (listed services tables) rows)
  unfolding follow
  follow_last fuel cursor rows page few =
      rw (page ∙ ap returns (page_last services tables (or_default params.page_size) rows few)) refl

  follow_more :
      (m fuel : ℕ) (cursor : Option Text) (rows front : List OrderRow) (a b : OrderRow)
      (rest : List OrderRow)
      → or_default params.page_size ≡ suc m
      → NextPage services tables cursor params rows
      → rows ≡ front ++ (a ∷ b ∷ rest)
      → length front ≡ m
      → follow services params tables fuel (some (cursor_text a))
        ≡ returns (map (listed services tables) (b ∷ rest))
      → follow services params tables (suc fuel) cursor
        ≡ returns (map (listed services tables) rows)
  unfolding follow
  follow_more m fuel cursor rows front a b rest size page same long others =
      rw
        (
          page
              ∙ ap
                  (λ rs. returns (
                    page_of services (or_default params.page_size) tables
                      (map (shown services tables) (take (or_default params.page_size + 1) rs))))
                  same
              ∙ ap
                  (λ n. returns (
                    page_of services n tables
                      (map (shown services tables) (take (n + 1) (front ++ (a ∷ b ∷ rest))))))
                  size
              ∙ ap returns (page_more services tables m front a b rest long),
          others,
          map-split (listed services tables) front a (b ∷ rest),
          same,
        )
        refl

  shorter :
      (fuel : ℕ) (rows front : List OrderRow) (a b : OrderRow) (rest : List OrderRow)
      → rows ≡ front ++ (a ∷ b ∷ rest)
      → length rows < suc fuel
      → length (b ∷ rest) < fuel
  shorter fuel rows front a b rest same enough =
      omega (arith, ap length same, length-append front (a ∷ b ∷ rest), enough)

  follow_from :
      (m fuel : ℕ) (before rows : List OrderRow) (cursor : Option Text)
      → or_default params.page_size ≡ suc m
      → All IsWritable rows
      → IsDistinct (ids_of tables.orders)
      → rows_selected ≡ before ++ rows
      → NextPage services tables cursor params rows
      → length rows < fuel
      → follow services params tables fuel cursor ≡ returns (map (listed services tables) rows)
  follow_from m zero before rows cursor size writable distinct here page enough =
      ground (arith, enough)
  follow_from m (suc fuel) before rows cursor size writable distinct here page enough =
      elim (Bool-cases (ltb (suc m) (length rows))) [
        | inr few ↦ follow_last fuel cursor rows page (ground (arith, few, size))
        | inl many ↦
            let (front, a, b, rest, same, long) =
              split_page m rows (ltb→lt (suc m) (length rows) many) in
            let there =
              here
              ∙ ap (λ rs. before ++ rs) same
              ∙ sym (append_assoc before front (a ∷ b ∷ rest)) in
            let left = All-back front (a ∷ b ∷ rest) (subst (All IsWritable) same writable) in
            follow_more m fuel cursor rows front a b rest size page same long (
              follow_from m fuel ((before ++ front) ++ (a ∷ [])) (b ∷ rest) (some (cursor_text a))
                size left.1 distinct
                (there ∙ sym (append_assoc (before ++ front) (a ∷ []) (b ∷ rest)))
                (next_page (before ++ front) a (b ∷ rest) left.0 distinct there)
                (shorter fuel rows front a b rest same enough))
      ]

  selected-AreWritable : All IsWritable tables.orders → All IsWritable rows_selected
  unfolding selected
  selected-AreWritable h =
      All-filter IsWritable (matches (filters_of services params none)) (order_rows tables.orders)
        (All-order_rows IsWritable tables.orders h)

  -- The ids of the orders are distinct uuids, their times are before the year 10000, a page has at
  -- least one order, base64 of an ASCII text is undone (and of a text with a character is not empty),
  -- and such times and ids are printed in ASCII without a bar, the time as a date, so that the casts
  -- read them. Then a client that follows `nextCursor` from the first page comes to the end, with at
  -- most as many requests as there are selected orders and one more, and has got each order that the
  -- filters select, with all its items, once, newest first.
  pub follow_lem :
      (m fuel : ℕ)
      → or_default params.page_size ≡ suc m
      → All IsWritable tables.orders
      → IsDistinct (ids_of tables.orders)
      → length rows_selected < fuel
      → follow services params tables fuel none
        ≡ returns (map (listed services tables) rows_selected)
  follow_lem m fuel size writable distinct enough =
      follow_from m fuel [] rows_selected none size (selected-AreWritable writable) distinct refl
        first_page enough
