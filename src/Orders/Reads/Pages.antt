-- ===== src/Orders/Reads/Pages.antt =====
-- list-orders.service.ts and cursor.helpers.ts: a client that follows `nextCursor` until there is none.
pub mod Page
pub mod Whole
use canals.Prelude.{
  ℕ, zero, suc, ◌+◌, ◌≤◌, ◌<◌, ◌≡◌, refl, sym, ap, ◌∙◌, subst, Text, text_eq, List, [], ◌∷◌, ◌++◌,
  Option, none, some, Bool, true, false, ltb, ◌==◌, ◌&&◌, not, filter, map, take, length, All,
  contains, IsDistinct, arith, Bool-cases, inl, inr, if◌then◌else◌,
}
use canals.Errors.{Uuid, Result, ok, err}
use canals.Http.Problem.{Exception, anything}
use canals.Orders.Reads.{
  OrderRow, OrderItemRow, OrderCursor, OrdersPageFilters, OrderPageRow, Tables, find_page,
  find_items_by_order_ids, cursor_condition, matches, order_rows, page_row, is_after,
}
use canals.Orders.Reads.Cursor.{encode_cursor, decode_cursor, split_bar}
use canals.Orders.Reads.Listing.{
  ListOrdersParams, ListOrdersOrder, ListOrdersResult, Outcome, throws, returns, CursorServices,
  or_default, with_items, items_for, cursor_of_row, page_of, execute, decode_cursor_or_throw,
  filters_of, last_of,
}
use canals.Orders.Reads.Sorted.{
  IsSorted, ids_of, order_rows-IsSorted, filter-IsSorted, filter-is_after,
}

-- A time in microseconds that a Date and a four-digit year can hold: before the year 10000.
abbrev pub IsTime : ℕ → Type 0
IsTime at = at < 253402300800000000

-- A uuid is a number of 128 bits.
abbrev pub IsUuid : Uuid → Type 0
IsUuid id = id < 340282366920938463463374607431768211456

abbrev pub IsAscii : Text → Type 0
IsAscii = All (λ c. c < 128)

-- What the writing and the reading of a cursor rely on, for the texts that a cursor is made of: base64
-- of an ASCII text is undone, and that of a text with a character is not empty; a time and a uuid are
-- printed in ASCII without a bar, the time as a date, and the casts read what was printed.
pub record IsReadable (services : CursorServices) : Type 0 where
  pub decode-encode : (t : Text) → IsAscii t → services.decode (services.encode t) ≡ t
  pub encode-IsGiven :
      (t : Text) → IsAscii t → text_eq t [] ≡ false → text_eq (services.encode t) [] ≡ false
  pub print-IsAscii : (at : ℕ) → IsTime at → IsAscii (services.print_timestamp at)
  pub print_uuid-IsAscii : (id : Uuid) → IsUuid id → IsAscii (services.print_uuid id)
  pub print-IsDate : (at : ℕ) → IsTime at → services.is_date (services.print_timestamp at) ≡ true
  pub print-HasNoBar : (at : ℕ) → IsTime at → contains (services.print_timestamp at) b'|' ≡ false
  pub print_uuid-HasNoBar : (id : Uuid) → IsUuid id → contains (services.print_uuid id) b'|' ≡ false
  pub cast-print :
      (at : ℕ) → IsTime at → services.cast_timestamp (services.print_timestamp at) ≡ some at
  pub cast-print_uuid :
      (id : Uuid) → IsUuid id → services.cast_uuid (services.print_uuid id) ≡ some id

-- The row's id is a uuid, and its time is before the year 10000.
abbrev pub IsWritable : OrderRow → Type 0
IsWritable row = IsTime row.created_at × IsUuid row.id

abbrev pub at_cursor : ListOrdersParams → Option Text → ListOrdersParams
at_cursor params cursor = record params { cursor = cursor }

module _ (services : CursorServices) (params : ListOrdersParams) (tables : Tables) where
  abbrev prefixed :
      List ListOrdersOrder → Outcome (List ListOrdersOrder) → Outcome (List ListOrdersOrder)
  prefixed orders (throws e) = throws e
  prefixed orders (returns rest) = returns (orders ++ rest)

  -- The orders of the pages, from a cursor on; a request more than the fuel is an error.
  unfoldable pub follow : ℕ → Option Text → Outcome (List ListOrdersOrder)
  unfolding execute
  follow zero cursor = throws anything
  follow (suc fuel) cursor = elim (execute services (at_cursor params cursor) tables) [
    | throws e ↦ throws e
    | returns page ↦ elim page.next_cursor [
      | none ↦ returns page.orders
      | some next ↦ prefixed page.orders (follow fuel (some next))
    ]
  ]

split_bar_plain : (t : Text) → contains t b'|' ≡ false → split_bar t ≡ t ∷ []
unfolding split_bar
split_bar_plain [] h = refl
split_bar_plain (c ∷ cs) h = ground (arith, split_bar_plain cs)

split_bar_two :
    (s t : Text)
    → contains s b'|' ≡ false
    → contains t b'|' ≡ false
    → split_bar (s ++ (b'|' ∷ t)) ≡ s ∷ t ∷ []
unfolding split_bar
split_bar_two [] t h k = ground (arith, split_bar_plain t)
split_bar_two (c ∷ cs) t h k = ground (arith, split_bar_two cs t)

append-IsAscii : (s t : Text) → IsAscii s → IsAscii t → IsAscii (s ++ t)
append-IsAscii [] t h k = k
append-IsAscii (c ∷ cs) t h k = (h.0, append-IsAscii cs t h.1 k)

pub append_bar_given : (s t : Text) → text_eq (s ++ (b'|' ∷ t)) [] ≡ false
append_bar_given [] t = refl
append_bar_given (c ∷ cs) t = refl

module _ (services : CursorServices) (readable : IsReadable services) where
  pub written-IsAscii :
      (created_at : ℕ) (id : Uuid)
      → IsTime created_at
      → IsUuid id
      → IsAscii (services.print_timestamp created_at ++ (b'|' ∷ services.print_uuid id))
  written-IsAscii created_at id h k =
      append-IsAscii (services.print_timestamp created_at) (b'|' ∷ services.print_uuid id)
        (readable.print-IsAscii created_at h) (omega arith, readable.print_uuid-IsAscii id k)

  -- If base64 of an ASCII text is undone, and a time before the year 10000 and a uuid are printed in
  -- ASCII without a bar, the time as a date, then the cursor that the service writes of such a time
  -- and id is read as these two.
  pub decode_cursor-encode_cursor :
      (created_at : ℕ) (id : Uuid)
      → IsTime created_at
      → IsUuid id
      → decode_cursor services.encode services.decode services.is_date (
          encode_cursor services.encode services.decode services.is_date (record {
            created_at = services.print_timestamp created_at;
            id = services.print_uuid id;
          }))
        ≡ some (record {
          created_at = services.print_timestamp created_at;
          id = services.print_uuid id;
        })
  unfolding decode_cursor encode_cursor
  decode_cursor-encode_cursor created_at id h k =
      rw
        (
          readable.decode-encode
              (services.print_timestamp created_at ++ (b'|' ∷ services.print_uuid id))
              (written-IsAscii created_at id h k),
          split_bar_two (services.print_timestamp created_at) (services.print_uuid id)
              (readable.print-HasNoBar created_at h) (readable.print_uuid-HasNoBar id k),
          readable.print-IsDate created_at h,
        )
        refl
