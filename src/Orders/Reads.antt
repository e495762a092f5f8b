-- ===== src/Orders/Reads.antt =====
-- src/infrastructure/database/repositories/orders-read.repository.ts: the rows and the page's query.
-- Times are microseconds, as the database keeps them. `cast_timestamp` and `cast_uuid` are the casts
-- of the cursor's two parts, `print_timestamp` is the `to_char` of the column.
pub mod Cursor
pub mod Listing
pub mod Sorted
pub mod Pages
mod Tests
use canals.Prelude.{
  ℕ, suc, ◌+◌, Text, List, [], ◌∷◌, Option, none, some, Bool, true, false, ◌==◌, ltb, leb, ◌&&◌,
  ◌||◌, not, filter, map, take, contains, if◌then◌else◌,
}
use canals.Errors.{Uuid, Result, ok, err, query_failed, other_state, ◌>>=◌}
use canals.Domain.Status.{OrderStatus, same_status}

pub record OrderRow : Type 0 where
  pub id : Uuid
  pub order_number : Text
  pub customer_id : Uuid
  pub warehouse_id : Option Uuid
  pub status : OrderStatus
  pub currency : Text
  pub total_cents : ℕ
  pub created_at : ℕ

pub record OrderItemRow : Type 0 where
  pub order_id : Uuid
  pub product_id : Uuid
  pub quantity : ℕ
  pub product_sku_snapshot : Text
  pub product_name_snapshot : Text
  pub unit_price_cents : ℕ
  pub created_at : ℕ

pub record OrderCursor : Type 0 where
  pub created_at : Text
  pub id : Text

pub record OrdersPageFilters : Type 0 where
  pub customer_id : Option Uuid
  pub status : Option OrderStatus
  pub warehouse_id : Option Uuid
  pub created_at_from : Option ℕ
  pub created_at_to : Option ℕ
  pub cursor : Option OrderCursor
  pub page_size : ℕ

pub record OrderPageRow : Type 0 where
  pub order : OrderRow
  pub cursor_created_at : Text

-- The tables that are read.
pub record Tables : Type 0 where
  pub orders : List OrderRow
  pub order_items : List OrderItemRow

-- `ORDER BY created_at DESC, id DESC`: which of two rows comes first.
abbrev pub precedes : ℕ → Uuid → ℕ → Uuid → Bool
precedes at id at' id' = ltb at' at || (at == at' && ltb id' id)

abbrev pub comes_first : OrderRow → OrderRow → Bool
comes_first a b = precedes a.created_at a.id b.created_at b.id

unfoldable pub insert_row : OrderRow → List OrderRow → List OrderRow
insert_row a [] = a ∷ []
insert_row a (b ∷ rows) = if comes_first a b then a ∷ b ∷ rows else b ∷ insert_row a rows

unfoldable pub order_rows : List OrderRow → List OrderRow
unfolding insert_row
order_rows [] = []
order_rows (a ∷ rows) = insert_row a (order_rows rows)

abbrev pub is_given {ℓ} : {A : Type ℓ} → Option A → (A → Bool) → Bool
is_given none test = true
is_given (some a) test = test a

abbrev is_warehouse : Option Uuid → Uuid → Bool
is_warehouse none id = false
is_warehouse (some w) id = w == id

-- The conditions but the cursor's.
unfoldable pub matches : OrdersPageFilters → OrderRow → Bool
matches filters row =
    is_given filters.customer_id (λ id. row.customer_id == id)
    && (is_given filters.status (λ s. same_status row.status s)
        && (is_given filters.warehouse_id (λ id. is_warehouse row.warehouse_id id)
            && (is_given filters.created_at_from (λ at. leb at row.created_at)
                && is_given filters.created_at_to (λ at. leb row.created_at at))))

-- `(created_at, id) < (at, id)`
abbrev pub is_after : ℕ → Uuid → OrderRow → Bool
is_after at id row = precedes at id row.created_at row.id

module _ (cast_timestamp : Text → Option ℕ) (cast_uuid : Text → Option Uuid)
    (print_timestamp : ℕ → Text) where
  -- A text that does not cast is an error of SQLSTATE class 22.
  abbrev cast_failed : Result (OrderRow → Bool)
  cast_failed = err (query_failed (other_state 22000))

  abbrev after_cursor : Option ℕ → Option Uuid → Result (OrderRow → Bool)
  after_cursor (some at) (some id) = ok (is_after at id)
  after_cursor _ _ = cast_failed

  unfoldable pub cursor_condition : Option OrderCursor → Result (OrderRow → Bool)
  cursor_condition none = ok (λ row. true)
  cursor_condition (some cursor) =
      after_cursor (cast_timestamp cursor.created_at) (cast_uuid cursor.id)

  abbrev pub page_row : OrderRow → OrderPageRow
  page_row row = record { order = row; cursor_created_at = print_timestamp row.created_at }

  unfoldable pub find_page : OrdersPageFilters → Tables → Result (List OrderPageRow)
  unfolding cursor_condition matches order_rows
  find_page filters tables = cursor_condition filters.cursor >>= λ is_next. ok (
      map page_row (
        take (filters.page_size + 1)
          (filter is_next (filter (matches filters) (order_rows tables.orders)))))

-- `WHERE order_id = ANY(ids)`
unfoldable pub find_items_by_order_ids : List Uuid → Tables → List OrderItemRow
find_items_by_order_ids ids tables =
    filter (λ (i : OrderItemRow). contains ids i.order_id) tables.order_items
