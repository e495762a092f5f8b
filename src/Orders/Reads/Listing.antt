-- ===== src/Orders/Reads/Listing.antt =====
-- src/application/orders/list-orders.service.ts. The query's dates are given as `new Date` reads them.
use canals.Prelude.{
  ℕ, Text, List, [], ◌∷◌, Option, none, some, Bool, true, ◌==◌, ltb, filter, map, take, length,
  if◌then◌else◌,
}
use canals.Errors.{Uuid, Result, ok, err}
use canals.Domain.Status.{OrderStatus}
use canals.Http.Problem.{Exception, application, bad_request}
use canals.Orders.Reads.{
  OrderItemRow, OrderCursor, OrdersPageFilters, OrderPageRow, Tables, find_page,
  find_items_by_order_ids,
}
use canals.Orders.Reads.Cursor.{encode_cursor, decode_cursor}

abbrev pub default_page_size : ℕ
default_page_size = 20

pub record ListOrdersParams : Type 0 where
  pub customer_id : Option Uuid
  pub status : Option OrderStatus
  pub warehouse_id : Option Uuid
  pub created_at_from : Option ℕ
  pub created_at_to : Option ℕ
  pub cursor : Option Text
  pub page_size : Option ℕ

pub record ListOrdersOrder : Type 0 where
  pub order : OrderPageRow
  pub items : List OrderItemRow

pub record ListOrdersResult : Type 0 where
  pub orders : List ListOrdersOrder
  pub has_more : Bool
  pub next_cursor : Option Text

-- What the service throws or returns.
pub data Outcome (Value : Type 0) : Type 0 where
  throws : Exception → Outcome Value
  returns : Value → Outcome Value

-- How the parts of a cursor and its text are written and read.
pub record CursorServices : Type 0 where
  pub encode : Text → Text
  pub decode : Text → Text
  pub is_date : Text → Bool
  pub print_timestamp : ℕ → Text
  pub cast_timestamp : Text → Option ℕ
  pub print_uuid : Uuid → Text
  pub cast_uuid : Text → Option Uuid

abbrev pub or_default : Option ℕ → ℕ
or_default none = default_page_size
or_default (some n) = n

abbrev pub last_of : List OrderPageRow → Option OrderPageRow
last_of [] = none
last_of (row ∷ []) = some row
last_of (row ∷ next ∷ rows) = last_of (next ∷ rows)

-- `itemsByOrderId.get(id) ?? []`
abbrev pub items_for : Uuid → List OrderItemRow → List OrderItemRow
items_for id items = filter (λ (i : OrderItemRow). i.order_id == id) items

abbrev pub with_items : List OrderItemRow → OrderPageRow → ListOrdersOrder
with_items items row = record { order = row; items = items_for row.order.id items }

module _ (services : CursorServices) where
  -- An empty cursor is none; an invalid one is a BadRequestException.
  unfoldable pub decode_cursor_or_throw : Option Text → Outcome (Option OrderCursor)
  unfolding decode_cursor
  decode_cursor_or_throw none = returns none
  decode_cursor_or_throw (some []) = returns none
  decode_cursor_or_throw (some (c ∷ cs)) =
      elim (decode_cursor services.encode services.decode services.is_date (c ∷ cs)) [
        | none ↦ throws (bad_request none)
        | some cursor ↦ returns (some cursor)
      ]

  abbrev pub filters_of : ListOrdersParams → Option OrderCursor → OrdersPageFilters
  filters_of params cursor = record {
    customer_id = params.customer_id;
    status = params.status;
    warehouse_id = params.warehouse_id;
    created_at_from = params.created_at_from;
    created_at_to = params.created_at_to;
    cursor = cursor;
    page_size = or_default params.page_size;
  }

  abbrev pub cursor_of_row : OrderPageRow → Text
  cursor_of_row row =
      encode_cursor services.encode services.decode services.is_date
        (record { created_at = row.cursor_created_at; id = services.print_uuid row.order.id })

  abbrev pub next_cursor_of : Bool → Option OrderPageRow → Option Text
  next_cursor_of true (some row) = some (cursor_of_row row)
  next_cursor_of _ _ = none

  -- What follows the page's query.
  unfoldable pub page_of : ℕ → Tables → List OrderPageRow → ListOrdersResult
  unfolding encode_cursor find_items_by_order_ids
  page_of page_size tables rows =
      let has_more = ltb page_size (length rows) in
      let page_rows = if has_more then take page_size rows else rows in
      let items =
        find_items_by_order_ids (map (λ (r : OrderPageRow). r.order.id) page_rows) tables in
      record {
        orders = map (with_items items) page_rows;
        has_more = has_more;
        next_cursor = next_cursor_of has_more (last_of page_rows);
      }

  abbrev pub after_query : ℕ → Tables → Result (List OrderPageRow) → Outcome ListOrdersResult
  after_query page_size tables (err e) = throws (application e)
  after_query page_size tables (ok rows) = returns (page_of page_size tables rows)

  abbrev pub after_cursor_read :
      ListOrdersParams → Tables → Outcome (Option OrderCursor) → Outcome ListOrdersResult
  after_cursor_read params tables (throws e) = throws e
  after_cursor_read params tables (returns cursor) =
      after_query (or_default params.page_size) tables (
        find_page services.cast_timestamp services.cast_uuid services.print_timestamp
          (filters_of params cursor) tables)

  unfoldable pub execute : ListOrdersParams → Tables → Outcome ListOrdersResult
  unfolding decode_cursor_or_throw find_page page_of
  execute params tables = after_cursor_read params tables (decode_cursor_or_throw params.cursor)
