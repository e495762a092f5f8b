-- ===== src/Orders/Reads/Tests.antt =====
-- Three orders listed in pages of two.
use canals.Prelude.{
  ℕ, zero, suc, ap, All, ◌≡◌, refl, Text, codes, [], ◌∷◌, Option, none, some, true, false, map,
  length, contains, arith, ◌<◌,
}
use canals.Domain.Status.{paid}
use canals.Orders.Reads.{OrderRow, Tables}
use canals.Orders.Reads.Cursor.{decode_cursor, encode_cursor}
use canals.Orders.Reads.Listing.{ListOrdersParams, CursorServices, returns}
use canals.Orders.Reads.Pages.{IsReadable, IsAscii, IsWritable, follow, decode_cursor-encode_cursor}
use canals.Orders.Reads.Pages.Page.{listed}
use canals.Orders.Reads.Pages.Whole.{selected, follow_lem}

-- A number is so many digits.
abbrev print_strokes : ℕ → Text
print_strokes zero = []
print_strokes (suc n) = b'1' ∷ print_strokes n

abbrev read_strokes : Text → Option ℕ
read_strokes t = some (length t)

abbrev add_mark : Text → Text
add_mark t = 0 ∷ t

abbrev drop_mark : Text → Text
drop_mark [] = []
drop_mark (c ∷ cs) = cs

abbrev plain_cursors : CursorServices
plain_cursors = record {
  encode = add_mark;
  decode = drop_mark;
  is_date = λ t. true;
  print_timestamp = print_strokes;
  cast_timestamp = read_strokes;
  print_uuid = print_strokes;
  cast_uuid = read_strokes;
}

no_bar : (n : ℕ) → contains (print_strokes n) b'|' ≡ false
no_bar zero = refl
no_bar (suc n) = no_bar n

length-print_strokes : (n : ℕ) → length (print_strokes n) ≡ n
length-print_strokes zero = refl
length-print_strokes (suc n) = ap suc (length-print_strokes n)

strokes-IsAscii : (n : ℕ) → IsAscii (print_strokes n)
strokes-IsAscii zero = tt
strokes-IsAscii (suc n) = (omega arith, strokes-IsAscii n)

plain-IsReadable : IsReadable plain_cursors
plain-IsReadable = record {
  decode-encode = λ t ascii. refl;
  encode-IsGiven = λ t ascii given. refl;
  print-IsAscii = λ at h. strokes-IsAscii at;
  print_uuid-IsAscii = λ id h. strokes-IsAscii id;
  print-IsDate = λ at h. refl;
  print-HasNoBar = λ at h. no_bar at;
  print_uuid-HasNoBar = λ id h. no_bar id;
  cast-print = λ at h. ap some (length-print_strokes at);
  cast-print_uuid = λ id h. ap some (length-print_strokes id);
}

decode_cursor-encode_cursor_example :
    decode_cursor plain_cursors.encode plain_cursors.decode plain_cursors.is_date (
      encode_cursor plain_cursors.encode plain_cursors.decode plain_cursors.is_date
        (record { created_at = print_strokes 5; id = print_strokes 7 }))
    ≡ some (record { created_at = print_strokes 5; id = print_strokes 7 })
decode_cursor-encode_cursor_example =
    decode_cursor-encode_cursor plain_cursors plain-IsReadable 5 7 (omega arith) (omega arith)

abbrev order_at : ℕ → ℕ → OrderRow
order_at id created_at = record {
  id = id;
  order_number = [];
  customer_id = 9;
  warehouse_id = none;
  status = paid;
  currency = codes "USD";
  total_cents = 100;
  created_at = created_at;
}

abbrev three_orders : Tables
three_orders = record {
  orders = order_at 1 10 ∷ order_at 2 30 ∷ order_at 3 10 ∷ [];
  order_items = [];
}

abbrev by_two : ListOrdersParams
by_two = record {
  customer_id = some 9;
  status = none;
  warehouse_id = none;
  created_at_from = none;
  created_at_to = none;
  cursor = none;
  page_size = some 2;
}

newest_first :
    selected plain_cursors by_two three_orders ≡ order_at 2 30 ∷ order_at 3 10 ∷ order_at 1 10 ∷ []
unfolding selected
newest_first = refl

three_orders-AreWritable : All IsWritable three_orders.orders
three_orders-AreWritable =
    ((omega arith, omega arith), ((omega arith, omega arith), ((omega arith, omega arith), tt)))

few : length (selected plain_cursors by_two three_orders) < 4
unfolding selected
few = omega arith

follow_lem_example :
    follow plain_cursors by_two three_orders 4 none
    ≡ returns (map (listed plain_cursors three_orders) (selected plain_cursors by_two three_orders))
follow_lem_example =
    follow_lem plain_cursors plain-IsReadable by_two three_orders 1 4 refl three_orders-AreWritable
      (refl, (refl, (refl, tt))) few
