-- ===== src/Orders/Reads/Cursor.antt =====
-- src/application/orders/helpers/cursor.helpers.ts. `Buffer` is a parameter: `encode` gives the base64
-- of a text, `decode` the text of a base64; so is `new Date`, which says whether a text is a date.
use canals.Prelude.{
  Text, List, [], ◌∷◌, ◌++◌, Option, none, some, Bool, true, false, ◌==◌, if◌then◌else◌,
}
use canals.Orders.Reads.{OrderCursor}

-- `split('|')`
unfoldable pub split_bar : Text → List Text
split_bar [] = [] ∷ []
split_bar (c ∷ cs) = let rest = split_bar cs in if c == b'|' then [] ∷ rest else push c rest
  where
    push : canals.Prelude.ℕ → List Text → List Text
    push c [] = (c ∷ []) ∷ []
    push c (part ∷ parts) = (c ∷ part) ∷ parts

module _ (encode decode : Text → Text) (is_date : Text → Bool) where
  unfoldable pub encode_cursor : OrderCursor → Text
  encode_cursor params = encode (params.created_at ++ (b'|' ∷ params.id))

  -- Two parts, the first a date; anything else is an InvalidCursorError.
  abbrev cursor_of : List Text → Option OrderCursor
  cursor_of (created_at ∷ id ∷ []) =
      if is_date created_at then some (record { created_at = created_at; id = id }) else none
  cursor_of _ = none

  unfoldable pub decode_cursor : Text → Option OrderCursor
  unfolding split_bar
  decode_cursor cursor = cursor_of (split_bar (decode cursor))
