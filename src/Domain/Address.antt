-- ===== src/Domain/Address.antt =====
-- src/domain/value-objects/shipping-address.ts and coordinates.ts. A latitude or a longitude is an
-- integer number of micro-degrees: there are no floats, and the program only compares them.
use canals.Prelude.{
  ℕ, Text, text_eq, [], ◌∷◌, Option, none, some, Bool, true, false, ◌&&◌, ◌||◌, ◌==◌, leb, not,
}
use canals.Prelude.Int.{ℤ, pos, negsuc}
use canals.Errors.{
  Result, ok, AddressField, recipient, line1, city, country, address_field_required, not_a_latitude,
  not_a_longitude, guard, ◌>>◌,
}

pub record ShippingAddress : Type 0 where
  pub recipient : Text
  pub line1 : Text
  pub line2 : Option Text
  pub city : Text
  pub state : Option Text
  pub postal_code : Option Text
  pub country : Text

-- The white space that `trim` removes: the ASCII characters and those above them.
unfoldable pub is_space : ℕ → Bool
is_space c =
    (leb 9 c && leb c 13)
    || c == 32
    || c == 160
    || c == 0x1680
    || (leb 0x2000 c && leb c 0x200a)
    || c == 0x2028
    || c == 0x2029
    || c == 0x202f
    || c == 0x205f
    || c == 0x3000
    || c == 0xfeff

-- `!value || value.trim().length === 0`: a text of white space only.
unfoldable pub is_blank : Text → Bool
unfolding is_space
is_blank [] = true
is_blank (c ∷ cs) = is_space c && is_blank cs

require : AddressField → Text → Result (Unit {0})
require field value = guard (not (is_blank value)) (address_field_required field)

unfoldable pub address_of : ShippingAddress → Result ShippingAddress
unfolding require
address_of props = do
  require recipient props.recipient
  require line1 props.line1
  require city props.city
  require country props.country
  ok props

abbrev same_optional : Option Text → Option Text → Bool
same_optional none none = true
same_optional (some a) (some b) = text_eq a b
same_optional _ _ = false

unfoldable pub address_equals : ShippingAddress → ShippingAddress → Bool
address_equals a other =
    text_eq a.recipient other.recipient
    && text_eq a.line1 other.line1
    && same_optional a.line2 other.line2
    && text_eq a.city other.city
    && same_optional a.state other.state
    && same_optional a.postal_code other.postal_code
    && text_eq a.country other.country

pub record Coordinates : Type 0 where
  pub latitude : ℤ
  pub longitude : ℤ

-- `value < -limit || value > limit`
abbrev is_beyond : ℕ → ℤ → Bool
is_beyond limit (pos n) = not (leb n limit)
is_beyond limit (negsuc n) = leb limit n

unfoldable pub coordinates_of : ℤ → ℤ → Result Coordinates
coordinates_of latitude longitude = do
  guard (not (is_beyond 90000000 latitude)) not_a_latitude
  guard (not (is_beyond 180000000 longitude)) not_a_longitude
  ok (record { latitude = latitude; longitude = longitude })
