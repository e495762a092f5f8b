-- ===== src/Payments/Card.antt =====
-- src/infrastructure/payments/card.ts. A text is a list of code units; `Number` is only taken of
-- digits, where the empty text is 0.
use canals.Prelude.{
  ℕ, ◌+◌, ◌-◌, ◌*◌, Text, codes, is_digit, [], ◌∷◌, Bool, true, false, ◌&&◌, ◌||◌, filter, length,
  take, leb, ◌==◌, if◌then◌else◌,
}
use canals.Store.{CardBrand, visa, mastercard, amex, discover, unknown}

pub record CardDescription : Type 0 where
  pub last4 : Text
  pub brand : CardBrand

abbrev pub starts_with : Text → Text → Bool
starts_with [] s = true
starts_with (p ∷ ps) [] = false
starts_with (p ∷ ps) (c ∷ cs) = p == c && starts_with ps cs

-- `Number` of a text of digits.
abbrev number_from : ℕ → Text → ℕ
number_from n [] = n
number_from n (c ∷ cs) = number_from (n * 10 + (c - b'0')) cs

abbrev pub number : Text → ℕ
number s = number_from 0 s

unfoldable pub is_mastercard : Text → Bool
is_mastercard digits =
    leb 51 (number (take 2 digits)) && leb (number (take 2 digits)) 55
    || (leb 2221 (number (take 4 digits)) && leb (number (take 4 digits)) 2720)

unfoldable pub is_discover : Text → Bool
is_discover digits =
    starts_with (codes "6011") digits
    || (leb 644 (number (take 3 digits)) && leb (number (take 3 digits)) 649)
    || starts_with (codes "65") digits

unfoldable pub describe_brand : Text → CardBrand
unfolding is_mastercard is_discover
describe_brand digits =
    if starts_with (codes "4") digits
    then visa
    else if is_mastercard digits
    then mastercard
    else if starts_with (codes "34") digits || starts_with (codes "37") digits
    then amex
    else if is_discover digits
    then discover
    else unknown

abbrev drop_to_last : ℕ → Text → Text
drop_to_last n [] = []
drop_to_last n (c ∷ cs) = if leb (length (c ∷ cs)) n then c ∷ cs else drop_to_last n cs

unfoldable pub describe_card : Text → CardDescription
unfolding describe_brand
describe_card pan =
    let digits = filter is_digit pan in
    record { last4 = drop_to_last 4 digits; brand = describe_brand digits }
