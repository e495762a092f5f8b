-- ===== src/Domain/Money.antt =====
-- src/domain/value-objects/money.ts. The constructor is private, so an amount is a whole
-- number and never negative; sums and products are rounded as doubles are.
pub mod Laws
use canals.Prelude.{
  ℕ, ◌*◌, Text, codes, text_eq, is_upper, List, [], ◌∷◌, Bool, true, false, ◌&&◌, ltb, ◌==◌,
  if◌then◌else◌, not,
}
use canals.Prelude.Double.{Number, whole, other, double}
use canals.Prelude.Int.{ℤ, pos, negsuc, ◌+ℤ◌, ◌-ℤ◌, ◌*ℤ◌}
use canals.Errors.{
  Result, ok, err, not_an_amount, not_a_currency, mixed_currencies, not_a_quantity, guard, ◌>>=◌,
  ◌>>◌,
}

pub record Money : Type 0 where
  pub amount_cents : ℕ
  pub currency : Text

-- `/^[A-Z]{3}$/`
unfoldable pub is_currency : Text → Bool
is_currency (a ∷ b ∷ c ∷ []) = is_upper a && is_upper b && is_upper c
is_currency _ = false

abbrev pub usd : Text
usd = codes "USD"

unfoldable pub of : Number → Text → Result Money
of other currency = err not_an_amount
of (whole (negsuc n)) currency = err not_an_amount
of (whole (pos n)) currency =
    if is_currency currency
    then ok (record { amount_cents = n; currency = currency })
    else err (not_a_currency currency)

-- `zero()` with the default currency
unfoldable pub none_yet : Result Money
unfolding of
none_yet = of (whole (pos 0)) usd

assert_same_currency : Money → Money → Result (Unit {0})
assert_same_currency m second =
    guard (text_eq m.currency second.currency) (mixed_currencies m.currency second.currency)

unfoldable pub add : Money → Money → Result Money
unfolding of assert_same_currency ◌+ℤ◌ double
add m addend = do
  assert_same_currency m addend
  of (double (pos m.amount_cents +ℤ pos addend.amount_cents)) m.currency

unfoldable pub subtract : Money → Money → Result Money
unfolding of assert_same_currency ◌-ℤ◌ double
subtract m taken = do
  assert_same_currency m taken
  of (double (pos m.amount_cents -ℤ pos taken.amount_cents)) m.currency

abbrev is_negative : ℤ → Bool
is_negative (pos _) = false
is_negative (negsuc _) = true

unfoldable pub multiply : Money → Number → Result Money
unfolding of ◌*ℤ◌ double
multiply m other = err not_a_quantity
multiply m (whole quantity) = do
  guard (not (is_negative quantity)) not_a_quantity
  of (double (pos m.amount_cents *ℤ quantity)) m.currency

unfoldable pub is_greater_than : Money → Money → Result Bool
unfolding assert_same_currency
is_greater_than m second = do
  assert_same_currency m second
  ok (ltb second.amount_cents m.amount_cents)

unfoldable pub equals : Money → Money → Bool
equals m second = m.amount_cents == second.amount_cents && text_eq m.currency second.currency
