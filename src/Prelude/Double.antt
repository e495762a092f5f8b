-- ===== src/Prelude/Double.antt =====
-- The numbers of JavaScript, IEEE doubles, as far as whole amounts need them. An operation's exact
-- result is rounded to the nearest double, ties to the even mantissa. Zero's sign is left out.
pub mod Hundredths
use canals.Prelude.{
  ℕ, zero, suc, ◌+◌, ◌*◌, ◌/◌, ◌%◌, ◌<◌, ◌≤◌, ◌≡◌, refl, Option, none, some, true, false, ltb,
  if◌then◌else◌, arith,
}
use canals.Prelude.Int.{ℤ, pos, negsuc}

-- A whole number, or `other`: a fraction, an infinity or NaN.
pub data Number : Type 0 where
  whole : ℤ → Number
  other : Number

-- 2 ^ 53, what a mantissa is below.
abbrev pub mantissa_limit : ℕ
mantissa_limit = 9007199254740992

abbrev pub max_safe_integer : ℕ
max_safe_integer = 9007199254740991

abbrev square : ℕ → ℕ
square n = n * n

-- 2 ^ 1024, what a finite double is below.
unfoldable double_limit : ℕ
double_limit = square (square (square (square (square 4294967296))))

-- `quotient` and `remainder` over `divisor`, as one whole number.
abbrev pub half_even : ℕ → ℕ → ℕ → ℕ
half_even quotient remainder divisor =
    if ltb (2 * remainder) divisor
    then quotient
    else if ltb divisor (2 * remainder)
    then quotient + 1
    else quotient + quotient % 2

-- The multiple of the first unit, of `unit`, twice `unit` and so on, whose mantissa is in range, that
-- is nearest to `num / den`.
unfoldable pub nearest : ℕ → ℕ → ℕ → ℕ → Option ℕ
nearest zero unit num den = none
nearest (suc fuel) unit num den = elim (ltb (num / (den * unit)) mantissa_limit) [
  | true ↦ some (half_even (num / (den * unit)) (num % (den * unit)) (den * unit) * unit)
  | false ↦ nearest fuel (2 * unit) num den
]

abbrev finite : Option ℕ → Option ℕ
finite none = none
finite (some n) = if ltb n double_limit then some n else none

-- The double nearest to a whole number, unless that is infinite.
unfoldable rounded : ℕ → Option ℕ
unfolding nearest double_limit
rounded n = finite (nearest 972 1 n 1)

abbrev positive : Option ℕ → Number
positive none = other
positive (some n) = whole (pos n)

abbrev negative : Option ℕ → Number
negative none = other
negative (some zero) = whole (pos 0)
negative (some (suc n)) = whole (negsuc n)

-- The double nearest to an integer.
unfoldable pub double : ℤ → Number
unfolding rounded
double (pos n) = positive (rounded n)
double (negsuc n) = negative (rounded (suc n))

nearest-small : (fuel n : ℕ) → n ≤ max_safe_integer → nearest (suc fuel) 1 n 1 ≡ some n
unfolding nearest
nearest-small fuel n h = ground (arith, h)

small-finite : (n : ℕ) → n ≤ max_safe_integer → finite (some n) ≡ some n
unfolding double_limit
small-finite n h = ground (arith, h)

-- A whole number up to `Number.MAX_SAFE_INTEGER` is a double.
pub double-exact : (n : ℕ) → n ≤ max_safe_integer → double (pos n) ≡ whole (pos n)
unfolding double rounded
double-exact n h = rw (nearest-small 971 n h, small-finite n h) refl
