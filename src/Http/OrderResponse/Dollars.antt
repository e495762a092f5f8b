-- ===== src/Http/OrderResponse/Dollars.antt =====
-- src/infrastructure/http/dto/helpers/money-format.helper.ts: `(cents / 100).toFixed(2)`, with
-- the quotient rounded to a double. Amounts of money come from and go to bigint columns; the exponent
-- form of a text for 10^21 dollars or more is left out.
use canals.Prelude.{
  ℕ, zero, suc, ◌+◌, ◌*◌, ◌/◌, ◌%◌, ◌-◌, ◌<◌, ◌≤◌, ◌≡◌, refl, ap, sym, ◌∙◌, Text, codes, is_digit,
  [], ◌∷◌, ◌++◌, Option, none, some, true, All, ltb, if◌then◌else◌, arith, ltb→lt, Bool-cases, inl,
  inr,
}
use canals.Prelude.Double.{nearest, mantissa_limit}
use canals.Prelude.Double.Hundredths.{nearest-near, nearest-found}

abbrev pub digit : ℕ → ℕ
digit d = b'0' + d

-- The decimal digits of a number below `10 ^ fuel`, before what follows them.
unfoldable pub print_nat : ℕ → ℕ → Text → Text
print_nat zero n after = after
print_nat (suc fuel) n after =
    let rest = print_nat fuel (n / 10) (digit (n % 10) ∷ after) in
    if ltb n 10 then digit n ∷ after else rest

-- What a double of a dollar is counted in here, 2 ^ -60: the double nearest to a cent is a multiple of
-- two of them.
abbrev dollar : ℕ
dollar = 1152921504606846976

-- `cents / 100`
unfoldable pub quotient : ℕ → Option ℕ
unfolding nearest
quotient cents = nearest 1032 1 (cents * dollar) 100

-- The n for which n / 100 is nearest to the double, of two the larger.
abbrev pub hundredths : ℕ → ℕ
hundredths x = (200 * x + dollar) / (2 * dollar)

unfoldable pub to_fixed : ℕ → Text
unfolding print_nat
to_fixed n = print_nat (suc (n / 100)) (n / 100) (b'.' ∷ digit (n / 10 % 10) ∷ digit (n % 10) ∷ [])

abbrev fixed : Option ℕ → Text
fixed none = codes "Infinity"
fixed (some x) = to_fixed (hundredths x)

unfoldable pub format_cents_as_dollars : ℕ → Text
unfolding quotient to_fixed
format_cents_as_dollars cents = fixed (quotient cents)

-- The number that the digits of a text make, after those of `sum`.
unfoldable pub read_number : ℕ → Text → ℕ
read_number sum [] = sum
read_number sum (c ∷ cs) = read_number (sum * 10 + (c - b'0')) cs

read_digit :
    (sum d : ℕ) (cs : Text)
    → d < 10
    → read_number sum (digit d ∷ cs) ≡ read_number (sum * 10 + d) cs
unfolding read_number
read_digit sum d cs h = ap (λ n. read_number (sum * 10 + n) cs) (omega arith)

drop : (n : ℕ) → 0 * 10 + n ≡ n
drop n = omega arith

regroup : (n : ℕ) → n / 10 * 10 + n % 10 ≡ n
regroup n = omega arith

read_print :
    (fuel n : ℕ) (after : Text)
    → n < fuel
    → read_number 0 (print_nat fuel n after) ≡ read_number n after
unfolding print_nat
read_print zero n after h = omega arith
read_print (suc fuel) n after h = elim (Bool-cases (ltb n 10)) [
  | inl small ↦ rw (small, read_digit 0 n after (ltb→lt n 10 small), drop n) refl
  | inr large ↦
      rw
        (
          large,
          read_print fuel (n / 10) (digit (n % 10) ∷ after) (ground arith),
          read_digit (n / 10) (n % 10) after (omega arith),
          regroup n,
        )
        refl
]

print_after :
    (fuel n : ℕ) (before after : Text)
    → print_nat fuel n before ++ after ≡ print_nat fuel n (before ++ after)
unfolding print_nat
print_after zero n before after = refl
print_after (suc fuel) n before after = elim (Bool-cases (ltb n 10)) [
  | inl small ↦ rw small refl
  | inr large ↦ rw large (print_after fuel (n / 10) (digit (n % 10) ∷ before) after)
]

abbrev AreDigits : Text → Type 0
AreDigits = All (λ c. is_digit c ≡ true)

digit-IsDigit : (d : ℕ) → d < 10 → is_digit (digit d) ≡ true
digit-IsDigit d h = ground arith

print_nat-AreDigits :
    (fuel n : ℕ) (after : Text) → AreDigits after → AreDigits (print_nat fuel n after)
unfolding print_nat
print_nat-AreDigits zero n after h = h
print_nat-AreDigits (suc fuel) n after h = elim (Bool-cases (ltb n 10)) [
  | inl small ↦ rw small (digit-IsDigit n (ltb→lt n 10 small), h)
  | inr large ↦ rw large (
      print_nat-AreDigits fuel (n / 10) (digit (n % 10) ∷ after)
        (digit-IsDigit (n % 10) (omega arith), h))
]

-- The double of a quotient prints as the cents again.
hundredths-near :
    (cents x : ℕ)
    → (2 * (100 * x) ≤ 2 * (cents * dollar) + 100 * mantissa_limit)
      × (2 * (cents * dollar) ≤ 2 * (100 * x) + 100 * mantissa_limit)
    → hundredths x ≡ cents
hundredths-near cents x h = omega (arith, h.0, h.1)

quotient_lem :
    (cents : ℕ)
    → cents < 3518437208883200
    → (x : ℕ) × (quotient cents ≡ some x) × (hundredths x ≡ cents)
unfolding quotient
quotient_lem cents h =
    let (x, found) =
      nearest-found 1031 1 (cents * dollar) mantissa_limit (omega arith) (omega (arith, h))
        (omega arith) in
    (
      x,
      found,
      hundredths-near cents x (
          nearest-near 1032 1 (cents * dollar) mantissa_limit x (omega arith) (omega arith)
            (omega (arith, h)) found),
    )

format_cents-exact :
    (cents : ℕ) → cents < 3518437208883200 → format_cents_as_dollars cents ≡ to_fixed cents
unfolding format_cents_as_dollars
format_cents-exact cents h =
    let (x, found, same) = quotient_lem cents h in
    rw (format_cents_as_dollars, found) (ap to_fixed same)

-- An amount of less than 35 million million dollars is written, although the quotient is a double, as
-- the digits of the whole dollars, a point, and the two digits of the cents that are left over.
pub format_cents_lem :
    (cents : ℕ)
    → cents < 3518437208883200
    → (dollars : Text) × (format_cents_as_dollars cents
        ≡ dollars ++ (b'.' ∷ digit (cents % 100 / 10) ∷ digit (cents % 10) ∷ []))
      × (read_number 0 dollars ≡ cents / 100)
      × AreDigits dollars
unfolding to_fixed read_number
format_cents_lem cents h = (
  print_nat (suc (cents / 100)) (cents / 100) [],
  format_cents-exact cents h
      ∙ ap
          (λ n.
            print_nat (suc (cents / 100)) (cents / 100) (b'.' ∷ digit n ∷ digit (cents % 10) ∷ []))
          (omega arith)
      ∙ sym (print_after (suc (cents / 100)) (cents / 100) [] _),
  read_print (suc (cents / 100)) (cents / 100) [] (omega arith),
  print_nat-AreDigits (suc (cents / 100)) (cents / 100) [] tt,
)
