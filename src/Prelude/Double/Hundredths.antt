-- ===== src/Prelude/Double/Hundredths.antt =====
-- The quotient of a whole number by 100, as a double: how near it is.
use native.Mathlib.Numerals.{unary_clauses}
use native.Mathlib.Nat.{div-lt_iff_lt-mul, div-add-mod, mod-lt}
use canals.Prelude.{
  ℕ, zero, suc, ◌+◌, ◌*◌, ◌/◌, ◌%◌, ◌^◌, ◌<◌, ◌≤◌, ◌≡◌, ◌==◌, subst, refl, sym, ◌∙◌, some, true,
  false, ltb, arith, Bool-cases, inl, inr, lt→ltb,
}
use canals.Prelude.Double.{mantissa_limit, half_even, nearest}

some-injective : {a b : ℕ} → some a ≡ some b → a ≡ b
some-injective {a} {b} h = ground (arith, h)

-- A multiple of `d` is not further off than half of it.
abbrev IsClose : ℕ → ℕ → ℕ → Type 0
IsClose n h d = (2 * (h * d) ≤ 2 * n + d) × (2 * n ≤ 2 * (h * d) + d)

next_multiple : (q d : ℕ) → (q + 1) * d ≡ d * q + d
next_multiple q d = omega arith

down : (q r d : ℕ) → 2 * r ≤ d → IsClose (d * q + r) q d
down q r d h = (omega (arith, h), omega (arith, h))

up : (q r d : ℕ) → r < d → d ≤ 2 * r → IsClose (d * q + r) (q + 1) d
up q r d h k = (omega (arith, h, k, next_multiple q d), omega (arith, h, k, next_multiple q d))

tie : (q r d : ℕ) → r < d → 2 * r ≤ d → d ≤ 2 * r → IsClose (d * q + r) (q + q % 2) d
tie q r d h k l = elim (Bool-cases (q % 2 == 0)) [
  | inl even ↦ subst (λ n. IsClose (d * q + r) n d) (ground (arith, even)) (down q r d k)
  | inr odd ↦ subst (λ n. IsClose (d * q + r) n d) (ground (arith, odd)) (up q r d h l)
]

half_even-IsClose : (q r d : ℕ) → r < d → IsClose (d * q + r) (half_even q r d) d
half_even-IsClose q r d h = elim (Bool-cases (ltb (2 * r) d)) [
  | inl less ↦ rw less (down q r d (ground (arith, less)))
  | inr same ↦ elim (Bool-cases (ltb d (2 * r))) [
    | inl more ↦ rw (same, more) (up q r d h (ground (arith, more)))
    | inr tied ↦ rw (same, tied) (tie q r d h (ground (arith, tied)) (ground (arith, same)))
  ]
]

hundred_units : (unit : ℕ) → 0 < unit → 0 < 100 * unit
hundred_units unit h = omega (arith, h)

large :
    (num unit : ℕ)
    → 0 < unit
    → ltb (num / (100 * unit)) mantissa_limit ≡ false
    → mantissa_limit * (100 * unit) ≤ num
large num unit h k = ground (
  arith,
  div-lt_iff_lt-mul {k = 100 * unit} {x = num} {y = mantissa_limit} (hundred_units unit h),
)

small :
    (num unit : ℕ)
    → 0 < unit
    → num < mantissa_limit * (100 * unit)
    → ltb (num / (100 * unit)) mantissa_limit ≡ true
small num unit h k =
    lt→ltb (num / (100 * unit)) mantissa_limit (
      (div-lt_iff_lt-mul {k = 100 * unit} {x = num} {y = mantissa_limit} (hundred_units unit h)).1
        k)

-- The nearest multiple of a unit.
abbrev at_unit : ℕ → ℕ → ℕ
at_unit num unit = half_even (num / (100 * unit)) (num % (100 * unit)) (100 * unit) * unit

at_unit-IsClose :
    (num unit : ℕ)
    → 0 < unit
    → (2 * (100 * at_unit num unit) ≤ 2 * num + 100 * unit)
      × (2 * num ≤ 2 * (100 * at_unit num unit) + 100 * unit)
at_unit-IsClose num unit h =
    let close =
      half_even-IsClose (num / (100 * unit)) (num % (100 * unit)) (100 * unit)
        (mod-lt num (hundred_units unit h)) in
    let whole_num = div-add-mod num (100 * unit) in
    (omega (arith, close.0, whole_num), omega (arith, close.1, whole_num))

-- Units that double and do not reach `bound` find a quotient that is not further off than half of it.
pub nearest-near :
    (fuel unit num bound y : ℕ)
    → 0 < unit
    → unit ≤ bound
    → 2 * num < mantissa_limit * (100 * bound)
    → nearest fuel unit num 100 ≡ some y
    → (2 * (100 * y) ≤ 2 * num + 100 * bound) × (2 * num ≤ 2 * (100 * y) + 100 * bound)
unfolding nearest
nearest-near zero unit num bound y h k low found = ground arith
nearest-near (suc fuel) unit num bound y h k low found =
    elim (Bool-cases (ltb (num / (100 * unit)) mantissa_limit)) [
      | inl fits ↦
          let here : nearest (suc fuel) unit num 100 ≡ some (at_unit num unit) =
            rw (nearest, fits) refl in
          let same : at_unit num unit ≡ y = some-injective (sym here ∙ found) in
          let close = at_unit-IsClose num unit h in
          (omega (arith, close.0, same, k), omega (arith, close.1, same, k))
      | inr over ↦
          let later : nearest (suc fuel) unit num 100 ≡ nearest fuel (2 * unit) num 100 =
            rw (nearest, over) refl in
          nearest-near fuel (2 * unit) num bound y (omega (arith, h))
            (omega (arith, large num unit h over, low)) low (sym later ∙ found)
    ]

double_unit : (unit power bound : ℕ) → bound ≤ unit * (power * 2) → bound ≤ 2 * unit * power
double_unit unit power bound h = omega (arith, h)

pub nearest-found :
    (fuel unit num bound : ℕ)
    → 0 < unit
    → num < mantissa_limit * (100 * bound)
    → bound ≤ unit * 2 ^ fuel
    → (y : ℕ) × (nearest (suc fuel) unit num 100 ≡ some y)
unfolding nearest
nearest-found zero unit num bound h k enough =
    (at_unit num unit, rw (nearest, small num unit h (omega (arith, k, enough))) refl)
nearest-found (suc fuel) unit num bound h k enough =
    elim (Bool-cases (ltb (num / (100 * unit)) mantissa_limit)) [
      | inl fits ↦ (at_unit num unit, rw (nearest, fits) refl)
      | inr over ↦
          let (y, found) =
            nearest-found fuel (2 * unit) num bound (omega (arith, h)) k
              (double_unit unit (2 ^ fuel) bound (simp unary_clauses at enough)) in
          (y, rw (nearest, over) found)
    ]
