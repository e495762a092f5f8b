-- ===== src/Orders/Create/Total.antt =====
-- The total of an order.
use canals.Prelude.{
  ℕ, ◌+◌, ◌*◌, ◌≤◌, ◌≡◌, refl, ap, ◌∙◌, List, [], ◌∷◌, none, some, true, arith, Option-cases, inl,
  inr, is_some,
}
use canals.Prelude.Double.{whole, max_safe_integer}
use canals.Prelude.Int.{pos}
use canals.Errors.{ok}
use canals.Domain.Money
use canals.Domain.Money.{Money, usd, none_yet}
use canals.Domain.Money.Laws.{IsMoney, cents, add_lem, multiply_lem}
use canals.Allocation.Inventory.{OrderLine}
use canals.Orders.Create.{ProductRow, find_product, get_product, total_from, order_total}

-- The prices of the lines' products by the lines' quantities; a product that is not there adds
-- nothing.
abbrev pub cents_of : List ProductRow → List OrderLine → ℕ
cents_of products [] = 0
cents_of products (line ∷ lines) = elim (find_product line.product_id products) [
  | none ↦ cents_of products lines
  | some p ↦ p.unit_price_cents * line.quantity + cents_of products lines
]

-- Every line's product is there.
abbrev pub AreFound : List ProductRow → List OrderLine → Type 0
AreFound products [] = Unit
AreFound products (line ∷ lines) =
    (is_some (find_product line.product_id products) ≡ true) × AreFound products lines

usd-IsMoney : (n : ℕ) → IsMoney (cents n usd)
unfolding Money.is_currency
usd-IsMoney n = record { coded = refl }

price_eq : (n : ℕ) → Money.of (whole (pos n)) usd ≡ ok (cents n usd)
unfolding Money.of Money.is_currency
price_eq n = refl

line_total_eq :
    (price quantity : ℕ)
    → price * quantity ≤ max_safe_integer
    → Money.multiply (cents price usd) (whole (pos quantity)) ≡ ok (cents (price * quantity) usd)
line_total_eq price quantity safe = multiply_lem (cents price usd) quantity (usd-IsMoney price) safe

sum_eq :
    (m n : ℕ)
    → m + n ≤ max_safe_integer
    → Money.add (cents m usd) (cents n usd) ≡ ok (cents (m + n) usd)
sum_eq m n safe = add_lem (cents m usd) (cents n usd) (usd-IsMoney m) safe

total_from_lem :
    (products : List ProductRow) (sum : ℕ) (lines : List OrderLine)
    → AreFound products lines
    → sum + cents_of products lines ≤ max_safe_integer
    → total_from products (cents sum usd) lines ≡ ok (cents (sum + cents_of products lines) usd)
unfolding total_from
total_from_lem products sum [] found safe = ap (λ n. ok (cents n usd)) (omega arith)
total_from_lem products sum (line ∷ lines) found safe =
    elim (Option-cases (find_product line.product_id products)) [
      | inl missing ↦ absurd (cc (missing, found.0))
      | inr (p, at) ↦
          let all : cents_of products (line ∷ lines)
              ≡ p.unit_price_cents * line.quantity + cents_of products lines =
            rw (cents_of, at) refl in
          rw (total_from, get_product, cents_of, at)
            (rw
              (
                price_eq p.unit_price_cents,
                line_total_eq p.unit_price_cents line.quantity (omega (arith, safe, all)),
                sum_eq sum (p.unit_price_cents * line.quantity) (omega (arith, safe, all)),
              )
              (total_from_lem products (sum + p.unit_price_cents * line.quantity) lines found.1
                  (omega (arith, safe, all))
                ∙ ap (λ n. ok (cents n usd)) (omega arith)))
    ]

-- Every line's product is there, and the sum of the prices by the quantities is at most
-- `Number.MAX_SAFE_INTEGER`. Then the total is exactly that sum, in cents of the default currency: no
-- multiplication or addition on the way, on doubles, throws or rounds.
pub order_total_lem :
    (products : List ProductRow) (lines : List OrderLine)
    → AreFound products lines
    → cents_of products lines ≤ max_safe_integer
    → order_total products lines ≡ ok (cents (cents_of products lines) usd)
unfolding order_total none_yet Money.of Money.is_currency
order_total_lem products lines found safe =
    total_from_lem products 0 lines found (omega (arith, safe))
    ∙ ap (λ n. ok (cents n usd)) (omega arith)
