-- ===== src/Domain/Money/Laws.antt =====
-- Sums and products of amounts that stay safe integers.
use canals.Prelude.{ℕ, ◌+◌, ◌*◌, ◌≤◌, ◌≡◌, ap, ◌∙◌, Text, text_eq, if◌then◌else◌, true, arith}
use canals.Prelude.Double.{whole, max_safe_integer, double, double-exact}
use canals.Prelude.Int.{pos, ◌+ℤ◌, ◌*ℤ◌}
use canals.Errors.{ok, err, mixed_currencies}
use canals.Domain.Money.{Money, is_currency, add, multiply}

-- What every value made by `of` satisfies.
pub record IsMoney (m : Money) : Type 0 where
  pub coded : is_currency m.currency ≡ true

abbrev pub cents : ℕ → Text → Money
cents n currency = record { amount_cents = n; currency = currency }

sum-exact : (a b : ℕ) → a + b ≤ max_safe_integer → double (pos a +ℤ pos b) ≡ whole (pos (a + b))
unfolding ◌+ℤ◌
sum-exact a b safe = ap double (ground arith) ∙ double-exact (a + b) safe

product-exact : (a b : ℕ) → a * b ≤ max_safe_integer → double (pos a *ℤ pos b) ≡ whole (pos (a * b))
unfolding ◌*ℤ◌
product-exact a b safe = ap double (ground arith) ∙ double-exact (a * b) safe

-- `add` gives the exact sum in the common currency, and throws exactly when the currencies differ.
pub add_lem :
    (m addend : Money)
    → IsMoney m
    → m.amount_cents + addend.amount_cents ≤ max_safe_integer
    → add m addend ≡ (
        if text_eq m.currency addend.currency
        then ok (cents (m.amount_cents + addend.amount_cents) m.currency)
        else err (mixed_currencies m.currency addend.currency))
unfolding add
add_lem m addend h safe =
    rw (add, sum-exact m.amount_cents addend.amount_cents safe) (ground (arith, h.coded))

pub multiply_lem :
    (m : Money) (n : ℕ)
    → IsMoney m
    → m.amount_cents * n ≤ max_safe_integer
    → multiply m (whole (pos n)) ≡ ok (cents (m.amount_cents * n) m.currency)
unfolding multiply
multiply_lem m n h safe =
    rw (multiply, product-exact m.amount_cents n safe) (ground (arith, h.coded))
