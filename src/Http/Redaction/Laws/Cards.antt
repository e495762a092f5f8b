-- ===== src/Http/Redaction/Laws/Cards.antt =====
-- redaction.ts: a text of digits, with the Luhn formula.
use canals.Prelude.{
  ℕ, zero, suc, ◌+◌, ◌*◌, ◌/◌, ◌%◌, ◌<◌, ◌-◌, ◌∙◌, not, length-append, ◌≤◌, ◌≡◌, refl, ap, Text,
  is_digit, [], ◌∷◌, ◌++◌, true, false, ◌==◌, leb, length, replicate, All, arith, Bool-cases, inl,
  inr, if◌then◌else◌,
}
use canals.Http.Redaction.Masking.{
  drop, last4, mask_digits, mask_cards, is_luhn_valid, luhn_sum, run_at, card_step, is_separator,
}

abbrev pub AreDigits : Text → Type 0
AreDigits = All (λ c. is_digit c ≡ true)

not_separator : (d : ℕ) → is_digit d ≡ true → is_separator d ≡ false
not_separator d h = ground arith

run_at-AreDigits :
    (n : ℕ) (t : Text)
    → AreDigits t
    → length t ≤ n
    → run_at n t ≡ record { digits = t; matched = t }
unfolding run_at
run_at-AreDigits zero [] h k = refl
run_at-AreDigits (suc n) [] h k = refl
run_at-AreDigits zero (c ∷ t) h k = ground arith
run_at-AreDigits (suc n) (c ∷ []) h k = rw h.0 refl
run_at-AreDigits (suc n) (c ∷ d ∷ []) h k =
    rw (h.0, run_at-AreDigits n (d ∷ []) h.1 (omega (arith, k))) refl
run_at-AreDigits (suc n) (c ∷ d ∷ e ∷ t) h k =
    rw (h.0, not_separator d h.1.0, run_at-AreDigits n (d ∷ e ∷ t) h.1 (omega (arith, k))) refl

mask_cards-skipped : (t : Text) → mask_cards (length t) t ≡ []
unfolding mask_cards
mask_cards-skipped [] = refl
mask_cards-skipped (c ∷ t) = mask_cards-skipped t

append_nil : (t : Text) → t ++ [] ≡ t
append_nil [] = refl
append_nil (c ∷ t) = ap (λ r. c ∷ r) (append_nil t)

long_enough : (n : ℕ) → 13 ≤ n → leb 13 n ≡ true
long_enough n h = ground arith

less_one : (t : Text) → suc (length t) - 1 ≡ length t
less_one t = omega arith

card_step-AreDigits :
    (c : ℕ) (t : Text)
    → AreDigits (c ∷ t)
    → 13 ≤ length (c ∷ t)
    → length (c ∷ t) ≤ 19
    → card_step c t ≡ record {
      written = if is_luhn_valid (c ∷ t) then mask_digits (c ∷ t) else c ∷ t;
      skip = length t;
    }
unfolding card_step
card_step-AreDigits c t h low high =
    rw (run_at-AreDigits 19 (c ∷ t) h high, long_enough (length (c ∷ t)) low, less_one t) refl

-- The Luhn formula by place: a digit counts once if an even number of digits follow it, and else its
-- double counts, by the sum of the double's own digits.
abbrev pub check_sum : Text → ℕ
check_sum [] = 0
check_sum (c ∷ cs) =
    (if length cs % 2 == 0 then c - b'0' else (2 * (c - b'0')) / 10 + (2 * (c - b'0')) % 10)
    + check_sum cs

digit_value : (c : ℕ) → is_digit c ≡ true → c - b'0' < 10
digit_value c h = ground arith

luhn_sum-parity : (t : Text) → (luhn_sum t).1 ≡ not (length t % 2 == 0)
unfolding luhn_sum
luhn_sum-parity [] = refl
luhn_sum-parity (c ∷ cs) = rw (luhn_sum-parity cs) (ground arith)

luhn_sum_lem : (t : Text) → AreDigits t → (luhn_sum t).0 ≡ check_sum t
unfolding luhn_sum
luhn_sum_lem [] h = refl
luhn_sum_lem (c ∷ cs) h = elim (Bool-cases (length cs % 2 == 0)) [
  | inl even ↦ rw (luhn_sum-parity cs, luhn_sum_lem cs h.1, even) (omega arith)
  | inr odd ↦ rw (luhn_sum-parity cs, luhn_sum_lem cs h.1, odd) (ground (arith, digit_value c h.0))
]

drop-front : (front back : Text) → drop (length front) (front ++ back) ≡ back
drop-front [] back = refl
drop-front (c ∷ front) back = drop-front front back

mask_digits_lem :
    (front back : Text)
    → length back ≡ 4
    → mask_digits (front ++ back) ≡ replicate (length front) b'*' ++ back
unfolding mask_digits
mask_digits_lem front back four =
    let before : length (front ++ back) - 4 ≡ length front =
      omega (arith, length-append front back, four) in
    let shown : last4 (front ++ back) ≡ back =
      ap (λ n. drop n (front ++ back)) before ∙ drop-front front back in
    let stars : length (front ++ back) - length (last4 (front ++ back)) ≡ length front =
      omega (arith, length-append front back, ap length shown) in
    ap (λ n. replicate n b'*' ++ last4 (front ++ back)) stars
    ∙ ap (λ t. replicate (length front) b'*' ++ t) shown

mask_cards-AreDigits :
    (t : Text)
    → AreDigits t
    → 13 ≤ length t
    → length t ≤ 19
    → mask_cards 0 t ≡ (if is_luhn_valid t then mask_digits t else t)
unfolding mask_cards
mask_cards-AreDigits [] h low high = ground arith
mask_cards-AreDigits (c ∷ t) h low high =
    rw (card_step-AreDigits c t h low high, mask_cards-skipped t)
      (append_nil (if is_luhn_valid (c ∷ t) then mask_digits (c ∷ t) else c ∷ t))

-- A text of 13 to 19 digits that passes the Luhn formula is masked up to its last four digits, and
-- one that does not pass it is left as it is.
pub mask_cards_lem :
    (front back : Text)
    → AreDigits (front ++ back)
    → length back ≡ 4
    → 9 ≤ length front
    → length front ≤ 15
    → mask_cards 0 (front ++ back) ≡ (
        if check_sum (front ++ back) % 10 == 0
        then replicate (length front) b'*' ++ back
        else front ++ back)
unfolding is_luhn_valid
mask_cards_lem front back h four low high =
    mask_cards-AreDigits (front ++ back) h (omega (arith, length-append front back, four, low))
      (omega (arith, length-append front back, four, high))
    ∙ ap (λ n. if n % 10 == 0 then mask_digits (front ++ back) else front ++ back)
        (luhn_sum_lem (front ++ back) h)
    ∙ ap (λ t. if check_sum (front ++ back) % 10 == 0 then t else front ++ back)
        (mask_digits_lem front back four)
