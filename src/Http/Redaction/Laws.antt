-- ===== src/Http/Redaction/Laws.antt =====
-- redaction.ts: what is left of card numbers and secrets.
pub mod Cards
use canals.Prelude.{
  ℕ, zero, suc, ◌+◌, ◌*◌, ◌/◌, ◌%◌, ◌<◌, ◌-◌, ◌∙◌, not, length-append, ◌≤◌, ◌≡◌, refl, ap, Text,
  is_digit, [], ◌∷◌, ◌++◌, Bool, true, false, ◌==◌, leb, length, replicate, All, arith, Bool-cases,
  inl, inr, if◌then◌else◌, ==_iff,
}
use canals.Http.Redaction.Masking.{
  digits_of, drop, last4, mask_digits, mask_card_value, redacted_secret, mask_cards, is_luhn_valid,
  luhn_sum, run_at, card_step, redact_string, is_separator,
}
use canals.Http.Redaction.{
  Value, text, opaque, array, object, error, Items, no_items, item, Fields, no_fields, field,
  is_masked_key, is_redacted_key, redacted_field, redact_value, redact_items, redact_object,
}

digits_of-append : (s t : Text) → digits_of (s ++ t) ≡ digits_of s ++ digits_of t
digits_of-append [] t = refl
digits_of-append (c ∷ cs) t = ground (arith, digits_of-append cs t)

digits_of-stars : (n : ℕ) → digits_of (replicate n b'*') ≡ []
digits_of-stars zero = refl
digits_of-stars (suc n) = digits_of-stars n

length-digits_of : (t : Text) → length (digits_of t) ≤ length t
length-digits_of [] = omega arith
length-digits_of (c ∷ cs) = ground (arith, length-digits_of cs)

length-drop : (n : ℕ) (t : Text) → length (drop n t) ≡ length t - n
length-drop zero t = omega arith
length-drop (suc n) [] = omega arith
length-drop (suc n) (c ∷ cs) = omega (arith, length-drop n cs)

mask_digits-few : (digits : Text) → length (digits_of (mask_digits digits)) ≤ 4
unfolding mask_digits
mask_digits-few digits =
    rw
      (
        digits_of-append (replicate (length digits - length (last4 digits)) b'*') (last4 digits),
        digits_of-stars (length digits - length (last4 digits)),
      )
      (omega (arith, length-digits_of (last4 digits), length-drop (length digits - 4) digits))

mask_card_value-few : (raw : Text) → length (digits_of (mask_card_value raw)) ≤ 4
unfolding mask_card_value
mask_card_value-few raw = elim (Bool-cases (length (digits_of raw) == 0)) [
  | inl bare ↦ rw bare (omega (arith, (==_iff (length (digits_of raw)) 0).0 bare))
  | inr some_digits ↦ rw some_digits (mask_digits-few (digits_of raw))
]

-- A value that stands under a key: a secret's is replaced, and a card's text keeps four digits at most.
abbrev pub IsCleanAt : Text → Value → Type 0
IsCleanAt key (text t) =
    (is_redacted_key key ≡ true → t ≡ redacted_secret)
    × (is_masked_key key ≡ true → is_redacted_key key ≡ false → length (digits_of t) ≤ 4)
IsCleanAt key _ = is_redacted_key key ≡ false

unfoldable mutual
  -- At any depth, each field of an object is clean.
  pub IsClean : Value → Type 0
  IsClean (array items) = AreClean items
  IsClean (object fields) = HasClean fields
  IsClean _ = Unit

  pub AreClean : Items → Type 0
  AreClean no_items = Unit
  AreClean (item value items) = IsClean value × AreClean items

  pub HasClean : Fields → Type 0
  HasClean no_fields = Unit
  HasClean (field key value fields) = IsCleanAt key value × IsClean value × HasClean fields

unfoldable mutual
  -- No error stands in the value.
  pub IsPlain : Value → Type 0
  IsPlain (array items) = ArePlain items
  IsPlain (object fields) = HasPlain fields
  IsPlain (error _ _ _ _) = ⊥
  IsPlain _ = Unit

  pub ArePlain : Items → Type 0
  ArePlain no_items = Unit
  ArePlain (item value items) = IsPlain value × ArePlain items

  pub HasPlain : Fields → Type 0
  HasPlain no_fields = Unit
  HasPlain (field key value fields) = IsPlain value × HasPlain fields

secret-IsCleanAt :
    (key : Text) (t : Text) → is_redacted_key key ≡ true → IsCleanAt key (text redacted_secret)
secret-IsCleanAt key t secret = (λ h. refl, λ h not_secret. ground (arith, secret, not_secret))

text-IsCleanAt :
    (key t : Text) → IsCleanAt key (redacted_field key (text t) (text (redact_string t)))
unfolding redacted_field
text-IsCleanAt key t = elim (Bool-cases (is_redacted_key key)) [
  | inl secret ↦ rw secret (secret-IsCleanAt key t secret)
  | inr open_key ↦ elim (Bool-cases (is_masked_key key)) [
    | inl masked ↦
        rw (open_key, masked)
          (λ secret. ground (arith, secret, open_key), λ h k. mask_card_value-few t)
    | inr plain ↦
        rw (open_key, plain)
          (λ secret. ground (arith, secret, open_key), λ masked k. ground (arith, masked, plain))
  ]
]

other-IsCleanAt :
    (key : Text) (r : Value)
    → (is_redacted_key key ≡ false → IsCleanAt key r)
    → IsCleanAt key (if is_redacted_key key then text redacted_secret else r)
other-IsCleanAt key r h = elim (Bool-cases (is_redacted_key key)) [
  | inl secret ↦ rw secret (secret-IsCleanAt key [] secret)
  | inr open_key ↦ rw open_key (h open_key)
]

if-IsClean :
    (test : Bool) (r : Value) → IsClean r → IsClean (if test then text redacted_secret else r)
unfolding IsClean
if-IsClean true r h = tt
if-IsClean false r h = h

text-IsClean : (key t : Text) → IsClean (redacted_field key (text t) (text (redact_string t)))
unfolding IsClean redacted_field
text-IsClean key t = elim (Bool-cases (is_redacted_key key)) [
  | inl secret ↦ rw secret tt
  | inr open_key ↦ elim (Bool-cases (is_masked_key key)) [
    | inl masked ↦ rw (open_key, masked) tt
    | inr plain ↦ rw (open_key, plain) tt
  ]
]

mutual
  unfolding IsClean IsPlain redact_value

  value-IsClean : (v : Value) → IsPlain v → IsClean (redact_value v)
  value-IsClean (text t) h = tt
  value-IsClean (opaque n) h = tt
  value-IsClean (array items) h = items-AreClean items h
  value-IsClean (object fields) h = object-HasClean fields h
  value-IsClean (error _ _ _ _) h = elim h [ ]

  items-AreClean : (items : Items) → ArePlain items → AreClean (redact_items items)
  items-AreClean no_items h = tt
  items-AreClean (item value items) h = (value-IsClean value h.0, items-AreClean items h.1)

  object-HasClean : (fields : Fields) → HasPlain fields → HasClean (redact_object fields)
  object-HasClean no_fields h = tt
  object-HasClean (field key value fields) h =
      (field-IsCleanAt key value h.0, field-IsClean key value h.0, object-HasClean fields h.1)

  field-IsCleanAt :
      (key : Text) (value : Value)
      → IsPlain value
      → IsCleanAt key (redacted_field key value (redact_value value))
  field-IsCleanAt key (text t) h = text-IsCleanAt key t
  field-IsCleanAt key (opaque n) h = other-IsCleanAt key (opaque n) (λ k. k)
  field-IsCleanAt key (array items) h = other-IsCleanAt key (array (redact_items items)) (λ k. k)
  field-IsCleanAt key (object fields) h =
      other-IsCleanAt key (object (redact_object fields)) (λ k. k)
  field-IsCleanAt key (error _ _ _ _) h = elim h [ ]

  field-IsClean :
      (key : Text) (value : Value)
      → IsPlain value
      → IsClean (redacted_field key value (redact_value value))
  field-IsClean key (text t) h = text-IsClean key t
  field-IsClean key (opaque n) h = if-IsClean (is_redacted_key key) (opaque n) tt
  field-IsClean key (array items) h =
      if-IsClean (is_redacted_key key) (array (redact_items items)) (items-AreClean items h)
  field-IsClean key (object fields) h =
      if-IsClean (is_redacted_key key) (object (redact_object fields)) (object-HasClean fields h)
  field-IsClean key (error _ _ _ _) h = elim h [ ]

-- In the redacted copy of a value without errors, at any depth, the value of each key of a secret is
-- the placeholder, and a text under a key of a card number has at most four digits.
pub redact_value-IsClean : (v : Value) → IsPlain v → IsClean (redact_value v)
redact_value-IsClean v h = value-IsClean v h
