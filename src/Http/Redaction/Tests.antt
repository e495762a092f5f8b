-- ===== src/Http/Redaction/Tests.antt =====
-- Card numbers and secrets of redaction.spec.ts, and two that are not found.
use canals.Prelude.{◌≡◌, refl, Text, codes, none, arith, if◌then◌else◌, ◌%◌, ◌==◌, ◌++◌, replicate}
use canals.Http.Redaction.Masking.{redact_string, mask_cards}
use canals.Http.Redaction.{Value, text, opaque, object, error, no_fields, field, redact_value}
use canals.Http.Redaction.Laws.{IsClean, redact_value-IsClean}
use canals.Http.Redaction.Laws.Cards.{mask_cards_lem, check_sum}

abbrev visa_number : Text
visa_number = codes "4242424242424242"

mask_cards_lem_example :
    mask_cards 0 visa_number
    ≡ (if check_sum visa_number % 10 == 0 then replicate 12 b'*' ++ codes "4242" else visa_number)
mask_cards_lem_example =
    mask_cards_lem (codes "424242424242") (codes "4242")
      (
        refl,
        (
          refl,
          (
            refl,
            (
              refl,
              (
                refl,
                (
                  refl,
                  (
                    refl,
                    (refl, (refl, (refl, (refl, (refl, (refl, (refl, (refl, (refl, tt))))))))),
                  ),
                ),
              ),
            ),
          ),
        ),
      )
      refl (omega arith) (omega arith)

abbrev nested : Value
nested = object (
    field (codes "order")
      (object (
        field (codes "cardNumber") (text visa_number)
          (field (codes "apiKey") (opaque 1) no_fields)))
      no_fields)

redact_value-IsClean_example : IsClean (redact_value nested)
unfolding canals.Http.Redaction.Laws.IsPlain
redact_value-IsClean_example = redact_value-IsClean nested (((tt, (tt, tt))), tt)

spaced :
    redact_string (codes "card 4242 4242 4242 4242 failed") ≡ codes "card ************4242 failed"
unfolding redact_string
spaced = refl

in_url : redact_string (codes "x?text=y&apiKey=secret") ≡ codes "x?text=y&apiKey=[REDACTED]"
unfolding redact_string
in_url = refl

-- A digit before the number makes a longer run, which fails the Luhn test.
not_found : redact_string (codes "attempt 3 4242424242424242") ≡ codes "attempt 3 4242424242424242"
unfolding redact_string
not_found = refl

-- The own fields of an error are not looked at by their keys.
abbrev failure : Value
failure =
    error (codes "Error") (codes "failed") none
      (field (codes "apiKey") (text (codes "secret")) no_fields)

kept :
    redact_value failure
    ≡ object (
        field (codes "name") (text (codes "Error")) (
          field (codes "message") (text (codes "failed")) (
            field
              (codes "stack")
              (opaque 0)
              (field (codes "apiKey") (text (codes "secret")) no_fields))))
unfolding redact_value
kept = refl
