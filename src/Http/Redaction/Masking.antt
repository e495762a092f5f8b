-- ===== src/Http/Redaction/Masking.antt =====
-- src/infrastructure/http/redaction.ts: the rules for texts. A replacement with a global pattern walks
-- the text once; `skip` counts the characters that the last match has taken.
use canals.Prelude.{
  ℕ, zero, suc, ◌+◌, ◌-◌, ◌*◌, ◌%◌, Text, codes, is_digit, is_upper, [], ◌∷◌, ◌++◌, Bool, true,
  false, not, ◌&&◌, ◌||◌, ◌==◌, ltb, leb, length, filter, replicate, if◌then◌else◌,
}
use canals.Domain.Address.{is_space}

-- The digits of a text, and its last four characters.
abbrev pub digits_of : Text → Text
digits_of t = filter is_digit t

abbrev pub drop : ℕ → Text → Text
drop zero t = t
drop (suc n) [] = []
drop (suc n) (c ∷ cs) = drop n cs

abbrev pub last4 : Text → Text
last4 digits = drop (length digits - 4) digits

unfoldable pub mask_digits : Text → Text
mask_digits digits = replicate (length digits - length (last4 digits)) b'*' ++ last4 digits

unfoldable pub mask_card_value : Text → Text
unfolding mask_digits
mask_card_value raw = if length (digits_of raw) == 0 then raw else mask_digits (digits_of raw)

abbrev luhn_digit : Bool → ℕ → ℕ
luhn_digit false digit = digit
luhn_digit true digit = if ltb 9 (digit * 2) then digit * 2 - 9 else digit * 2

-- The sum from the right: what is summed, and whether the next digit is doubled.
unfoldable pub luhn_sum : Text → ℕ × Bool
luhn_sum [] = (0, false)
luhn_sum (c ∷ cs) =
    let (sum, should_double) = luhn_sum cs in
    (sum + luhn_digit should_double (c - b'0'), not should_double)

unfoldable pub is_luhn_valid : Text → Bool
unfolding luhn_sum
is_luhn_valid digits = (luhn_sum digits).0 % 10 == 0

-- What a match of the card pattern takes: its digits, and all its characters.
pub record Run : Type 0 where
  pub digits : Text
  pub matched : Text

abbrev no_run : Run
no_run = record { digits = []; matched = [] }

abbrev run_from : Text → ℕ → Run → Run
run_from taken c run = record { digits = c ∷ run.digits; matched = c ∷ (taken ++ run.matched) }

abbrev pub is_separator : ℕ → Bool
is_separator c = c == b' ' || c == b'-'

-- The first digits of a text, at most so many, with single separators between them.
unfoldable pub run_at : ℕ → Text → Run
run_at zero t = no_run
run_at (suc n) [] = no_run
run_at (suc n) (c ∷ []) = if is_digit c then run_from [] c no_run else no_run
run_at (suc n) (c ∷ d ∷ []) =
    let next = run_at n (d ∷ []) in if is_digit c then run_from [] c next else no_run
run_at (suc n) (c ∷ d ∷ e ∷ t) =
    let next = run_at n (d ∷ e ∷ t) in
    let after = run_at n (e ∷ t) in
    if not (is_digit c)
    then no_run
    else if is_separator d && ltb 0 (length after.digits)
    then run_from (d ∷ []) c after
    else run_from [] c next

-- What is written for a place of the text, and how many characters after it are taken.
pub record Step : Type 0 where
  pub written : Text
  pub skip : ℕ

abbrev card_text : Run → Text
card_text run = if is_luhn_valid run.digits then mask_digits run.digits else run.matched

-- `(?:\d[ -]?){12,18}\d` and its callback, at one place.
unfoldable pub card_step : ℕ → Text → Step
unfolding run_at is_luhn_valid mask_digits
card_step c t =
    let run = run_at 19 (c ∷ t) in
    if leb 13 (length run.digits)
    then record { written = card_text run; skip = length run.matched - 1 }
    else record { written = c ∷ []; skip = 0 }

unfoldable pub mask_cards : ℕ → Text → Text
unfolding card_step
mask_cards skip [] = []
mask_cards (suc k) (c ∷ t) = mask_cards k t
mask_cards zero (c ∷ t) = (card_step c t).written ++ mask_cards (card_step c t).skip t

abbrev lower : ℕ → ℕ
lower c = if is_upper c then c + 32 else c

abbrev pub lower_text : Text → Text
lower_text [] = []
lower_text (c ∷ cs) = lower c ∷ lower_text cs

abbrev pub redacted_secret : Text
redacted_secret = codes "[REDACTED]"

-- How many characters a prefix has, if the text begins with it in whatever case.
abbrev begins : Text → Text → Bool
begins [] t = true
begins (p ∷ ps) [] = false
begins (p ∷ ps) (c ∷ cs) = p == lower c && begins ps cs

-- `[^&\s]+`, its length
unfoldable pub value_length : Text → ℕ
unfolding is_space
value_length [] = 0
value_length (c ∷ cs) =
    let more = suc (value_length cs) in if c == b'&' || is_space c then 0 else more

abbrev take_text : ℕ → Text → Text
take_text zero t = []
take_text (suc n) [] = []
take_text (suc n) (c ∷ cs) = c ∷ take_text n cs

abbrev key_length : Text → ℕ
key_length t =
    if begins (codes "api_key=") t then 8 else if begins (codes "apikey=") t then 7 else 0

-- `([?&]api_?key=)([^&\s]+)` and its callback, at one place.
unfoldable pub key_step : ℕ → Text → Step
unfolding value_length
key_step c t =
    let n = key_length t in
    let m = value_length (drop n t) in
    if (c == b'?' || c == b'&') && (ltb 0 n && ltb 0 m)
    then record { written = c ∷ (take_text n t ++ redacted_secret); skip = n + m }
    else record { written = c ∷ []; skip = 0 }

unfoldable pub mask_keys : ℕ → Text → Text
unfolding key_step
mask_keys skip [] = []
mask_keys (suc k) (c ∷ t) = mask_keys k t
mask_keys zero (c ∷ t) = (key_step c t).written ++ mask_keys (key_step c t).skip t

unfoldable pub redact_string : Text → Text
unfolding mask_cards mask_keys
redact_string value = mask_keys 0 (mask_cards 0 value)
