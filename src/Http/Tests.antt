-- ===== src/Http/Tests.antt =====
-- The breaker and the retry loop on concrete runs.
use canals.Prelude.{
  Text, codes, List, ◌++◌, ◌/◌, ◌%◌, All, is_digit, [], ◌∷◌, Option, some, is_some, true, ◌<◌, ◌↔◌,
  ℕ, ◌≡◌, refl, ◌≤◌, ◌+◌, leb, if◌then◌else◌, arith, ltb,
}
use canals.Errors.{
  Uuid, Error, GeocodingFailureReason, PaymentFailureCode, timeout, payment_provider_unavailable,
  no_fulfilment_possible, reservation_race_lost,
}
use canals.Http.Problem.{build_problem, application, extract_validation_error}
use canals.Http.Problem.Laws.{build_problem_lem}
use canals.Http.OrderResponse.Dollars.{
  digit, format_cents_as_dollars, read_number, format_cents_lem,
}
use canals.Http.Breaker.{closed, open_now, new}
use canals.Http.Breaker.Laws.{new-IsSound, failures, failures_open}
use canals.Http.Breaker.Calls.{Traffic, arrive, idle}
use canals.Http.Retry.{RetryPolicy, with_retry}
use canals.Http.Retry.Laws.{IsReturned, with_retry_lem}

-- Five failures open a new breaker of threshold five.
failures_open_example :
    (failures 5 1000 (new 5 30000)).current_state ≡ (if leb 5 (0 + 5) then open_now else closed)
unfolding new
failures_open_example =
    failures_open 5 1000 (new 5 30000) (new-IsSound 5 30000 (omega arith)) (omega arith) refl

abbrev one_call : Traffic
one_call = arrive 7 (idle 5 30000)

-- The operation counts its calls and answers with the count; below two it is transient.
abbrev counting : RetryPolicy ℕ
counting = record { max_attempts = 3; base_delay_ms = 200; is_transient = λ n. ltb n 2 }

with_retry_lem_example :
    (k : ℕ) × IsReturned counting
      (λ n. (n + 1, n + 1))
      (λ cap n. n)
      3
      1
      0
      (with_retry counting (λ n. (n + 1, n + 1)) (λ cap n. n) 0)
      k
with_retry_lem_example = with_retry_lem counting (λ n. (n + 1, n + 1)) (λ cap n. n) 0 (omega arith)

abbrev print_code : ℕ → Text
print_code id = id ∷ []

abbrev timed_out : Error
timed_out = payment_provider_unavailable 65 (some timeout)

abbrev geocoder_says : GeocodingFailureReason → Text
geocoder_says reason = codes "Geoapify is unavailable"

-- A charge of order 65 timed out: 502, with the order's id.
build_problem_lem_example :
    (400 ≤ (build_problem print_code geocoder_says (application timed_out)).status)
    × ((build_problem print_code geocoder_says (application timed_out)).status < 600)
    × (((build_problem print_code geocoder_says (application timed_out)).order_id ≡ some 65)
        ↔ ((code : Option PaymentFailureCode) × (timed_out ≡ payment_provider_unavailable 65 code)))
    × (((build_problem print_code geocoder_says (application timed_out)).status ≡ 502) ↔ (
        is_some (build_problem print_code geocoder_says (application timed_out)).order_id ≡ true))
    × (((build_problem print_code geocoder_says (application timed_out)).status ≡ 409)
        ↔ ((ids : List Uuid) × (timed_out ≡ no_fulfilment_possible ids reservation_race_lost)))
build_problem_lem_example = build_problem_lem print_code geocoder_says timed_out 65

format_cents_lem_example :
    (whole_dollars : Text) × (format_cents_as_dollars 120905
      ≡ whole_dollars ++ (b'.' ∷ digit (120905 % 100 / 10) ∷ digit (120905 % 10) ∷ []))
    × (read_number 0 whole_dollars ≡ 120905 / 100)
    × All (λ c. is_digit c ≡ true) whole_dollars
format_cents_lem_example = format_cents_lem 120905 (omega arith)

-- A cent too many, from the double.
cent_gained : format_cents_as_dollars 9007199254740593 ≡ codes "90071992547405.94"
unfolding format_cents_as_dollars
cent_gained = refl

dollars : format_cents_as_dollars 120905 ≡ codes "1209.05"
unfolding format_cents_as_dollars
dollars = refl

payload : (extract_validation_error (codes "property sku should not exist")).field ≡ codes "sku"
unfolding extract_validation_error
payload = refl
