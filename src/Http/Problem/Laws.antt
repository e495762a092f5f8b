-- ===== src/Http/Problem/Laws.antt =====
-- Which status an error is answered with.
use canals.Prelude.{◌≡◌, ◌≤◌, ◌<◌, ◌↔◌, Text, List, Option, none, some, is_some, true, arith}
use canals.Errors.{
  Uuid, Error, GeocodingFailureReason, PaymentFailureCode, reservation_race_lost,
  payment_provider_unavailable, payment_declined, no_fulfilment_possible,
}
use canals.Http.Problem.{application, build_problem, application_problem}

-- The errors that are thrown once the order's row exists, with its id.
abbrev pub order_of : Error → Option Uuid
order_of (payment_declined id _) = some id
order_of (payment_provider_unavailable id _) = some id
order_of _ = none

module _ (print_id : Uuid → Text) (geocoding_message : GeocodingFailureReason → Text) where
  application_lem :
      (e : Error)
      → (400 ≤ (application_problem print_id geocoding_message e).status)
        × ((application_problem print_id geocoding_message e).status < 600)
  unfolding application_problem
  application_lem e = ground arith

  -- The answer to an error of the application is a 4xx or a 5xx. It names an order exactly if the
  -- provider was unavailable, the order being that error's, and exactly if the status is 502; the
  -- status is 409 exactly if every candidate warehouse lost the race.
  pub build_problem_lem :
      (e : Error) (id : Uuid)
      → (400 ≤ (build_problem print_id geocoding_message (application e)).status)
        × ((build_problem print_id geocoding_message (application e)).status < 600)
        × (((build_problem print_id geocoding_message (application e)).order_id ≡ some id)
            ↔ ((code : Option PaymentFailureCode) × (e ≡ payment_provider_unavailable id code)))
        × (((build_problem print_id geocoding_message (application e)).status ≡ 502)
            ↔ (is_some (build_problem print_id geocoding_message (application e)).order_id ≡ true))
        × (((build_problem print_id geocoding_message (application e)).status ≡ 409)
            ↔ ((ids : List Uuid) × (e ≡ no_fulfilment_possible ids reservation_race_lost)))
  unfolding build_problem
  build_problem_lem e id = ground arith
