-- ===== src/Geocoding/Tests.antt =====
-- The cache over a delegate that knows two cities, and the static geocoder with a plain digest.
use canals.Prelude.{
  ℕ, ◌≡◌, refl, if◌then◌else◌, ◌≤◌, Text, codes, text_eq, List, [], ◌∷◌, some, length, arith, ◌+◌,
  ◌%◌,
}
use canals.Prelude.Int.{pos}
use canals.Errors.{Result, ok, err, geocoding_failed, unknown_address, type_error}
use canals.Domain.Address.{ShippingAddress, Coordinates}
use canals.Samples.{sample_address}
use canals.Geocoding.Cache
use canals.Geocoding.Cache.{Entry, store}
use canals.Geocoding.Cache.Laws.{empty, stored, length-IsReached}
use canals.Geocoding.Cache.Laws.Recall.{after_calls, geocode-recalls}
use canals.Geocoding.Cache.Laws.Runs.{AreWarranted, geocode_all, geocode_all_lem}
use canals.Geocoding.Normalisation.{build_normalised_address}
use canals.Geocoding.Static

abbrev delft : Coordinates
delft = record { latitude = pos 52010000; longitude = pos 4360000 }

-- Two addresses through a cache of one entry.
abbrev two_stored : List Entry
two_stored = store 1 (codes "b") delft (store 1 (codes "a") delft [])

length-IsReached_example : length two_stored ≤ 1
length-IsReached_example =
    length-IsReached 1 (stored (codes "b") delft (stored (codes "a") delft empty))

abbrev place_in : Text → Result Coordinates
place_in city =
    if text_eq city (codes "Delft") then ok delft else err (geocoding_failed unknown_address)

abbrev place_of : ShippingAddress → Result Coordinates
place_of a = place_in a.city

abbrev city_key : ShippingAddress → Result Text
city_key a = ok a.city

-- The delegate counts its calls.
abbrev counting_delegate : ShippingAddress → ℕ → Result Coordinates × ℕ
counting_delegate a n = (place_of a, n + 1)

abbrev one_cached : List Entry
one_cached = record { key = codes "Delft"; value = delft } ∷ []

abbrev elsewhere : ShippingAddress
elsewhere = record sample_address { city = codes "Gouda" }

geocode_all_lem_example :
    AreWarranted city_key counting_delegate 1
      (sample_address ∷ elsewhere ∷ sample_address ∷ [])
      (sample_address ∷ elsewhere ∷ sample_address ∷ [])
      (geocode_all city_key counting_delegate 1
        (sample_address ∷ elsewhere ∷ sample_address ∷ [])
        ([], 0)).0
geocode_all_lem_example =
    geocode_all_lem city_key counting_delegate 1 (sample_address ∷ elsewhere ∷ sample_address ∷ [])
      0

delft_found :
    (Cache.geocode city_key counting_delegate 2 sample_address
      (after_calls city_key counting_delegate 2 (sample_address ∷ elsewhere ∷ []) 0)).0
    ≡ ok delft
unfolding Cache.geocode geocode_all
delft_found = refl

-- A hit, and then one call of another address, through a cache of two.
geocode-recalls_example :
    let s =
      (geocode_all city_key counting_delegate 2
        (elsewhere ∷ [])
        (Cache.geocode city_key counting_delegate 2 sample_address
          (after_calls city_key counting_delegate 2 (sample_address ∷ elsewhere ∷ []) 0)).1).1 in
    ((Cache.geocode city_key counting_delegate 2 sample_address s).0 ≡ ok delft)
    × ((Cache.geocode city_key counting_delegate 2 sample_address s).1.1 ≡ s.1)
geocode-recalls_example =
    geocode-recalls city_key counting_delegate 2 (sample_address ∷ elsewhere ∷ []) (elsewhere ∷ [])
      sample_address sample_address (codes "Delft") delft 0 refl refl delft_found (omega arith)

abbrev as_is : Text → Text
as_is t = t

-- The bytes of a text's digest are the text's length and then the places.
abbrev plain_digest : Text → ℕ → ℕ
plain_digest t i = (length t + i) % 256

abbrev newark : ShippingAddress
newark = record sample_address {
  city = codes "newark";
  state = some (codes "NJ");
  country = codes "us";
}

-- A state that is called as a property of every object.
type_error_found :
    build_normalised_address as_is as_is as_is
      (record newark { state = some (codes "constructor") })
    ≡ err type_error
unfolding build_normalised_address
type_error_found = refl
