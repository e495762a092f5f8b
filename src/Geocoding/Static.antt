-- ===== src/Geocoding/Static.antt =====
-- src/infrastructure/geocoding/static-geocoding.provider.ts. `digest` gives
-- the bytes of a text's sha256, by their places. Coordinates are in whole micro-degrees: a jitter is
-- rounded down to them, and the rounding of the doubles themselves, far below that, is left out.
pub mod Cities
pub mod Laws
use canals.Prelude.{
  ℕ, ◌+◌, ◌*◌, ◌/◌, Text, text_eq, List, [], ◌∷◌, ◌++◌, Option, none, some, Bool, true, false,
  filter, not, ◌==◌, if◌then◌else◌,
}
use canals.Prelude.Int.{ℤ, pos, ◌+ℤ◌, ◌-ℤ◌}
use canals.Errors.{Result, ok, err, guard, geocoding_failed, unknown_address, ◌>>=◌, ◌>>◌}
use canals.Domain.Address.{ShippingAddress, Coordinates, coordinates_of}
use canals.Geocoding.Normalisation.{
  Property, absent, own, inherited, normalize_text, canonicalize_state_code, is_accepted_country,
  build_normalised_address,
}
use canals.Geocoding.Static.Cities.{CityCentre, us_cities}

abbrev pub static_jitter_microdegrees : ℕ
static_jitter_microdegrees = 50000

-- `hash.readUInt32BE(offset)`
unfoldable pub read_uint32_be : (ℕ → ℕ) → ℕ → ℕ
read_uint32_be hash offset =
    hash offset * 16777216 + hash (offset + 1) * 65536 + hash (offset + 2) * 256 + hash (offset + 3)

-- `((u / 0xffffffff) * 2 - 1) * STATIC_JITTER_DEGREES`
unfoldable pub scaled : ℕ → ℤ
unfolding ◌-ℤ◌
scaled u = pos (u * (2 * static_jitter_microdegrees) / 4294967295) -ℤ pos static_jitter_microdegrees

unfoldable pub compute_jitter : (Text → ℕ → ℕ) → Text → ℤ × ℤ
unfolding read_uint32_be scaled
compute_jitter digest normalised_address = (
  scaled (read_uint32_be (digest normalised_address) 0),
  scaled (read_uint32_be (digest normalised_address) 4),
)

-- `key.split('|')[0]`
unfoldable pub before_bar : Text → Text
before_bar [] = []
before_bar (c ∷ cs) = let rest = c ∷ before_bar cs in if c == b'|' then [] else rest

abbrev pub find_city : Text → List CityCentre → Result CityCentre
find_city key [] = err (geocoding_failed unknown_address)
find_city key (c ∷ cs) = if text_eq c.key key then ok c else find_city key cs

abbrev only_match : List CityCentre → Result CityCentre
only_match (c ∷ []) = ok c
only_match _ = err (geocoding_failed unknown_address)

-- The entries of the table with a city's name.
unfoldable pub cities_called : Text → List CityCentre → List CityCentre
unfolding before_bar
cities_called city cs = filter (λ (c : CityCentre). text_eq (before_bar c.key) city) cs

module _ (nfd to_lower_case to_upper_case : Text → Text) (digest : Text → ℕ → ℕ) where
  abbrev pub city_in : Text → Text → Result CityCentre
  city_in city state = find_city (city ++ (b'|' ∷ state)) us_cities

  -- A name that the table of states inherits prints as no code does.
  abbrev pub city_in_state : Text → Text → Property → Result CityCentre
  city_in_state city raw_state absent = city_in city (to_upper_case raw_state)
  city_in_state city raw_state (own code) = city_in city code
  city_in_state city raw_state inherited = err (geocoding_failed unknown_address)

  abbrev pub city_alone : Text → Result CityCentre
  city_alone city = only_match (cities_called city us_cities)

  unfoldable pub resolve_city_centre : Text → Option Text → Result CityCentre
  unfolding cities_called normalize_text canonicalize_state_code
  resolve_city_centre raw_city none =
      city_alone (normalize_text nfd to_lower_case to_upper_case raw_city)
  resolve_city_centre raw_city (some []) =
      city_alone (normalize_text nfd to_lower_case to_upper_case raw_city)
  resolve_city_centre raw_city (some (c ∷ cs)) =
      city_in_state (normalize_text nfd to_lower_case to_upper_case raw_city) (c ∷ cs)
        (canonicalize_state_code nfd to_lower_case to_upper_case (c ∷ cs))

  unfoldable pub geocode : ShippingAddress → Result Coordinates
  unfolding is_accepted_country resolve_city_centre build_normalised_address compute_jitter ◌+ℤ◌
      coordinates_of
  geocode address = do
    guard (is_accepted_country nfd to_lower_case to_upper_case address.country)
        (geocoding_failed unknown_address)
    centre ← resolve_city_centre address.city address.state
    text ← build_normalised_address nfd to_lower_case to_upper_case address
    let (latitude, longitude) = compute_jitter digest text
    coordinates_of (centre.latitude +ℤ latitude) (centre.longitude +ℤ longitude)
