-- ===== src/Geocoding/Cache.antt =====
-- src/infrastructure/geocoding/caching-geocoding.provider.ts. The `Map` is the list of its entries in
-- insertion order; `World` is what the delegate changes. `cache_key` is the hash of the normalised
-- address.
pub mod Laws
use canals.Prelude.{
  ℕ, ◌+◌, Text, text_eq, List, [], ◌∷◌, Option, none, some, Bool, true, false, length, ltb,
  if◌then◌else◌,
}
use canals.Errors.{Result, ok, err, ◌>>=◌}
use canals.Domain.Address.{ShippingAddress, Coordinates}
use canals.Geocoding.Normalisation.{build_normalised_address}

pub record Entry : Type 0 where
  pub key : Text
  pub value : Coordinates

abbrev pub geocode_cache_max_entries : ℕ
geocode_cache_max_entries = 10000

-- `Map.get`, `Map.delete`, `Map.set`
unfoldable pub get : Text → List Entry → Option Coordinates
get key [] = none
get key (e ∷ es) = if text_eq e.key key then some e.value else get key es

unfoldable pub delete : Text → List Entry → List Entry
delete key [] = []
delete key (e ∷ es) = if text_eq e.key key then es else e ∷ delete key es

unfoldable pub set : Text → Coordinates → List Entry → List Entry
set key value [] = record { key = key; value = value } ∷ []
set key value (e ∷ es) =
    if text_eq e.key key then record e { value = value } ∷ es else e ∷ set key value es

unfoldable pub touch : Text → Coordinates → List Entry → List Entry
unfolding delete set
touch key value cache = set key value (delete key cache)

abbrev pub delete_first : List Entry → List Entry
delete_first [] = []
delete_first (e ∷ es) = delete e.key (e ∷ es)

unfoldable pub store : ℕ → Text → Coordinates → List Entry → List Entry
unfolding delete set
store max_entries key value cache =
    let grown = set key value cache in
    if ltb max_entries (length grown) then delete_first grown else grown

unfoldable pub cache_key :
    (Text → Text) → (ShippingAddress → Result Text) → ShippingAddress → Result Text
cache_key sha256 normalised address = normalised address >>= λ text. ok (sha256 text)

module _ {World : Type 0} (key_of : ShippingAddress → Result Text)
    (delegate : ShippingAddress → World → Result Coordinates × World) (max_entries : ℕ) where
  abbrev pub after_delegate :
      Text → List Entry → Result Coordinates × World → Result Coordinates × (List Entry × World)
  after_delegate key cache (err e, w) = (err e, (cache, w))
  after_delegate key cache (ok c, w) = (ok c, (store max_entries key c cache, w))

  abbrev pub geocode_at :
      ShippingAddress → Text → List Entry × World → Result Coordinates × (List Entry × World)
  geocode_at address key (cache, w) = elim (get key cache) [
    | some cached ↦ (ok cached, (touch key cached cache, w))
    | none ↦ after_delegate key cache (delegate address w)
  ]

  unfoldable pub geocode :
      ShippingAddress → List Entry × World → Result Coordinates × (List Entry × World)
  unfolding get touch store
  geocode address (cache, w) = elim (key_of address) [
    | err e ↦ (err e, (cache, w))
    | ok key ↦ geocode_at address key (cache, w)
  ]
