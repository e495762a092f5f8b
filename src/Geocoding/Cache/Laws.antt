-- ===== src/Geocoding/Cache/Laws.antt =====
-- caching-geocoding.provider.ts: the size of the cache, and what its operations do to an entry.
pub mod Recency
pub mod Runs
pub mod Recall
use canals.Prelude.{
  ℕ, suc, ◌+◌, ◌≤◌, ◌<◌, ◌≡◌, refl, sym, subst, ap, Text, text_eq, text_eq_iff, text_eq_refl, List,
  [], ◌∷◌, Option, none, some, Bool, true, false, length, ltb, if◌then◌else◌, arith, All,
  Bool-cases, Option-cases, inl, inr, lt→ltb,
}
use canals.Domain.Address.{Coordinates}
use canals.Geocoding.Cache.{Entry, get, delete, set, touch, store, delete_first}

pub length-set :
    (key : Text) (value : Coordinates) (cache : List Entry)
    → length (set key value cache) ≤ length cache + 1
unfolding set
length-set key value [] = omega arith
length-set key value (e ∷ es) = ground (arith, length-set key value es)

length-delete :
    (key : Text) (value : Coordinates) (cache : List Entry)
    → get key cache ≡ some value
    → length (delete key cache) + 1 ≡ length cache
unfolding get delete
length-delete key value [] h = ground arith
length-delete key value (e ∷ es) h = ground (arith, length-delete key value es)

-- The caches that lookups that hit and stores make, in whatever order the calls overlap.
pub data IsReached (max_entries : ℕ) : List Entry → Type 0 where
  empty : IsReached max_entries []
  touched :
      {cache : List Entry} {value : Coordinates} (key : Text)
      → get key cache ≡ some value
      → IsReached max_entries cache
      → IsReached max_entries (touch key value cache)
  stored :
      {cache : List Entry} (key : Text) (value : Coordinates)
      → IsReached max_entries cache
      → IsReached max_entries (store max_entries key value cache)

length-touch :
    (key : Text) (value : Coordinates) (cache : List Entry)
    → get key cache ≡ some value
    → length (touch key value cache) ≤ length cache
unfolding touch
length-touch key value cache h =
    omega (arith, length-set key value (delete key cache), length-delete key value cache h)

length-evict :
    (max_entries : ℕ) (grown : List Entry)
    → length grown ≤ max_entries + 1
    → length (if ltb max_entries (length grown) then delete_first grown else grown) ≤ max_entries
unfolding delete
length-evict max_entries [] h = ground arith
length-evict max_entries (e ∷ es) h = ground (arith, text_eq_refl e.key)

-- However calls overlap, the cache never has more than its maximum of entries.
pub length-IsReached :
    (max_entries : ℕ) {cache : List Entry}
    → IsReached max_entries cache
    → length cache ≤ max_entries
unfolding store
length-IsReached max_entries empty = omega arith
length-IsReached max_entries (touched {cache} {value} key hit r) =
    omega (arith, length-touch key value cache hit, length-IsReached max_entries r)
length-IsReached max_entries (stored {cache} key value r) =
    length-evict max_entries (set key value cache)
      (omega (arith, length-set key value cache, length-IsReached max_entries r))
