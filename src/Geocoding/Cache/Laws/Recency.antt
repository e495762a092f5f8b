-- ===== src/Geocoding/Cache/Laws/Recency.antt =====
-- caching-geocoding.provider.ts: how long an entry stays.
use canals.Prelude.{
  ℕ, ◌+◌, ◌≤◌, ◌<◌, ◌≡◌, refl, sym, ap, ◌∙◌, Text, text_eq, text_eq_iff, text_eq_left, text_eq_refl,
  ltb→lt, List, [], ◌∷◌, Option, none, some, true, false, length, ltb, if◌then◌else◌, arith,
  Bool-cases, Option-cases, inl, inr,
}
use canals.Errors.{Result, ok, err}
use canals.Domain.Address.{ShippingAddress, Coordinates}
use canals.Geocoding.Cache.{
  Entry, get, delete, set, touch, store, delete_first, geocode, geocode_at, after_delegate,
}
use canals.Geocoding.Cache.Laws.{length-set}
use canals.Geocoding.Cache.Laws.Runs.{geocode_all}

-- How many entries stand behind the key's: they are younger.
unfoldable pub behind : Text → List Entry → ℕ
behind key [] = 0
behind key (e ∷ es) = if text_eq e.key key then length es else behind key es

behind-length : (k : Text) (c : List Entry) → behind k c ≤ length c
unfolding behind
behind-length k [] = omega arith
behind-length k (e ∷ es) = ground (arith, behind-length k es)

pub get-set-other :
    (k j : Text) (v : Coordinates) (c : List Entry)
    → text_eq j k ≡ false
    → get k (set j v c) ≡ get k c
unfolding get set
get-set-other k j v [] h = ground arith
get-set-other k j v (e ∷ es) h = ground (arith, get-set-other k j v es h, text_eq_left e.key j k)

pub get-delete-other :
    (k j : Text) (c : List Entry) → text_eq j k ≡ false → get k (delete j c) ≡ get k c
unfolding get delete
get-delete-other k j [] h = refl
get-delete-other k j (e ∷ es) h = ground (arith, get-delete-other k j es h, text_eq_left e.key j k)

pub get-set-same : (k : Text) (v : Coordinates) (c : List Entry) → get k (set k v c) ≡ some v
unfolding get set
get-set-same k v [] = ground (arith, text_eq_refl k)
get-set-same k v (e ∷ es) = ground (arith, get-set-same k v es)

behind-set : (k j : Text) (v : Coordinates) (c : List Entry) → behind k (set j v c) ≤ behind k c + 1
unfolding behind set
behind-set k j v [] = ground arith
behind-set k j v (e ∷ es) = ground (arith, behind-set k j v es, length-set j v es)

length-delete-le : (j : Text) (c : List Entry) → length (delete j c) ≤ length c
unfolding delete
length-delete-le j [] = omega arith
length-delete-le j (e ∷ es) = ground (arith, length-delete-le j es)

behind-delete : (k j : Text) (c : List Entry) → behind k (delete j c) ≤ behind k c
unfolding behind delete
behind-delete k j [] = omega arith
behind-delete k j (e ∷ es) =
    ground (arith, behind-delete k j es, length-delete-le j es, behind-length k es)

-- The key has a value, and so many entries at most are younger.
abbrev pub IsRecent : Text → Coordinates → ℕ → List Entry → Type 0
IsRecent k v n c = (get k c ≡ some v) × (behind k c ≤ n)

touch-IsRecent :
    (k j : Text) (v w : Coordinates) (n : ℕ) (c : List Entry)
    → IsRecent k v n c
    → get j c ≡ some w
    → IsRecent k v (n + 1) (touch j w c)
unfolding touch
touch-IsRecent k j v w n c h hit = (
  elim (Bool-cases (text_eq j k)) [
    | inl same ↦ touched_value k j v w c h.0 hit same
    | inr other ↦ get-set-other k j w (delete j c) other ∙ get-delete-other k j c other ∙ h.0
  ],
  omega (arith, behind-set k j w (delete j c), behind-delete k j c, h.1),
)
  where
    touched_value :
        (k j : Text) (v w : Coordinates) (c : List Entry)
        → get k c ≡ some v
        → get j c ≡ some w
        → text_eq j k ≡ true
        → get k (set j w (delete j c)) ≡ some v
    touched_value k j v w c found hit same =
        ap (λ i. get i (set j w (delete j c))) (sym ((text_eq_iff j k).0 same))
        ∙ get-set-same j w (delete j c)
        ∙ sym hit
        ∙ ap (λ i. get i c) ((text_eq_iff j k).0 same)
        ∙ found

evict-IsRecent :
    (k : Text) (v : Coordinates) (n : ℕ) (c : List Entry)
    → IsRecent k v n c
    → n + 1 < length c
    → IsRecent k v n (delete_first c)
unfolding get behind delete
evict-IsRecent k v n [] h few = ground arith
evict-IsRecent k v n (e ∷ es) h few = ground (arith, text_eq_refl e.key)

set-IsRecent :
    (k j : Text) (v w : Coordinates) (n : ℕ) (c : List Entry)
    → IsRecent k v n c
    → text_eq j k ≡ false
    → IsRecent k v (n + 1) (set j w c)
set-IsRecent k j v w n c h other =
    (get-set-other k j w c other ∙ h.0, omega (arith, behind-set k j w c, h.1))

store-IsRecent :
    (k j : Text) (v w : Coordinates) (n max_entries : ℕ) (c : List Entry)
    → IsRecent k v n c
    → text_eq j k ≡ false
    → n + 1 < max_entries
    → IsRecent k v (n + 1) (store max_entries j w c)
unfolding store
store-IsRecent k j v w n max_entries c h other few =
    elim (Bool-cases (ltb max_entries (length (set j w c)))) [
      | inl full ↦ rw full (
          evict-IsRecent k v (n + 1) (set j w c) (set-IsRecent k j v w n c h other)
            (omega (arith, few, ltb→lt max_entries (length (set j w c)) full)))
      | inr room ↦ rw room (set-IsRecent k j v w n c h other)
    ]

module _ {World : Type 0} (key_of : ShippingAddress → Result Text)
    (delegate : ShippingAddress → World → Result Coordinates × World) (max_entries : ℕ) where
  after_delegate-IsRecent :
      (k j : Text) (v : Coordinates) (n : ℕ) (c : List Entry) (answer : Result Coordinates × World)
      → IsRecent k v n c
      → text_eq j k ≡ false
      → n + 1 < max_entries
      → IsRecent k v (n + 1) (after_delegate key_of delegate max_entries j c answer).1.0
  after_delegate-IsRecent k j v n c (err e, w) h other few = (h.0, omega (arith, h.1))
  after_delegate-IsRecent k j v n c (ok a, w) h other few =
      store-IsRecent k j v a n max_entries c h other few

  missed_key :
      (k j : Text) (v : Coordinates) (c : List Entry)
      → get k c ≡ some v
      → get j c ≡ none
      → text_eq j k ≡ false
  missed_key k j v c found missed = elim (Bool-cases (text_eq j k)) [
    | inr other ↦ other
    | inl same ↦
        contradiction (get k c) v found
          (ap (λ i. get i c) (sym ((text_eq_iff j k).0 same)) ∙ missed)
  ]
    where
      contradiction :
          (o : Option Coordinates) (v : Coordinates) → o ≡ some v → o ≡ none → text_eq j k ≡ false
      contradiction o v h m = ground arith

  geocode_at-IsRecent :
      (a : ShippingAddress) (k j : Text) (v : Coordinates) (n : ℕ) (c : List Entry) (w : World)
      → IsRecent k v n c
      → n + 1 < max_entries
      → IsRecent k v (n + 1) (geocode_at key_of delegate max_entries a j (c, w)).1.0
  geocode_at-IsRecent a k j v n c w h few = elim (Option-cases (get j c)) [
    | inl missed ↦
        rw (geocode_at, missed)
          (after_delegate-IsRecent k j v n c (delegate a w) h (missed_key k j v c h.0 missed) few)
    | inr (cached, hit) ↦ rw (geocode_at, hit) (touch-IsRecent k j v cached n c h hit)
  ]

  geocode-IsRecent :
      (a : ShippingAddress) (k : Text) (v : Coordinates) (n : ℕ) (c : List Entry) (w : World)
      → IsRecent k v n c
      → n + 1 < max_entries
      → IsRecent k v (n + 1) (geocode key_of delegate max_entries a (c, w)).1.0
  unfolding geocode
  geocode-IsRecent a k v n c w h few = by_key (key_of a) refl
    where
      by_key :
          (o : Result Text)
          → key_of a ≡ o
          → IsRecent k v (n + 1) (geocode key_of delegate max_entries a (c, w)).1.0
      by_key (err e) same = rw (geocode, same) (h.0, omega (arith, h.1))
      by_key (ok j) same = rw (geocode, same) (geocode_at-IsRecent a k j v n c w h few)

  -- A cached key behind which at most `n` entries are younger keeps its place through any calls, if
  -- `n` and their number together are less than the maximum of entries.
  pub geocode_all-IsRecent :
      (addresses : List ShippingAddress) (k : Text) (v : Coordinates) (n : ℕ) (c : List Entry)
      (w : World)
      → IsRecent k v n c
      → n + length addresses < max_entries
      → IsRecent k v
          (n + length addresses)
          (geocode_all key_of delegate max_entries addresses (c, w)).1.0
  unfolding geocode_all
  geocode_all-IsRecent [] k v n c w h few = (h.0, omega (arith, h.1))
  geocode_all-IsRecent (a ∷ rest) k v n c w h few =
      let next =
        geocode_all-IsRecent rest k v (n + 1) (geocode key_of delegate max_entries a (c, w)).1.0
          (geocode key_of delegate max_entries a (c, w)).1.1
          (geocode-IsRecent a k v n c w h (omega (arith, few))) (omega (arith, few)) in
      (next.0, omega (arith, next.1))
