-- ===== src/Geocoding/Cache/Laws/Recall.antt =====
-- caching-geocoding.provider.ts: what a call leaves of the entry that it used, and when a later call is
-- answered from it.
use canals.Prelude.{
  ℕ, ◌<◌, ◌≡◌, refl, sym, subst, ap, ◌∙◌, Text, text_eq, text_eq_iff, text_eq_refl, text_eq_comm,
  ltb→lt, List, [], ◌∷◌, none, some, Bool, true, false, length, ltb, if◌then◌else◌, arith,
  Bool-cases, Option-cases, inl, inr,
}
use canals.Errors.{Result, ok, err, ok-injective}
use canals.Domain.Address.{ShippingAddress, Coordinates}
use canals.Geocoding.Cache.{
  Entry, get, delete, set, touch, store, delete_first, geocode, geocode_at, after_delegate,
}
use canals.Geocoding.Cache.Laws.Runs.{geocode_all}
use canals.Geocoding.Cache.Laws.Recency.{
  IsRecent, behind, get-set-same, get-set-other, geocode_all-IsRecent,
}

-- No key stands twice, as in a `Map`.
unfoldable pub IsKeyed : List Entry → Type 0
unfolding get
IsKeyed [] = Unit
IsKeyed (e ∷ es) = (get e.key es ≡ none) × IsKeyed es

get-delete-none : (k j : Text) (c : List Entry) → get k c ≡ none → get k (delete j c) ≡ none
unfolding get delete
get-delete-none k j [] h = refl
get-delete-none k j (e ∷ es) h = ground (arith, get-delete-none k j es)

get-text : (k j : Text) (c : List Entry) → text_eq k j ≡ true → get k c ≡ get j c
get-text k j c same = ap (λ i. get i c) ((text_eq_iff k j).0 same)

get-delete-same : (k : Text) (c : List Entry) → IsKeyed c → get k (delete k c) ≡ none
unfolding get delete IsKeyed
get-delete-same k [] h = refl
get-delete-same k (e ∷ es) h = elim (Bool-cases (text_eq e.key k)) [
  | inl same ↦ rw same (sym (get-text e.key k es same) ∙ h.0)
  | inr other ↦ rw (other, other) (get-delete-same k es h.1)
]

delete-IsKeyed : (j : Text) (c : List Entry) → IsKeyed c → IsKeyed (delete j c)
unfolding delete IsKeyed
delete-IsKeyed j [] h = tt
delete-IsKeyed j (e ∷ es) h = elim (Bool-cases (text_eq e.key j)) [
  | inl same ↦ rw same h.1
  | inr other ↦ rw other (get-delete-none e.key j es h.0, delete-IsKeyed j es h.1)
]

set-IsKeyed : (j : Text) (v : Coordinates) (c : List Entry) → IsKeyed c → IsKeyed (set j v c)
unfolding set IsKeyed get
set-IsKeyed j v [] h = (refl, tt)
set-IsKeyed j v (e ∷ es) h = elim (Bool-cases (text_eq e.key j)) [
  | inl same ↦ rw same h
  | inr other ↦
      rw other
        (get-set-other e.key j v es (text_eq_comm j e.key ∙ other) ∙ h.0, set-IsKeyed j v es h.1)
]

evict-IsKeyed : (b : Bool) (c : List Entry) → IsKeyed c → IsKeyed (if b then delete_first c else c)
evict-IsKeyed false c h = h
evict-IsKeyed true [] h = h
evict-IsKeyed true (e ∷ es) h = delete-IsKeyed e.key (e ∷ es) h

-- An entry that is set anew is the youngest.
behind-fresh :
    (k : Text) (v : Coordinates) (c : List Entry) → get k c ≡ none → behind k (set k v c) ≡ 0
unfolding behind set get
behind-fresh k v [] h = ground (arith, text_eq_refl k)
behind-fresh k v (e ∷ es) h = ground (arith, behind-fresh k v es)

set-IsRecent :
    (k : Text) (v : Coordinates) (c : List Entry) → get k c ≡ none → IsRecent k v 0 (set k v c)
set-IsRecent k v c h = (get-set-same k v c, omega (arith, behind-fresh k v c h))

evict-IsRecent :
    (k : Text) (v : Coordinates) (c : List Entry)
    → IsRecent k v 0 c
    → 1 < length c
    → IsRecent k v 0 (delete_first c)
unfolding get behind delete
evict-IsRecent k v [] h few = ground arith
evict-IsRecent k v (e ∷ es) h few = ground (arith, text_eq_refl e.key)

store-IsFresh :
    (k : Text) (v : Coordinates) (max_entries : ℕ) (c : List Entry)
    → get k c ≡ none
    → 0 < max_entries
    → IsRecent k v 0 (store max_entries k v c)
unfolding store
store-IsFresh k v max_entries c h one = elim (Bool-cases (ltb max_entries (length (set k v c)))) [
  | inl full ↦ rw full (
      evict-IsRecent k v (set k v c) (set-IsRecent k v c h)
        (omega (arith, one, ltb→lt max_entries (length (set k v c)) full)))
  | inr room ↦ rw room (set-IsRecent k v c h)
]

module _ {World : Type 0} (key_of : ShippingAddress → Result Text)
    (delegate : ShippingAddress → World → Result Coordinates × World) (max_entries : ℕ) where
  after_delegate-IsFresh :
      (k : Text) (c : List Entry) (v : Coordinates) (answer : Result Coordinates × World)
      → get k c ≡ none
      → 0 < max_entries
      → (after_delegate key_of delegate max_entries k c answer).0 ≡ ok v
      → IsRecent k v 0 (after_delegate key_of delegate max_entries k c answer).1.0
  after_delegate-IsFresh k c v (err e, w) missed one gave = ground arith
  after_delegate-IsFresh k c v (ok a, w) missed one gave =
      subst (λ u. IsRecent k u 0 (store max_entries k a c)) (ok-injective gave)
        (store-IsFresh k a max_entries c missed one)

  after_delegate-IsKeyed :
      (k : Text) (c : List Entry) (answer : Result Coordinates × World)
      → IsKeyed c
      → IsKeyed (after_delegate key_of delegate max_entries k c answer).1.0
  unfolding store
  after_delegate-IsKeyed k c (err e, w) h = h
  after_delegate-IsKeyed k c (ok a, w) h =
      evict-IsKeyed (ltb max_entries (length (set k a c))) (set k a c) (set-IsKeyed k a c h)

  geocode_at-IsKeyed :
      (a : ShippingAddress) (k : Text) (c : List Entry) (w : World)
      → IsKeyed c
      → IsKeyed (geocode_at key_of delegate max_entries a k (c, w)).1.0
  unfolding touch
  geocode_at-IsKeyed a k c w h = elim (Option-cases (get k c)) [
    | inl missed ↦ rw (geocode_at, missed) (after_delegate-IsKeyed k c (delegate a w) h)
    | inr (cached, hit) ↦
        rw (geocode_at, hit) (set-IsKeyed k cached (delete k c) (delete-IsKeyed k c h))
  ]

  -- After an answer, the address's entry is the youngest, whether it was there or is new.
  geocode_at-IsFresh :
      (a : ShippingAddress) (k : Text) (c : List Entry) (w : World) (v : Coordinates)
      → IsKeyed c
      → 0 < max_entries
      → (geocode_at key_of delegate max_entries a k (c, w)).0 ≡ ok v
      → IsRecent k v 0 (geocode_at key_of delegate max_entries a k (c, w)).1.0
  unfolding touch
  geocode_at-IsFresh a k c w v h one = elim (Option-cases (get k c)) [
    | inl missed ↦ rw (geocode_at, missed) (after_delegate-IsFresh k c v (delegate a w) missed one)
    | inr (cached, hit) ↦
        rw (geocode_at, hit)
          (λ gave.
            subst (λ u. IsRecent k u 0 (touch k cached c)) (ok-injective gave)
              (set-IsRecent k cached (delete k c) (get-delete-same k c h)))
  ]

  geocode-keyed :
      (a : ShippingAddress) (k : Text) (c : List Entry) (w : World)
      → key_of a ≡ ok k
      → geocode key_of delegate max_entries a (c, w)
        ≡ geocode_at key_of delegate max_entries a k (c, w)
  unfolding geocode
  geocode-keyed a k c w keyed = rw (geocode, keyed) refl

  geocode-IsKeyed :
      (a : ShippingAddress) (c : List Entry) (w : World)
      → IsKeyed c
      → IsKeyed (geocode key_of delegate max_entries a (c, w)).1.0
  unfolding geocode
  geocode-IsKeyed a c w h = by_key (key_of a) refl
    where
      by_key :
          (o : Result Text)
          → key_of a ≡ o
          → IsKeyed (geocode key_of delegate max_entries a (c, w)).1.0
      by_key (err e) same = rw (geocode, same) h
      by_key (ok k) same = rw (geocode, same) (geocode_at-IsKeyed a k c w h)

  geocode_all-IsKeyed :
      (addresses : List ShippingAddress) (c : List Entry) (w : World)
      → IsKeyed c
      → IsKeyed (geocode_all key_of delegate max_entries addresses (c, w)).1.0
  unfolding geocode_all
  geocode_all-IsKeyed [] c w h = h
  geocode_all-IsKeyed (a ∷ rest) c w h =
      geocode_all-IsKeyed rest (geocode key_of delegate max_entries a (c, w)).1.0
        (geocode key_of delegate max_entries a (c, w)).1.1 (geocode-IsKeyed a c w h)

  -- The state that calls leave, one after the other, from an empty cache.
  abbrev pub after_calls : List ShippingAddress → World → List Entry × World
  after_calls addresses w = (geocode_all key_of delegate max_entries addresses ([], w)).1

  recall :
      (b : ShippingAddress) (k : Text) (v : Coordinates) (c : List Entry) (w : World)
      → key_of b ≡ ok k
      → get k c ≡ some v
      → ((geocode key_of delegate max_entries b (c, w)).0 ≡ ok v)
        × ((geocode key_of delegate max_entries b (c, w)).1.1 ≡ w)
  unfolding geocode
  recall b k v c w keyed hit = rw (geocode, keyed) (rw (geocode_at, hit) (refl, refl))

  -- After any calls on an empty cache, a call for an address is answered with coordinates, from the
  -- cache or by the delegate. After fewer other calls than the cache has entries at most, of whatever
  -- addresses and whether they succeed or not, an address with the same key is answered with the same
  -- coordinates, and the delegate's state stays as it is: a hit keeps the entry as a store does.
  pub geocode-recalls :
      (before between : List ShippingAddress) (a b : ShippingAddress) (k : Text) (v : Coordinates)
      (w : World)
      → key_of a ≡ ok k
      → key_of b ≡ ok k
      → (geocode key_of delegate max_entries a (after_calls before w)).0 ≡ ok v
      → length between < max_entries
      → let s =
          (geocode_all key_of delegate max_entries between
            (geocode key_of delegate max_entries a (after_calls before w)).1).1 in
        ((geocode key_of delegate max_entries b s).0 ≡ ok v)
        × ((geocode key_of delegate max_entries b s).1.1 ≡ s.1)
  unfolding IsKeyed
  geocode-recalls before between a b k v w keyed same gave few =
      let fresh =
        geocode_at-IsFresh a k (after_calls before w).0 (after_calls before w).1 v
          (geocode_all-IsKeyed before [] w tt) (omega (arith, few))
          (ap (λ x. x.0)
              (sym (geocode-keyed a k (after_calls before w).0 (after_calls before w).1 keyed))
            ∙ gave) in
      let s1 = geocode key_of delegate max_entries a (after_calls before w) in
      let kept =
        geocode_all-IsRecent key_of delegate max_entries between k v 0 s1.1.0 s1.1.1
          (subst (λ x. IsRecent k v 0 x.1.0)
            (sym (geocode-keyed a k (after_calls before w).0 (after_calls before w).1 keyed)) fresh)
          (omega (arith, few)) in
      recall b k v (geocode_all key_of delegate max_entries between s1.1).1.0
        (geocode_all key_of delegate max_entries between s1.1).1.1 same kept.0
