-- ===== src/Geocoding/Cache/Laws/Runs.antt =====
-- caching-geocoding.provider.ts: calls one after the other.
use canals.Prelude.{
  ℕ, ◌≡◌, refl, sym, ap, subst, ◌∙◌, ◌⊎◌, ◌++◌, Text, text_eq, text_eq_iff, List, [], ◌∷◌, some,
  Bool, true, false, length, ltb, if◌then◌else◌, arith, All, Bool-cases, Option-cases, inl, inr,
}
use canals.Errors.{Error, Result, ok, err}
use canals.Domain.Address.{ShippingAddress, Coordinates}
use canals.Geocoding.Cache.{
  Entry, get, delete, set, touch, store, delete_first, geocode, geocode_at, after_delegate,
}

first_value :
    (key : Text) (value : Coordinates) (e : Entry) (es : List Entry)
    → get key (e ∷ es) ≡ some value
    → text_eq e.key key ≡ true
    → e.value ≡ value
unfolding get
first_value key value e es found same = ground (arith, found, same)

module _ (P : Text → Coordinates → Type 0) where
  abbrev Each : List Entry → Type 0
  Each = All (λ (e : Entry). P e.key e.value)

  Each-delete : (key : Text) (cache : List Entry) → Each cache → Each (delete key cache)
  unfolding delete
  Each-delete key [] h = tt
  Each-delete key (e ∷ es) h = ground (arith, Each-delete key es)

  Each-set :
      (key : Text) (value : Coordinates) (cache : List Entry)
      → P key value
      → Each cache
      → Each (set key value cache)
  unfolding set
  Each-set key value [] p h = (p, tt)
  Each-set key value (e ∷ es) p h = elim (Bool-cases (text_eq e.key key)) [
    | inl same ↦ rw same (subst (λ k. P k value) (sym ((text_eq_iff e.key key).0 same)) p, h.1)
    | inr other ↦ rw other (h.0, Each-set key value es p h.1)
  ]

  Each-get :
      (key : Text) (value : Coordinates) (cache : List Entry)
      → get key cache ≡ some value
      → Each cache
      → P key value
  unfolding get
  Each-get key value [] found h = ground arith
  Each-get key value (e ∷ es) found h = elim (Bool-cases (text_eq e.key key)) [
    | inl same ↦
        subst (λ k. P k value) ((text_eq_iff e.key key).0 same)
          (subst (λ v. P e.key v) (first_value key value e es found same) h.0)
    | inr other ↦ Each-get key value es (ground (arith, found, other)) h.1
  ]

  Each-touch :
      (key : Text) (value : Coordinates) (cache : List Entry)
      → P key value
      → Each cache
      → Each (touch key value cache)
  unfolding touch
  Each-touch key value cache p h = Each-set key value (delete key cache) p (Each-delete key cache h)

  Each-evict :
      (b : Bool) (cache : List Entry) → Each cache → Each (if b then delete_first cache else cache)
  Each-evict false cache h = h
  Each-evict true [] h = tt
  Each-evict true (e ∷ es) h = Each-delete e.key (e ∷ es) h

  Each-store :
      (n : ℕ) (key : Text) (value : Coordinates) (cache : List Entry)
      → P key value
      → Each cache
      → Each (store n key value cache)
  unfolding store
  Each-store n key value cache p h =
      Each-evict (ltb n (length (set key value cache))) (set key value cache)
        (Each-set key value cache p h)

-- One call after the other.
unfoldable pub geocode_all :
    {World : Type 0}
    → (ShippingAddress → Result Text)
    → (ShippingAddress → World → Result Coordinates × World)
    → ℕ
    → List ShippingAddress
    → List Entry × World
    → List (Result Coordinates) × (List Entry × World)
unfolding geocode
geocode_all key_of delegate max_entries [] s = ([], s)
geocode_all key_of delegate max_entries (a ∷ rest) s =
    let (answer, s') = geocode key_of delegate max_entries a s in
    let (answers, s'') = geocode_all key_of delegate max_entries rest s' in (answer ∷ answers, s'')

abbrev pub IsIn : ShippingAddress → List ShippingAddress → Type 0
IsIn a [] = ⊥
IsIn a (b ∷ bs) = (a ≡ b) ⊎ IsIn a bs

IsIn-append : (a : ShippingAddress) (front bs : List ShippingAddress) → IsIn a (front ++ (a ∷ bs))
IsIn-append a [] bs = inl refl
IsIn-append a (b ∷ front) bs = inr (IsIn-append a front bs)

append_assoc :
    (xs : List ShippingAddress) (y : ShippingAddress) (zs : List ShippingAddress)
    → (xs ++ (y ∷ [])) ++ zs ≡ xs ++ (y ∷ zs)
append_assoc [] y zs = refl
append_assoc (x ∷ xs) y zs = ap (λ r. x ∷ r) (append_assoc xs y zs)

module _ {World : Type 0} (key_of : ShippingAddress → Result Text)
    (delegate : ShippingAddress → World → Result Coordinates × World) (max_entries : ℕ) where
  -- Where an answer for an address comes from, in a run over the addresses `all`.
  pub data IsWarranted (all : List ShippingAddress) (a : ShippingAddress)
      : Result Coordinates → Type 0 where
    unkeyed : (e : Error) → key_of a ≡ err e → IsWarranted all a (err e)
    asked : (key : Text) (w : World) → key_of a ≡ ok key → IsWarranted all a (delegate a w).0
    recalled :
        (key : Text) (b : ShippingAddress) (w : World) (c : Coordinates)
        → key_of a ≡ ok key
        → IsIn b all
        → key_of b ≡ ok key
        → (delegate b w).0 ≡ ok c
        → IsWarranted all a (ok c)

  pub data AreWarranted (all : List ShippingAddress)
      : List ShippingAddress → List (Result Coordinates) → Type 0 where
    none_left : AreWarranted all [] []
    answered :
        (a : ShippingAddress) (rest : List ShippingAddress) (r : Result Coordinates)
        (answers : List (Result Coordinates))
        → IsWarranted all a r
        → AreWarranted all rest answers
        → AreWarranted all (a ∷ rest) (r ∷ answers)

  -- The delegate has answered so for an address of the run that has the key.
  abbrev IsPlace : List ShippingAddress → Text → Coordinates → Type 0
  IsPlace all key value =
      (b : ShippingAddress) × (w : World) × IsIn b all
      × (key_of b ≡ ok key)
      × ((delegate b w).0 ≡ ok value)

  after_delegate_lem :
      (all : List ShippingAddress) (a : ShippingAddress) (key : Text) (cache : List Entry)
      (w : World) (answer : Result Coordinates × World)
      → IsIn a all
      → key_of a ≡ ok key
      → delegate a w ≡ answer
      → Each (IsPlace all) cache
      → ((after_delegate key_of delegate max_entries key cache answer).0 ≡ answer.0)
        × Each (IsPlace all) (after_delegate key_of delegate max_entries key cache answer).1.0
  after_delegate_lem all a key cache w (err e, w') here keyed gave h = (refl, h)
  after_delegate_lem all a key cache w (ok c, w') here keyed gave h = (
    refl,
    Each-store (IsPlace all) max_entries key c cache (a, w, here, keyed, ap (λ x. x.0) gave) h,
  )

  geocode_at_lem :
      (all : List ShippingAddress) (a : ShippingAddress) (key : Text) (cache : List Entry)
      (w : World)
      → IsIn a all
      → key_of a ≡ ok key
      → Each (IsPlace all) cache
      → IsWarranted all a (geocode_at key_of delegate max_entries a key (cache, w)).0
        × Each (IsPlace all) (geocode_at key_of delegate max_entries a key (cache, w)).1.0
  geocode_at_lem all a key cache w here keyed h = elim (Option-cases (get key cache)) [
    | inl missing ↦
        let after = after_delegate_lem all a key cache w (delegate a w) here keyed refl h in
        rw (geocode_at, missing)
          (subst (IsWarranted all a) (sym after.0) (asked key w keyed), after.1)
    | inr (cached, found) ↦
        let (b, w', there, keyed', placed) = Each-get (IsPlace all) key cached cache found h in
        rw (geocode_at, found)
          (
            recalled key b w' cached keyed there keyed' placed,
            Each-touch (IsPlace all) key cached cache (b, w', there, keyed', placed) h,
          )
  ]

  geocode-IsWarranted :
      (all : List ShippingAddress) (a : ShippingAddress) (cache : List Entry) (w : World)
      → IsIn a all
      → Each (IsPlace all) cache
      → IsWarranted all a (geocode key_of delegate max_entries a (cache, w)).0
        × Each (IsPlace all) (geocode key_of delegate max_entries a (cache, w)).1.0
  unfolding geocode
  geocode-IsWarranted all a cache w here h = by_key (key_of a) refl
    where
      by_key :
          (o : Result Text)
          → key_of a ≡ o
          → IsWarranted all a (geocode key_of delegate max_entries a (cache, w)).0
            × Each (IsPlace all) (geocode key_of delegate max_entries a (cache, w)).1.0
      by_key (err e) same = rw (geocode, same) (unkeyed e same, h)
      by_key (ok key) same = rw (geocode, same) (geocode_at_lem all a key cache w here same h)

  run_lem :
      (all before addresses : List ShippingAddress) (cache : List Entry) (w : World)
      → all ≡ before ++ addresses
      → Each (IsPlace all) cache
      → AreWarranted all addresses (geocode_all key_of delegate max_entries addresses (cache, w)).0
  unfolding geocode_all
  run_lem all before [] cache w split h = none_left
  run_lem all before (a ∷ rest) cache w split h =
      let here : IsIn a all = subst (IsIn a) (sym split) (IsIn-append a before rest) in
      let this = geocode-IsWarranted all a cache w here h in
      answered a rest _ _ this.0 (
        run_lem all (before ++ (a ∷ [])) rest (geocode key_of delegate max_entries a (cache, w)).1.0
          (geocode key_of delegate max_entries a (cache, w)).1.1
          (split ∙ sym (append_assoc before a rest)) this.1)

  -- In a run of calls that starts with an empty cache, whatever the delegate answers and changes,
  -- each answer is the error of an address that has no key, or what the delegate, in some state,
  -- answers for this very address, or coordinates that the delegate, in some state, gives for an
  -- address of the run with the same key. So an error of the delegate is never answered to another
  -- address, nor coordinates to an address with another key.
  pub geocode_all_lem :
      (addresses : List ShippingAddress) (w : World)
      → AreWarranted addresses addresses
          (geocode_all key_of delegate max_entries addresses ([], w)).0
  geocode_all_lem addresses w = run_lem addresses [] addresses [] w refl tt
