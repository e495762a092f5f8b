-- ===== src/Geocoding/Normalisation.antt =====
-- src/infrastructure/geocoding/normalisation.ts. `nfd`, `to_lower_case` and `to_upper_case` are the
-- string methods of that name, which follow Unicode's tables.
pub mod Table
use canals.Prelude.{
  ℕ, Text, codes, text_eq, List, [], ◌∷◌, ◌++◌, Option, none, some, Bool, true, false, filter,
  length, not, leb, ◌&&◌, ◌||◌, ◌==◌, if◌then◌else◌,
}
use canals.Errors.{Result, ok, err, type_error, ◌>>=◌}
use canals.Domain.Address.{ShippingAddress, is_space}
use canals.Geocoding.Normalisation.Table.{state_name_to_code}

-- `[\u0300-\u036f]`
abbrev is_combining : ℕ → Bool
is_combining c = leb 0x300 c && leb c 0x36f

-- `trim` at the front
unfoldable pub trim_start : Text → Text
unfolding is_space
trim_start [] = []
trim_start (c ∷ cs) = let rest = trim_start cs in if is_space c then rest else c ∷ cs

-- `.trim().replace(/\s+/g, ' ')` once the front is trimmed: a run of white space is one space if
-- anything follows it, else nothing. `pending` says that a run has begun.
unfoldable pub collapse : Bool → Text → Text
unfolding is_space
collapse pending [] = []
collapse pending (c ∷ cs) =
    let open_run = collapse true cs in
    let closed_run = collapse false cs in
    if is_space c then open_run else if pending then 32 ∷ c ∷ closed_run else c ∷ closed_run

-- A property of an object literal, by its name: `Object.prototype` has some that no entry names.
pub data Property : Type 0 where
  absent : Property
  own : Text → Property
  inherited : Property

abbrev pub lookup_own : Text → List (Text × Text) → Property
lookup_own name [] = absent
lookup_own name ((n, value) ∷ rest) = if text_eq n name then own value else lookup_own name rest

-- The names in `Object.prototype` that have no capital.
abbrev is_inherited : Text → Bool
is_inherited name = text_eq name (codes "constructor") || text_eq name (codes "__proto__")

unfoldable pub state_property : Text → Property
unfolding state_name_to_code
state_property name = if is_inherited name then inherited else lookup_own name state_name_to_code

-- `accepted_countries.has`
unfoldable pub is_country : Text → Bool
is_country name =
    text_eq name (codes "us") || text_eq name (codes "usa") || text_eq name (codes "united states")

abbrev or_empty : Option Text → Text
or_empty none = []
or_empty (some t) = t

abbrev is_empty : Text → Bool
is_empty [] = true
is_empty (_ ∷ _) = false

-- `?? rawState`, and what becomes of it: a function or an object that was inherited has no `normalize`.
abbrev pub code_or_raw : Text → Property → Result Text
code_or_raw raw_state absent = ok raw_state
code_or_raw raw_state (own code) = ok code
code_or_raw raw_state inherited = err type_error

module _ (nfd to_lower_case to_upper_case : Text → Text) where
  unfoldable pub normalize_text : Text → Text
  unfolding trim_start collapse
  normalize_text value =
      to_lower_case (collapse false (trim_start (filter (λ c. not (is_combining c)) (nfd value))))

  unfoldable pub canonicalize_state_code : Text → Property
  unfolding normalize_text state_property
  canonicalize_state_code raw_state =
      let normalized = normalize_text raw_state in
      if length normalized == 2 then own (to_upper_case normalized) else state_property normalized

  unfoldable pub is_accepted_country : Text → Bool
  unfolding normalize_text is_country
  is_accepted_country raw_country = is_country (normalize_text raw_country)

  -- `rawState ? (canonicalizeStateCode(rawState) ?? rawState) : ''`
  unfoldable pub state_code : Option Text → Result Text
  unfolding canonicalize_state_code
  state_code none = ok []
  state_code (some raw_state) =
      if is_empty raw_state
      then ok []
      else code_or_raw raw_state (canonicalize_state_code raw_state)

  abbrev normalize_field : Text → Text
  normalize_field field = if is_empty field then [] else normalize_text field

  abbrev join_fields : Text → Text → Text → Text → Text → Text → Text
  join_fields line1 line2 city state postal_code country =
      line1
      ++ (b'|' ∷ line2
          ++ (b'|' ∷ city ++ (b'|' ∷ state ++ (b'|' ∷ postal_code ++ (b'|' ∷ country)))))

  unfoldable pub build_normalised_address : ShippingAddress → Result Text
  unfolding state_code normalize_text
  build_normalised_address address = do
    code ← state_code address.state
    ok (
        join_fields (normalize_field address.line1) (normalize_field (or_empty address.line2))
          (normalize_field address.city) (normalize_field code)
          (normalize_field (or_empty address.postal_code)) (normalize_field address.country))
