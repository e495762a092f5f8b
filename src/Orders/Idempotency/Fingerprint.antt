-- ===== src/Orders/Idempotency/Fingerprint.antt =====
-- src/infrastructure/idempotency/idempotency.repository.ts: `canonicalize` and
-- `computeRequestFingerprint`. `less` is `a.localeCompare(b) < 0`; `JSON.stringify` and sha256 are
-- parameters of the fingerprint.
pub mod Sorting
use canals.Prelude.{ℕ, Text, Bool, List, [], ◌∷◌, if◌then◌else◌, true, false}

-- A value as `JSON.parse` makes it. An object's fields are in the order of the text.
mutual
  pub data Json : Type 0 where
    null : Json
    boolean : Bool → Json
    number : ℕ → Json
    string : Text → Json
    array : Elements → Json
    object : Fields → Json

  pub data Elements : Type 0 where
    no_elements : Elements
    element : Json → Elements → Elements

  pub data Fields : Type 0 where
    no_fields : Fields
    field : Text → Json → Fields → Fields

-- The entries sorted by name: each is put before the first whose name is not less.
module _ (less : Text → Text → Bool) where
  unfoldable pub insert_field : Text → Json → Fields → Fields
  insert_field name value no_fields = field name value no_fields
  insert_field name value (field n v fields) =
      if less n name
      then field n v (insert_field name value fields)
      else field name value (field n v fields)

  unfoldable pub sort_fields : Fields → Fields
  unfolding insert_field
  sort_fields no_fields = no_fields
  sort_fields (field name value fields) = insert_field name value (sort_fields fields)

  -- A sort by the names comes to the same before and after the values are canonicalized.
  unfoldable mutual
    unfolding sort_fields

    pub canonicalize : Json → Json
    canonicalize (array values) = array (canonicalize_elements values)
    canonicalize (object fields) = object (sort_fields (canonicalize_fields fields))
    canonicalize value = value

    pub canonicalize_elements : Elements → Elements
    canonicalize_elements no_elements = no_elements
    canonicalize_elements (element value values) =
        element (canonicalize value) (canonicalize_elements values)

    pub canonicalize_fields : Fields → Fields
    canonicalize_fields no_fields = no_fields
    canonicalize_fields (field name value fields) =
        field name (canonicalize value) (canonicalize_fields fields)

  unfoldable pub compute_request_fingerprint : (Json → Text) → (Text → Text) → Json → Text
  unfolding canonicalize
  compute_request_fingerprint stringify sha256 body = sha256 (stringify (canonicalize body))
