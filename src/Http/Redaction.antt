-- ===== src/Http/Redaction.antt =====
-- src/infrastructure/http/redaction.ts: the walk over a value. A value is a tree: the copy of a shared
-- or a cyclic object, which the source finds in its WeakMap, is left out. A Date, a number and any
-- other value that is no text, array, object or error is `opaque`.
pub mod Masking
pub mod Laws
mod Tests
use canals.Prelude.{
  ℕ, Text, codes, text_eq, Option, none, some, Bool, true, false, ◌||◌, if◌then◌else◌,
}
use canals.Http.Redaction.Masking.{
  lower_text, redacted_secret, mask_card_value, redact_string, mask_cards, mask_keys,
}

mutual
  pub data Value : Type 0 where
    text : Text → Value
    opaque : ℕ → Value
    array : Items → Value
    object : Fields → Value
    error : Text → Text → Option Text → Fields → Value

  pub data Items : Type 0 where
    no_items : Items
    item : Value → Items → Items

  pub data Fields : Type 0 where
    no_fields : Fields
    field : Text → Value → Fields → Fields

-- `/^(card_?number|pan)$/i` and `/^api_?key$/i`
unfoldable pub is_masked_key : Text → Bool
is_masked_key key =
    text_eq (lower_text key) (codes "cardnumber")
    || (text_eq (lower_text key) (codes "card_number") || text_eq (lower_text key) (codes "pan"))

unfoldable pub is_redacted_key : Text → Bool
is_redacted_key key =
    text_eq (lower_text key) (codes "apikey") || text_eq (lower_text key) (codes "api_key")

-- `clone[key] = value`
unfoldable pub set_field : Text → Value → Fields → Fields
set_field key value no_fields = field key value no_fields
set_field key value (field k v fields) =
    let rest = set_field key value fields in
    if text_eq k key then field k value fields else field k v rest

-- A field whose value is redacted already, by the rules of its key.
unfoldable pub redacted_field : Text → Value → Value → Value
unfolding is_masked_key is_redacted_key mask_card_value
redacted_field key (text t) redacted =
    if is_redacted_key key
    then text redacted_secret
    else if is_masked_key key
    then text (mask_card_value t)
    else redacted
redacted_field key _ redacted = if is_redacted_key key then text redacted_secret else redacted

stack_of : Option Text → Value
unfolding redact_string
stack_of none = opaque 0
stack_of (some t) = text (redact_string t)

unfoldable mutual
  unfolding redacted_field set_field redact_string stack_of

  pub redact_value : Value → Value
  redact_value (text t) = text (redact_string t)
  redact_value (opaque n) = opaque n
  redact_value (array items) = array (redact_items items)
  redact_value (object fields) = object (redact_object fields)
  redact_value (error name message stack fields) = object (
      redact_error_fields fields (
        field (codes "name") (text name) (
          field (codes "message") (text (redact_string message))
            (field (codes "stack") (stack_of stack) no_fields))))

  pub redact_items : Items → Items
  redact_items no_items = no_items
  redact_items (item value items) = item (redact_value value) (redact_items items)

  pub redact_object : Fields → Fields
  redact_object no_fields = no_fields
  redact_object (field key value fields) =
      field key (redacted_field key value (redact_value value)) (redact_object fields)

  -- The own fields of an error, set in the copy that has been begun.
  pub redact_error_fields : Fields → Fields → Fields
  redact_error_fields no_fields clone = clone
  redact_error_fields (field key value fields) clone =
      redact_error_fields fields (set_field key (redact_value value) clone)
