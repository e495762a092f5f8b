-- ===== src/Orders/Idempotency/Fingerprint/Sorting.antt =====
-- The fingerprint does not see the order in which an object's fields are written.
use canals.Prelude.{Text, Bool, ◌≡◌, refl, sym, ap, ◌∙◌, true, false, arith}
use canals.Orders.Idempotency.Fingerprint.{
  Json, array, object, Elements, no_elements, element, Fields, no_fields, field, insert_field,
  sort_fields, canonicalize, canonicalize_elements, canonicalize_fields,
  compute_request_fingerprint,
}

module _ (less : Text → Text → Bool) where
  -- The same value, the fields of its objects written in another order. Two neighbours change
  -- places if `less` tells their names apart.
  mutual
    pub data IsReordered : Json → Json → Type 0 where
      same : {v : Json} → IsReordered v v
      elements : {xs ys : Elements} → AreReordered xs ys → IsReordered (array xs) (array ys)
      fields : {fs gs : Fields} → HasReordered fs gs → IsReordered (object fs) (object gs)

    pub data AreReordered : Elements → Elements → Type 0 where
      at_end : AreReordered no_elements no_elements
      each :
          {v w : Json} {xs ys : Elements}
          → IsReordered v w
          → AreReordered xs ys
          → AreReordered (element v xs) (element w ys)

    pub data HasReordered : Fields → Fields → Type 0 where
      no_field : HasReordered no_fields no_fields
      named :
          {v w : Json} {fs gs : Fields} (name : Text)
          → IsReordered v w
          → HasReordered fs gs
          → HasReordered (field name v fs) (field name w gs)
      swap :
          {v w : Json} {fs : Fields} (a b : Text)
          → less a b ≡ true
          → less b a ≡ false
          → HasReordered (field b w (field a v fs)) (field a v (field b w fs))
      back : {fs gs : Fields} → HasReordered fs gs → HasReordered gs fs
      chain : {fs gs hs : Fields} → HasReordered fs gs → HasReordered gs hs → HasReordered fs hs

  module _ (less_trans : (a b c : Text) → less a b ≡ true → less b c ≡ true → less a c ≡ true) where
    insert_comm :
        (a b : Text) (v w : Json) (fs : Fields)
        → less a b ≡ true
        → less b a ≡ false
        → insert_field less b w (insert_field less a v fs)
          ≡ insert_field less a v (insert_field less b w fs)
    unfolding insert_field
    insert_comm a b v w no_fields lt ge = rw (lt, ge) refl
    insert_comm a b v w (field n u fs) lt ge =
        ground (arith, insert_comm a b v w fs lt ge, less_trans n a b)

    mutual
      unfolding canonicalize

      canonicalize-IsReordered :
          {v w : Json} → IsReordered v w → canonicalize less v ≡ canonicalize less w
      canonicalize-IsReordered same = refl
      canonicalize-IsReordered (elements h) = ap array (canonicalize-AreReordered h)
      canonicalize-IsReordered (fields h) = ap object (canonicalize-HasReordered h)

      canonicalize-AreReordered :
          {xs ys : Elements}
          → AreReordered xs ys
          → canonicalize_elements less xs ≡ canonicalize_elements less ys
      canonicalize-AreReordered at_end = refl
      canonicalize-AreReordered (each h hs) =
          rw (canonicalize-IsReordered h, canonicalize-AreReordered hs) refl

      canonicalize-HasReordered :
          {fs gs : Fields}
          → HasReordered fs gs
          → sort_fields less (canonicalize_fields less fs)
            ≡ sort_fields less (canonicalize_fields less gs)
      canonicalize-HasReordered no_field = refl
      canonicalize-HasReordered (named name h hs) =
          rw (canonicalize-IsReordered h, canonicalize-HasReordered hs) refl
      canonicalize-HasReordered (swap a b lt ge) = insert_comm a b _ _ _ lt ge
      canonicalize-HasReordered (back h) = sym (canonicalize-HasReordered h)
      canonicalize-HasReordered (chain h hs) =
          canonicalize-HasReordered h ∙ canonicalize-HasReordered hs

    -- If `localeCompare` is transitive, then two bodies that differ only by swaps, at any depth, of
    -- neighbouring fields whose names `localeCompare` tells apart (one comes strictly before the
    -- other) have the same fingerprint, whatever the serializer and the hash. Fields whose names
    -- compare as equal keep their order, and a swap of those is not covered.
    pub fingerprint-IsReordered :
        (stringify : Json → Text) (sha256 : Text → Text) {v w : Json}
        → IsReordered v w
        → compute_request_fingerprint less stringify sha256 v
          ≡ compute_request_fingerprint less stringify sha256 w
    unfolding compute_request_fingerprint
    fingerprint-IsReordered stringify sha256 h =
        ap (λ j. sha256 (stringify j)) (canonicalize-IsReordered h)
