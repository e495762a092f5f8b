-- ===== src/Allocation/Allocate/Failover.antt =====
-- Which candidate an allocation takes, and what it leaves when it takes none.
use canals.Prelude.{
  ◌≡◌, refl, sym, ap, ◌∙◌, List, [], ◌∷◌, ◌++◌, Option, none, some, Bool, true, false, ◌||◌, ◌==◌,
  contains, IsDistinct, arith, inl, inr, Option-cases, Bool-cases, ==_iff,
}
use canals.Errors.{
  Uuid, SqlState, Error, insufficient_stock, no_fulfilment_possible, reservation_race_lost, Result,
  ok, err,
}
use canals.Store.{Database, transaction}
use canals.Allocation.Inventory.{OrderLine}
use canals.Allocation.Allocate.{
  Candidate, AllocationResult, OnBeforeReserve, add_all, unmet_by, after_attempt, attempt_at,
  try_candidates, execute,
}

transaction_eq :
    (work : Database → Result (Unit {0} × Database)) (db : Database)
    (r : Result (Unit {0} × Database))
    → work db ≡ r
    → transaction work db ≡ elim r [ ok (u, db') ↦ (ok u, db') | err e ↦ (err e, db) ]
unfolding transaction
transaction_eq work db (ok a) h = rw (transaction, h) refl
transaction_eq work db (err e) h = rw (transaction, h) refl

-- Some of the lists has the product.
abbrev pub is_reported : List (List Uuid) → Uuid → Bool
is_reported [] p = false
is_reported (ids ∷ reported) p = contains ids p || is_reported reported p

contains-snoc :
    (set : List Uuid) (p q : Uuid) → contains (set ++ (p ∷ [])) q ≡ contains set q || p == q
contains-snoc [] p q = ground arith
contains-snoc (x ∷ set) p q = ground (arith, contains-snoc set p q)

snoc-IsDistinct :
    (set : List Uuid) (p : Uuid)
    → contains set p ≡ false
    → IsDistinct set
    → IsDistinct (set ++ (p ∷ []))
snoc-IsDistinct [] p new h = (refl, tt)
snoc-IsDistinct (x ∷ set) p new h = (
  contains-snoc set p x ∙ ground (arith, new, h.0),
  snoc-IsDistinct set p (ground (arith, new)) h.1,
)

contains_same : (set : List Uuid) (p q : Uuid) → (p == q) ≡ true → contains set p ≡ contains set q
contains_same set p q h = ap (contains set) ((==_iff p q).0 h)

contains-add_all :
    (ids set : List Uuid) (q : Uuid)
    → contains (add_all ids set) q ≡ contains ids q || contains set q
contains-add_all [] set q = refl
contains-add_all (p ∷ ids) set q = elim (Bool-cases (contains set p)) [
  | inl old ↦ rw old (ground (arith, contains-add_all ids set q, old, contains_same set p q))
  | inr new ↦
      rw new (ground (arith, contains-add_all ids (set ++ (p ∷ [])) q, contains-snoc set p q))
]

add_all-IsDistinct : (ids set : List Uuid) → IsDistinct set → IsDistinct (add_all ids set)
add_all-IsDistinct [] set h = h
add_all-IsDistinct (p ∷ ids) set h = elim (Bool-cases (contains set p)) [
  | inl old ↦ rw old (add_all-IsDistinct ids set h)
  | inr new ↦ rw new (add_all-IsDistinct ids (set ++ (p ∷ [])) (snoc-IsDistinct set p new h))
]

unmet_by-some : (e : Error) (ids : List Uuid) → unmet_by e ≡ some ids → e ≡ insufficient_stock ids
unmet_by-some e ids h = ground arith

unmet_by-none : (e : Error) → unmet_by e ≡ none → (ids : List Uuid) → ¬ (e ≡ insufficient_stock ids)
unmet_by-none e h ids same = ground (arith, sym h ∙ ap unmet_by same)

-- The set has the products of the lists, each once.
abbrev IsUnion : List (List Uuid) → List Uuid → Type 0
IsUnion reported set = IsDistinct set × ((p : Uuid) → contains set p ≡ is_reported reported p)

add_all-IsUnion :
    (reported : List (List Uuid)) (ids set : List Uuid)
    → IsUnion reported set
    → IsUnion (ids ∷ reported) (add_all ids set)
add_all-IsUnion reported ids set h = (
  add_all-IsDistinct ids set h.0,
  λ p. contains-add_all ids set p ∙ ap (λ b. contains ids p || b) (h.1 p),
)

module _ (locks : Uuid → Option SqlState) (on_before_reserve : OnBeforeReserve) (order_id : Uuid)
    (lines : List OrderLine) (db : Database) where
  abbrev attempt_of : Candidate → Result (Unit {0} × Database)
  attempt_of c = attempt_at locks on_before_reserve order_id lines c.warehouse_id db

  -- How the loop ends over candidates, with the lists of products that the attempts before have
  -- reported as short. Every attempt starts from `db` itself.
  pub data Ends
      : List Candidate → List (List Uuid) → Result AllocationResult × Database → Type 0 where
    exhausted :
        (reported : List (List Uuid)) (unmet : List Uuid)
        → IsDistinct unmet
        → ((p : Uuid) → contains unmet p ≡ is_reported reported p)
        → Ends [] reported (err (no_fulfilment_possible unmet reservation_race_lost), db)
    wins :
        (c : Candidate) (cs : List Candidate) (reported : List (List Uuid)) (db' : Database)
        → attempt_of c ≡ ok (tt, db')
        → Ends (c ∷ cs) reported (
          ok (record {
            order_id = order_id;
            warehouse_id = c.warehouse_id;
            name = c.name;
            distance_meters = c.distance_meters;
          }),
          db',
        )
    loses :
        (c : Candidate) (cs : List Candidate) (reported : List (List Uuid)) (ids : List Uuid)
        (r : Result AllocationResult × Database)
        → attempt_of c ≡ err (insufficient_stock ids)
        → Ends cs (ids ∷ reported) r
        → Ends (c ∷ cs) reported r
    breaks :
        (c : Candidate) (cs : List Candidate) (reported : List (List Uuid)) (e : Error)
        → attempt_of c ≡ err e
        → ((ids : List Uuid) → ¬ (e ≡ insufficient_stock ids))
        → Ends (c ∷ cs) reported (err e, db)

  abbrev tried : List Candidate → List Uuid → Result AllocationResult × Database
  tried cs unmet = try_candidates locks on_before_reserve order_id lines cs unmet db

  failed-Ends :
      (c : Candidate) (cs : List Candidate) (reported : List (List Uuid)) (unmet : List Uuid)
      (e : Error)
      → attempt_of c ≡ err e
      → ((ids : List Uuid) → Ends cs (ids ∷ reported) (tried cs (add_all ids unmet)))
      → Ends (c ∷ cs) reported (tried (c ∷ cs) unmet)
  unfolding try_candidates after_attempt
  failed-Ends c cs reported unmet e h rest =
      let ran =
        transaction_eq (attempt_at locks on_before_reserve order_id lines c.warehouse_id) db (err e)
          h in
      elim (Option-cases (unmet_by e)) [
        | inl other ↦
            rw (try_candidates, ran)
              (rw (after_attempt, other) (breaks c cs reported e h (unmet_by-none e other)))
        | inr (ids, short) ↦
            rw (try_candidates, ran)
              (rw (after_attempt, short)
                (loses c cs reported ids _ (h ∙ ap err (unmet_by-some e ids short)) (rest ids)))
      ]

  try_candidates-Ends :
      (cs : List Candidate) (reported : List (List Uuid)) (unmet : List Uuid)
      → IsUnion reported unmet
      → Ends cs reported (tried cs unmet)
  unfolding try_candidates after_attempt
  try_candidates-Ends [] reported unmet u = exhausted reported unmet u.0 u.1
  try_candidates-Ends (c ∷ cs) reported unmet u = go (attempt_of c) refl (λ ids.
      try_candidates-Ends cs (ids ∷ reported) (add_all ids unmet)
        (add_all-IsUnion reported ids unmet u))
    where
      go :
          (r : Result (Unit {0} × Database))
          → attempt_of c ≡ r
          → ((ids : List Uuid) → Ends cs (ids ∷ reported) (tried cs (add_all ids unmet)))
          → Ends (c ∷ cs) reported (tried (c ∷ cs) unmet)
      go (ok (u, db')) h rest =
          let ran =
            transaction_eq (attempt_at locks on_before_reserve order_id lines c.warehouse_id) db
              (ok (u, db')) h in
          rw (try_candidates, ran) (wins c cs reported db' h)
      go (err e) h rest = failed-Ends c cs reported unmet e h rest

  -- An allocation over one or more candidates takes the first whose attempt, made on the database
  -- as it was, does not end in InsufficientStockError, and leaves what that attempt leaves; the
  -- attempts before it have left nothing. Any other error of that attempt ends the allocation with
  -- it and changes nothing. When every attempt ends in InsufficientStockError, nothing is changed,
  -- and the error is RESERVATION_RACE_LOST with exactly the products that some attempt reported,
  -- each once.
  pub execute-Ends :
      (c : Candidate) (cs : List Candidate)
      → Ends (c ∷ cs) [] (execute locks on_before_reserve order_id lines (c ∷ cs) db)
  unfolding execute
  execute-Ends c cs = try_candidates-Ends (c ∷ cs) [] [] (tt, λ p. refl)
