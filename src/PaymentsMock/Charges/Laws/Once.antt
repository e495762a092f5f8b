-- ===== src/PaymentsMock/Charges/Laws/Once.antt =====
-- payments-mock/src/charge.service.ts: requests in any order and overlapping.
use canals.Prelude.{
  ℕ, ◌≡◌, sym, ap, ◌∙◌, subst, Text, text_eq, text_eq_iff, text_eq_comm, List, [], ◌∷◌, Option,
  none, some, true, false, All, arith, Bool-cases, Option-cases, inl, inr,
}
use canals.PaymentsMock.Charges.{
  ChargeRecord, ChargeRequestBody, ChargeService, ChargeServices, ChargeAttempt, PendingCharge,
  charged, settled, find_record, find_pending, delete_pending, arrive, finish, attempt_of,
}
use canals.PaymentsMock.Charges.Laws.{
  IsBacked, IsBackedIn, IsSound, Keeps, start_lem, start_key, settle_lem, settle_key,
  IsBacked-Keeps,
}

-- The pending charges of other keys.
abbrev AreOthers : Text → List PendingCharge → Type 0
AreOthers key = All (λ (p : PendingCharge). text_eq p.attempt.idempotency_key key ≡ false)

find_pending-AreOthers :
    (key : Text) (ps : List PendingCharge) → find_pending key ps ≡ none → AreOthers key ps
unfolding find_pending
find_pending-AreOthers key [] h = tt
find_pending-AreOthers key (p ∷ ps) h = ground (arith, find_pending-AreOthers key ps)

first_pending :
    (key : Text) (q p : PendingCharge) (qs : List PendingCharge)
    → find_pending key (q ∷ qs) ≡ some p
    → text_eq q.attempt.idempotency_key key ≡ true
    → q ≡ p
unfolding find_pending
first_pending key q p qs found same = ground (arith, found, same)

find_pending-IsBackedIn :
    (records : List ChargeRecord) (key : Text) (ps : List PendingCharge) (p : PendingCharge)
    → All (IsBackedIn records) ps
    → find_pending key ps ≡ some p
    → IsBackedIn records p
unfolding find_pending
find_pending-IsBackedIn records key [] p h found = ground arith
find_pending-IsBackedIn records key (q ∷ qs) p h found =
    elim (Bool-cases (text_eq q.attempt.idempotency_key key)) [
      | inl same ↦ subst (IsBackedIn records) (first_pending key q p qs found same) h.0
      | inr other ↦ find_pending-IsBackedIn records key qs p h.1 (ground (arith, found, other))
    ]

delete_pending-IsBackedIn :
    (records : List ChargeRecord) (key : Text) (ps : List PendingCharge)
    → All (IsBackedIn records) ps
    → All (IsBackedIn records) (delete_pending key ps) × AreOthers key (delete_pending key ps)
unfolding delete_pending
delete_pending-IsBackedIn records key [] h = (tt, tt)
delete_pending-IsBackedIn records key (q ∷ qs) h =
    elim (Bool-cases (text_eq q.attempt.idempotency_key key)) [
      | inl same ↦ rw same (delete_pending-IsBackedIn records key qs h.1)
      | inr other ↦
          let rest = delete_pending-IsBackedIn records key qs h.1 in
          rw other ((h.0, rest.0), (other, rest.1))
    ]

module _ (services : ChargeServices) where
  others-IsBackedIn :
      (before after : List ChargeRecord) (key : Text) (ps : List PendingCharge)
      → Keeps services before after
      → ((other : Text)
          → text_eq key other ≡ false
          → find_record other after ≡ find_record other before)
      → All (IsBackedIn before) ps
      → AreOthers key ps
      → All (IsBackedIn after) ps
  others-IsBackedIn before after key [] keep same h others = tt
  others-IsBackedIn before after key (p ∷ ps) keep same h others = (
    IsBacked-Keeps services before after p.attempt.idempotency_key p.attempt.hash p.stage keep
        (λ bare.
          same p.attempt.idempotency_key (text_eq_comm key p.attempt.idempotency_key ∙ others.0)
          ∙ bare)
        h.0,
    others-IsBackedIn before after key ps keep same h.1 others.1,
  )

  -- What one request does to the service.
  pub data Leads : ChargeService → ChargeService → Type 0 where
    done : {s : ChargeService} → Leads s s
    arrives :
        {s t : ChargeService} (now : ℕ) (key : Text) (body : ChargeRequestBody)
        → Leads s t
        → Leads s (arrive services now key body t)
    finishes :
        {s t : ChargeService} (now : ℕ) (p : PendingCharge)
        → find_pending p.attempt.idempotency_key t.pending ≡ some p
        → Leads s t
        → Leads s (finish services now p t).1

  arrive_lem :
      (now : ℕ) (key : Text) (body : ChargeRequestBody) (s : ChargeService)
      → IsSound s
      → IsSound (arrive services now key body s)
        × Keeps services s.records (arrive services now key body s).records
  unfolding arrive find_record
  arrive_lem now key body s h = elim (Option-cases (find_pending key s.pending)) [
    | inr (p, found) ↦ rw (arrive, found) (h, λ k r there. there)
    | inl free ↦
        let started = start_lem services now (attempt_of services key body) s.records in
        rw (arrive, free)
          (
            (
              started.1,
              others-IsBackedIn s.records _ key s.pending started.0
                  (start_key services now (attempt_of services key body) s.records) h
                  (find_pending-AreOthers key s.pending free),
            ),
            started.0,
          )
  ]

  finish_lem :
      (now : ℕ) (p : PendingCharge) (s : ChargeService)
      → IsSound s
      → find_pending p.attempt.idempotency_key s.pending ≡ some p
      → IsSound (finish services now p s).1
        × Keeps services s.records (finish services now p s).1.records
        × IsBacked
            (finish services now p s).1.records
            p.attempt.idempotency_key
            p.attempt.hash
            (settled (finish services now p s).0)
  unfolding finish
  finish_lem now p s h found =
      let kept = delete_pending-IsBackedIn s.records p.attempt.idempotency_key s.pending h in
      let settled_p =
        settle_lem services now p.attempt p.stage s.records
          (find_pending-IsBackedIn s.records p.attempt.idempotency_key s.pending p h found) in
      (
        others-IsBackedIn s.records _ p.attempt.idempotency_key
            (delete_pending p.attempt.idempotency_key s.pending) settled_p.0
            (settle_key services now p.attempt p.stage s.records) kept.0 kept.1,
        settled_p.0,
        settled_p.1,
      )

  Leads_lem :
      {s t : ChargeService} → Leads s t → IsSound s → IsSound t × Keeps services s.records t.records
  Leads_lem done h = (h, λ k r there. there)
  Leads_lem (arrives {s} {t} now key body l) h =
      let before = Leads_lem l h in
      let after = arrive_lem now key body t before.0 in
      (after.0, λ k r there. after.1 k r (before.1 k r there))
  Leads_lem (finishes {s} {t} now p found l) h =
      let before = Leads_lem l h in
      let after = finish_lem now p t before.0 found in
      (after.0, λ k r there. after.1 k r (before.1 k r there))

  abbrev pub empty_service : ChargeService
  empty_service = record { records = []; pending = [] }

  found_both :
      (o : Option ChargeRecord) (p q : ChargeAttempt) (r r' : ChargeRecord)
      → r.request_hash ≡ p.hash
      → o ≡ some r
      → o ≡ some r'
      → r'.request_hash ≡ q.hash
      → (r' ≡ r) × (q.hash ≡ p.hash)
  found_both none p q r r' hash h k hash' = ground arith
  found_both (some s) p q r r' hash h k hash' = ground arith

  same_record :
      (records : List ChargeRecord) (p q : ChargeAttempt) (r r' : ChargeRecord)
      → q.idempotency_key ≡ p.idempotency_key
      → r.request_hash ≡ p.hash
      → find_record p.idempotency_key records ≡ some r
      → (find_record q.idempotency_key records ≡ some r') × (r'.request_hash ≡ q.hash)
      → (r' ≡ r) × (q.hash ≡ p.hash)
  same_record records p q r r' same hash found found' =
      found_both (find_record p.idempotency_key records) p q r r' hash found
        (ap (λ k. find_record k records) (sym same) ∙ found'.0) found'.1

  find_record-key :
      (key : Text) (records : List ChargeRecord) (r : ChargeRecord)
      → find_record key records ≡ some r
      → r.idempotency_key ≡ key
  unfolding find_record
  find_record-key key [] r h = ground arith
  find_record-key key (s ∷ records) r h = elim (Bool-cases (text_eq s.idempotency_key key)) [
    | inl same ↦
        let there : s ≡ r = ground (arith, h, same) in
        subst (λ (x : ChargeRecord). x.idempotency_key ≡ key) there
          ((text_eq_iff s.idempotency_key key).0 same)
    | inr other ↦ find_record-key key records r (ground (arith, h, other))
  ]

  -- From a service without charges, a request with a key is charged with a record; after any other
  -- requests, overlapping or not, another with that key is charged with a record. They are the same
  -- record, it is kept under that key, and both requests had the same hash.
  pub charged_once :
      (s t : ChargeService) (now now' : ℕ) (p q : PendingCharge) (r r' : ChargeRecord)
      → Leads empty_service s
      → find_pending p.attempt.idempotency_key s.pending ≡ some p
      → (finish services now p s).0 ≡ charged r
      → Leads (finish services now p s).1 t
      → find_pending q.attempt.idempotency_key t.pending ≡ some q
      → (finish services now' q t).0 ≡ charged r'
      → q.attempt.idempotency_key ≡ p.attempt.idempotency_key
      → (r' ≡ r)
        × (q.attempt.hash ≡ p.attempt.hash)
        × (r.idempotency_key ≡ p.attempt.idempotency_key)
  charged_once s t now now' p q r r' l pending gave l' pending' gave' same =
      let first = finish_lem now p s (Leads_lem l tt).0 pending in
      let between = Leads_lem l' first.0 in
      let second = finish_lem now' q t between.0 pending' in
      let made =
        subst
          (IsBacked (finish services now p s).1.records p.attempt.idempotency_key p.attempt.hash)
          (ap settled gave) first.2 in
      let once =
        same_record (finish services now' q t).1.records p.attempt q.attempt r r' same made.1
          (second.1 p.attempt.idempotency_key r (between.1 p.attempt.idempotency_key r made.0))
          (subst
            (IsBacked (finish services now' q t).1.records q.attempt.idempotency_key q.attempt.hash)
            (ap settled gave') second.2) in
      (
        once.0,
        once.1,
        find_record-key p.attempt.idempotency_key (finish services now p s).1.records r made.0,
      )
