-- ===== src/PaymentsMock/Charges/Laws.antt =====
-- payments-mock/src/charge.service.ts: what the store of charges keeps.
pub mod Once
use canals.Prelude.{
  ℕ, ◌≡◌, refl, sym, ap, ◌∙◌, Text, codes, text_eq, text_eq_iff, text_eq_refl, text_eq_left, List,
  [], ◌∷◌, Option, none, some, Bool, true, false, not, filter, All, arith, Bool-cases, Option-cases,
  inl, inr, if◌then◌else◌,
}
use canals.PaymentsMock.Charges.{
  ChargeRecord, ChargeStatus, approved, declined, ChargeRequestBody, ChargeService, ChargeServices,
  ChargeAttempt, PendingCharge, ChargeResult, charged, provider_error, reused, Stage, settled,
  approving, hanging, find_record, set_record, find_pending, delete_pending, replay, store, start,
  arrive, settle, finish, record_of, attempt_of, start_hanging, start_other,
}

find_record-set_record :
    (key : Text) (r : ChargeRecord) (rs : List ChargeRecord)
    → find_record key (set_record r rs)
      ≡ (if text_eq r.idempotency_key key then some r else find_record key rs)
unfolding find_record set_record
find_record-set_record key r [] = refl
find_record-set_record key r (s ∷ rs) = ground (
  arith,
  find_record-set_record key r rs,
  text_eq_left s.idempotency_key r.idempotency_key key,
  text_eq_left s.idempotency_key key r.idempotency_key,
  text_eq_left r.idempotency_key key r.idempotency_key,
  text_eq_refl r.idempotency_key,
)

find_record-same :
    (a b : Text) (rs : List ChargeRecord) → text_eq a b ≡ true → find_record a rs ≡ find_record b rs
find_record-same a b rs h = ap (λ k. find_record k rs) ((text_eq_iff a b).0 h)

-- What a promise stands for: a result is of the stored record, a hanging charge's record is stored,
-- and a charge that waits for its approval has none.
abbrev pub IsBacked : List ChargeRecord → Text → Text → Stage → Type 0
IsBacked records key hash (settled (charged r)) =
    (find_record key records ≡ some r) × (r.request_hash ≡ hash)
IsBacked records key hash (settled _) = Unit
IsBacked records key hash approving = find_record key records ≡ none
IsBacked records key hash (hanging r) = find_record key records ≡ some r

abbrev pub IsBackedIn : List ChargeRecord → PendingCharge → Type 0
IsBackedIn records p = IsBacked records p.attempt.idempotency_key p.attempt.hash p.stage

abbrev pub IsSound : ChargeService → Type 0
IsSound s = All (IsBackedIn s.records) s.pending

module _ (services : ChargeServices) where
  -- No record that is there is changed.
  abbrev pub Keeps : List ChargeRecord → List ChargeRecord → Type 0
  Keeps before after =
      (key : Text) (r : ChargeRecord)
      → find_record key before ≡ some r
      → find_record key after ≡ some r

  store_lem :
      (now : ℕ) (attempt : ChargeAttempt) (status : ChargeStatus) (records : List ChargeRecord)
      → find_record attempt.idempotency_key records ≡ none
      → Keeps records (store services now attempt status records).1
        × (find_record attempt.idempotency_key (store services now attempt status records).1
            ≡ some (store services now attempt status records).0)
  unfolding store
  store_lem now attempt status records absent = (
    λ key r found. ground (
      arith,
      find_record-set_record key (record_of services now attempt status records) records,
      find_record-same attempt.idempotency_key key records,
    ),
    ground (
      arith,
      find_record-set_record attempt.idempotency_key (record_of services now attempt status records)
          records,
      text_eq_refl attempt.idempotency_key,
    ),
  )

  hash_lem :
      (now : ℕ) (attempt : ChargeAttempt) (status : ChargeStatus) (records : List ChargeRecord)
      → (store services now attempt status records).0.request_hash ≡ attempt.hash
  unfolding store
  hash_lem now attempt status records = refl

  replay_lem :
      (key hash : Text) (r : ChargeRecord) (records : List ChargeRecord)
      → find_record key records ≡ some r
      → IsBacked records key hash (settled (replay hash r))
  unfolding replay
  replay_lem key hash r records found = elim (Bool-cases (text_eq r.request_hash hash)) [
    | inl same ↦ rw same (found, (text_eq_iff r.request_hash hash).0 same)
    | inr other ↦ rw other tt
  ]

  abbrev pub IsStarted : ChargeAttempt → List ChargeRecord → Stage × List ChargeRecord → Type 0
  IsStarted attempt records started =
      Keeps records started.1 × IsBacked started.1 attempt.idempotency_key attempt.hash started.0

  start_hanging_lem :
      (now : ℕ) (attempt : ChargeAttempt) (records : List ChargeRecord)
      (existing : Option ChargeRecord)
      → find_record attempt.idempotency_key records ≡ existing
      → IsStarted attempt records (start_hanging services now attempt records existing)
  start_hanging_lem now attempt records none found = store_lem now attempt approved records found
  start_hanging_lem now attempt records (some r) found = (λ key s h. h, found)

  start_other_lem :
      (now : ℕ) (attempt : ChargeAttempt) (records : List ChargeRecord)
      (existing : Option ChargeRecord)
      → find_record attempt.idempotency_key records ≡ existing
      → IsStarted attempt records (start_other services now attempt records existing)
  start_other_lem now attempt records none found =
      elim (Bool-cases (text_eq attempt.last4 (codes "0003"))) [
        | inl failing ↦ rw failing (λ key s h. h, tt)
        | inr not_failing ↦ elim (Bool-cases (text_eq attempt.last4 (codes "0002"))) [
          | inl declining ↦
              let stored = store_lem now attempt declined records found in
              rw (not_failing, declining)
                (stored.0, (stored.1, hash_lem now attempt declined records))
          | inr waiting ↦ rw (not_failing, waiting) (λ key s h. h, found)
        ]
      ]
  start_other_lem now attempt records (some r) found =
      (λ key s h. h, replay_lem attempt.idempotency_key attempt.hash r records found)

  pub start_lem :
      (now : ℕ) (attempt : ChargeAttempt) (records : List ChargeRecord)
      → IsStarted attempt records (start services now attempt records)
  unfolding start
  start_lem now attempt records = elim (Bool-cases (text_eq attempt.last4 (codes "0004"))) [
    | inl hangs ↦
        rw hangs
          (start_hanging_lem now attempt records (find_record attempt.idempotency_key records) refl)
    | inr other ↦
        rw other
          (start_other_lem now attempt records (find_record attempt.idempotency_key records) refl)
  ]

  -- What is backed stays backed when records are kept and no other charge stores under its key.
  pub IsBacked-Keeps :
      (before after : List ChargeRecord) (key hash : Text) (stage : Stage)
      → Keeps before after
      → (find_record key before ≡ none → find_record key after ≡ none)
      → IsBacked before key hash stage
      → IsBacked after key hash stage
  IsBacked-Keeps before after key hash (settled (charged r)) keep bare h = (keep key r h.0, h.1)
  IsBacked-Keeps before after key hash (settled provider_error) keep bare h = tt
  IsBacked-Keeps before after key hash (settled reused) keep bare h = tt
  IsBacked-Keeps before after key hash approving keep bare h = bare h
  IsBacked-Keeps before after key hash (hanging r) keep bare h = keep key r h

  -- A charge stores under its own key only.
  store_key :
      (now : ℕ) (attempt : ChargeAttempt) (status : ChargeStatus) (records : List ChargeRecord)
      (key : Text)
      → text_eq attempt.idempotency_key key ≡ false
      → find_record key (store services now attempt status records).1 ≡ find_record key records
  unfolding store
  store_key now attempt status records key other =
      ground
        (arith, find_record-set_record key (record_of services now attempt status records) records)

  pub start_key :
      (now : ℕ) (attempt : ChargeAttempt) (records : List ChargeRecord) (key : Text)
      → text_eq attempt.idempotency_key key ≡ false
      → find_record key (start services now attempt records).1 ≡ find_record key records
  unfolding start
  start_key now attempt records key other = ground (
    arith,
    store_key now attempt approved records key,
    store_key now attempt declined records key,
  )

  pub settle_key :
      (now : ℕ) (attempt : ChargeAttempt) (stage : Stage) (records : List ChargeRecord) (key : Text)
      → text_eq attempt.idempotency_key key ≡ false
      → find_record key (settle services now attempt stage records).1 ≡ find_record key records
  unfolding settle
  settle_key now attempt (settled r) records key other = refl
  settle_key now attempt (hanging r) records key other = refl
  settle_key now attempt approving records key other =
      store_key now attempt approved records key other

  pub settle_lem :
      (now : ℕ) (attempt : ChargeAttempt) (stage : Stage) (records : List ChargeRecord)
      → IsBacked records attempt.idempotency_key attempt.hash stage
      → Keeps records (settle services now attempt stage records).1
        × IsBacked
            (settle services now attempt stage records).1
            attempt.idempotency_key
            attempt.hash
            (settled (settle services now attempt stage records).0)
  unfolding settle
  settle_lem now attempt (settled r) records h = (λ key s found. found, h)
  settle_lem now attempt (hanging r) records h =
      (λ key s found. found, replay_lem attempt.idempotency_key attempt.hash r records h)
  settle_lem now attempt approving records h =
      let stored = store_lem now attempt approved records h in
      (stored.0, (stored.1, hash_lem now attempt approved records))
