-- ===== src/PaymentsMock/Charges.antt =====
-- payments-mock/src/charge.service.ts, with card.ts, constants.ts, hash.ts and types.ts. A request is
-- two steps, since others run while it waits: `arrive`, all that happens before its promise is in
-- `pending`, and `finish`, what happens when its delay is over. sha256, the printing of a number and
-- of a date, and the random id are parameters; the logs are left out.
pub mod Laws
mod Tests
use canals.Prelude.{
  ℕ, Text, codes, text_eq, is_digit, List, [], ◌∷◌, ◌++◌, Option, none, some, Bool, true, false,
  filter, not, length, ◌-◌, zero, suc, if◌then◌else◌,
}

pub record ChargeRequestBody : Type 0 where
  pub card_number : Text
  pub amount_cents : ℕ
  pub currency : Text
  pub description : Text

pub data ChargeStatus : Type 0 where
  approved declined : ChargeStatus

-- `declineCode` is 'card_declined' or undefined: whether it is there.
pub record ChargeRecord : Type 0 where
  pub id : Text
  pub idempotency_key : Text
  pub request_hash : Text
  pub status : ChargeStatus
  pub has_decline_code : Bool
  pub amount_cents : ℕ
  pub currency : Text
  pub card_last4 : Text
  pub created_at : Text

-- `ChargeResult`
pub data ChargeResult : Type 0 where
  charged : ChargeRecord → ChargeResult
  provider_error : ChargeResult
  reused : ChargeResult

pub record ChargeAttempt : Type 0 where
  pub idempotency_key : Text
  pub hash : Text
  pub last4 : Text
  pub body : ChargeRequestBody

-- Where a promise stands: it has its result, it waits before it stores an approval, or it is a charge
-- of card 0004, which hangs with its record.
pub data Stage : Type 0 where
  settled : ChargeResult → Stage
  approving : Stage
  hanging : ChargeRecord → Stage

pub record PendingCharge : Type 0 where
  pub attempt : ChargeAttempt
  pub stage : Stage

pub record ChargeService : Type 0 where
  pub records : List ChargeRecord
  pub pending : List PendingCharge

abbrev drop : ℕ → Text → Text
drop zero t = t
drop (suc n) [] = []
drop (suc n) (c ∷ cs) = drop n cs

-- `slice(-4)` of the digits
unfoldable pub card_last4 : Text → Text
card_last4 card_number = let digits = filter is_digit card_number in drop (length digits - 4) digits

-- `records.get`, and `records.set` under the record's key.
unfoldable pub find_record : Text → List ChargeRecord → Option ChargeRecord
find_record key [] = none
find_record key (r ∷ rs) = if text_eq r.idempotency_key key then some r else find_record key rs

unfoldable pub set_record : ChargeRecord → List ChargeRecord → List ChargeRecord
set_record r [] = r ∷ []
set_record r (s ∷ rs) =
    if text_eq s.idempotency_key r.idempotency_key then r ∷ rs else s ∷ set_record r rs

-- `pending.get` and `pending.delete`
unfoldable pub find_pending : Text → List PendingCharge → Option PendingCharge
find_pending key [] = none
find_pending key (p ∷ ps) =
    if text_eq p.attempt.idempotency_key key then some p else find_pending key ps

unfoldable pub delete_pending : Text → List PendingCharge → List PendingCharge
delete_pending key ps =
    filter (λ (p : PendingCharge). not (text_eq p.attempt.idempotency_key key)) ps

abbrev is_declined : ChargeStatus → Bool
is_declined declined = true
is_declined approved = false

-- A replay, or the reuse of the key for another body.
unfoldable pub replay : Text → ChargeRecord → ChargeResult
replay hash r = if text_eq r.request_hash hash then charged r else reused

-- What a second request is given when the promise that it awaited has its outcome.
unfoldable pub joined : Text → Text → ChargeResult → ChargeResult
joined pending_hash hash outcome = if text_eq pending_hash hash then outcome else reused

pub record ChargeServices : Type 0 where
  pub sha256 : Text → Text
  pub print_number : ℕ → Text
  pub print_date : ℕ → Text
  pub new_id : List ChargeRecord → Text

module _ (services : ChargeServices) where
  unfoldable pub compute_request_hash : Text → ChargeRequestBody → Text
  compute_request_hash last4 body = services.sha256 (
      last4
      ++ (b'|' ∷ services.print_number body.amount_cents
          ++ (b'|' ∷ body.currency ++ (b'|' ∷ body.description))))

  abbrev pub record_of : ℕ → ChargeAttempt → ChargeStatus → List ChargeRecord → ChargeRecord
  record_of now attempt status records = record {
    id = codes "ch_" ++ services.new_id records;
    idempotency_key = attempt.idempotency_key;
    request_hash = attempt.hash;
    status = status;
    has_decline_code = is_declined status;
    amount_cents = attempt.body.amount_cents;
    currency = attempt.body.currency;
    card_last4 = attempt.last4;
    created_at = services.print_date now;
  }

  unfoldable pub store :
      ℕ → ChargeAttempt → ChargeStatus → List ChargeRecord → ChargeRecord × List ChargeRecord
  unfolding set_record
  store now attempt status records =
      let r = record_of now attempt status records in (r, set_record r records)

  -- `processCard0004`, up to its delay.
  abbrev start_hanging :
      ℕ → ChargeAttempt → List ChargeRecord → Option ChargeRecord → Stage × List ChargeRecord
  start_hanging now attempt records (some existing) = (hanging existing, records)
  start_hanging now attempt records none =
      let (r, records') = store now attempt approved records in (hanging r, records')

  -- The other cards, up to their delay.
  abbrev start_other :
      ℕ → ChargeAttempt → List ChargeRecord → Option ChargeRecord → Stage × List ChargeRecord
  start_other now attempt records (some existing) =
      (settled (replay attempt.hash existing), records)
  start_other now attempt records none =
      let (r, records') = store now attempt declined records in
      if text_eq attempt.last4 (codes "0003")
      then (settled provider_error, records)
      else if text_eq attempt.last4 (codes "0002")
      then (settled (charged r), records')
      else (approving, records)

  -- `process`, up to its first delay.
  unfoldable pub start : ℕ → ChargeAttempt → List ChargeRecord → Stage × List ChargeRecord
  unfolding store replay find_record
  start now attempt records =
      if text_eq attempt.last4 (codes "0004")
      then start_hanging now attempt records (find_record attempt.idempotency_key records)
      else start_other now attempt records (find_record attempt.idempotency_key records)

  abbrev pub attempt_of : Text → ChargeRequestBody → ChargeAttempt
  attempt_of key body = record {
    idempotency_key = key;
    hash = compute_request_hash (card_last4 body.card_number) body;
    last4 = card_last4 body.card_number;
    body = body;
  }

  -- A request whose key is pending joins that promise, and changes nothing.
  unfoldable pub arrive : ℕ → Text → ChargeRequestBody → ChargeService → ChargeService
  unfolding start find_pending card_last4 compute_request_hash
  arrive now key body s = elim (find_pending key s.pending) [
    | some p ↦ s
    | none ↦
        let (stage, records) = start now (attempt_of key body) s.records in
        record {
          records = records;
          pending = record { attempt = attempt_of key body; stage = stage } ∷ s.pending;
        }
  ]

  -- What a promise gives after its delay.
  unfoldable pub settle :
      ℕ → ChargeAttempt → Stage → List ChargeRecord → ChargeResult × List ChargeRecord
  unfolding store replay
  settle now attempt (settled result) records = (result, records)
  settle now attempt (hanging r) records = (replay attempt.hash r, records)
  settle now attempt approving records =
      let (r, records') = store now attempt approved records in (charged r, records')

  -- The end of a pending request: its result, and the service.
  unfoldable pub finish : ℕ → PendingCharge → ChargeService → ChargeResult × ChargeService
  unfolding settle delete_pending
  finish now p s =
      let (result, records) = settle now p.attempt p.stage s.records in
      (
        result,
        record { records = records; pending = delete_pending p.attempt.idempotency_key s.pending },
      )
