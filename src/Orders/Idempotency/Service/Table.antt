-- ===== src/Orders/Idempotency/Service/Table.antt =====
-- What a key means to the clients, and how the rows of `idempotency_keys` implement it
-- (create-order-idempotent.service.ts, `beginIdempotentRequest`; idempotency.repository.ts).
use canals.Prelude.{
  ℕ, ◌≡◌, refl, Text, text_eq, text_eq_refl, [], ◌∷◌, Option, none, some, false, ltb, ◌==◌,
  if◌then◌else◌, arith, Option-cases, inl, inr,
}
use mathlib.Core.Option
use canals.Prelude.Rows.{update_row}
use canals.Errors.{Uuid, query_failed, unique_violation}
use canals.Http.Problem.{application}
use canals.Orders.Idempotency.{
  IdempotencyKeyEntity, in_progress, completed, MarkCompletedParams, insert_in_progress,
  find_active_by_key, mark_completed, find_key, complete,
}
use canals.Orders.Idempotency.Service.{
  ResponseBody, null_body, CreateOrderIdempotentResult, Outcome, throws, returns, Begun,
  new_request, replayed_request, Keys, IdempotentServices, reused, still_processed,
  begin_idempotent_request, resolve_existing,
}

-- A key was never used, its request runs, it has its answer, or it has outlived its row's expiry.
pub data Claim : Type 0 where
  free : Claim
  running : Text → Claim
  answered : Text → CreateOrderIdempotentResult → Claim
  stale : Claim

-- What begins, and what the claim becomes.
unfoldable pub begin_claim : Uuid → Text → Claim → Outcome Begun × Claim
begin_claim id fingerprint free = (returns (new_request id), running fingerprint)
begin_claim id fingerprint (running f) =
    (throws (if text_eq f fingerprint then still_processed else reused), running f)
begin_claim id fingerprint (answered f r) =
    ((if text_eq f fingerprint then returns (replayed_request r) else throws reused), answered f r)
begin_claim id fingerprint stale = (throws (application (query_failed unique_violation)), stale)

abbrev or_ok : Option ℕ → ℕ
or_ok none = 200
or_ok (some n) = n

abbrev or_null : Option ResponseBody → ResponseBody
or_null none = null_body
or_null (some b) = b

abbrev claim_of : ℕ → Option (IdempotencyKeyEntity ResponseBody) → Claim
claim_of now none = free
claim_of now (some r) =
    if ltb now r.expires_at
    then elim r.state [
      | in_progress ↦ running r.request_fingerprint
      | completed ↦
          answered r.request_fingerprint
            (record { status = or_ok r.response_status; body = or_null r.response_body })
    ]
    else stale

-- The claim that the rows hold for a key.
unfoldable pub view : ℕ → Text → Keys → Claim
unfolding find_key
view now key keys = claim_of now (find_key key keys)

module _ {Saga : Type 0} (services : IdempotentServices Saga) where
  -- Beginning a request does to the key's claim what the specification says, gives what it gives,
  -- and leaves the claim of every other key as it is, whatever the table holds.
  pub begin_idempotent_request_lem :
      (now : ℕ) (key fingerprint other : Text) (keys : Keys)
      → ((begin_idempotent_request services now key fingerprint keys).0
          ≡ (begin_claim (services.next_id keys) fingerprint (view now key keys)).0)
        × (view now key (begin_idempotent_request services now key fingerprint keys).1
            ≡ (begin_claim (services.next_id keys) fingerprint (view now key keys)).1)
        × (text_eq key other ≡ false
            → view now other (begin_idempotent_request services now key fingerprint keys).1
              ≡ view now other keys)
  unfolding begin_idempotent_request insert_in_progress find_active_by_key resolve_existing view
      begin_claim find_key
  begin_idempotent_request_lem now key fingerprint other keys =
      elim (Option-cases (find_key key keys)) [
        | inl absent ↦ rw absent (ground (arith, text_eq_refl key))
        | inr (r, found) ↦ rw found (ground (arith, found))
      ]

-- How completing a row changes what is found for a key.
pub find_key-mark_completed :
    (key : Text) (params : MarkCompletedParams ResponseBody) (keys : Keys)
    → find_key key (mark_completed params keys)
      ≡ Option.map
          (λ (r : IdempotencyKeyEntity ResponseBody).
            if r.id == params.id then complete params r else r)
          (find_key key keys)
unfolding find_key mark_completed update_row
find_key-mark_completed key params [] = refl
find_key-mark_completed key params (r ∷ rs) = ground (arith, find_key-mark_completed key params rs)
