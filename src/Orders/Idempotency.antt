-- ===== src/Orders/Idempotency.antt =====
-- src/infrastructure/idempotency/idempotency.repository.ts and database/entities/idempotency-key.orm-entity.ts:
-- the table `idempotency_keys` with its unique index on (scope, idempotency_key). `Body` is what
-- the column `response_body` holds; `next_id` is the column's default, an id that no row has.
pub mod Fingerprint
pub mod Service
mod Tests
use canals.Prelude.{
  ℕ, ◌+◌, ◌*◌, Text, codes, text_eq, List, [], ◌∷◌, ◌++◌, Option, none, some, Bool, true, false,
  ltb, ◌==◌, ◌&&◌, if◌then◌else◌,
}
use canals.Prelude.Rows.{update_row}
use canals.Errors.{Uuid}

pub data IdempotencyState : Type 0 where
  in_progress completed : IdempotencyState

-- A row; the scope is 'POST /orders' in every row, so it is left out.
pub record IdempotencyKeyEntity (Body : Type 0) : Type 0 where
  pub id : Uuid
  pub idempotency_key : Text
  pub request_fingerprint : Text
  pub state : IdempotencyState
  pub order_id : Option Uuid
  pub response_status : Option ℕ
  pub response_body : Option Body
  pub created_at : ℕ
  pub expires_at : ℕ

abbrev pub idempotency_key_ttl_hours : ℕ
idempotency_key_ttl_hours = 24

-- In milliseconds.
abbrev pub idempotency_key_ttl : ℕ
idempotency_key_ttl = idempotency_key_ttl_hours * 60 * 60 * 1000

pub record InsertInProgressParams : Type 0 where
  pub idempotency_key : Text
  pub request_fingerprint : Text

pub record MarkCompletedParams (Body : Type 0) : Type 0 where
  pub id : Uuid
  pub order_id : Option Uuid
  pub response_status : ℕ
  pub response_body : Body

module _ {Body : Type 0} where
  -- Which row the unique index has for a key.
  unfoldable pub find_key :
      Text → List (IdempotencyKeyEntity Body) → Option (IdempotencyKeyEntity Body)
  find_key key [] = none
  find_key key (r ∷ rs) = if text_eq r.idempotency_key key then some r else find_key key rs

  abbrev pub new_row : Uuid → ℕ → InsertInProgressParams → IdempotencyKeyEntity Body
  new_row id now params = record {
    id = id;
    idempotency_key = params.idempotency_key;
    request_fingerprint = params.request_fingerprint;
    state = in_progress;
    order_id = none;
    response_status = none;
    response_body = none;
    created_at = now;
    expires_at = now + idempotency_key_ttl;
  }

  -- The id of the new row and the table; nothing on a unique violation.
  unfoldable pub insert_in_progress :
      (List (IdempotencyKeyEntity Body) → Uuid)
      → ℕ
      → InsertInProgressParams
      → List (IdempotencyKeyEntity Body)
      → Option (Uuid × List (IdempotencyKeyEntity Body))
  unfolding find_key
  insert_in_progress next_id now params rows = elim (find_key params.idempotency_key rows) [
    | some _ ↦ none
    | none ↦ some (next_id rows, new_row (next_id rows) now params ∷ rows)
  ]

  abbrev pub is_active : ℕ → IdempotencyKeyEntity Body → Bool
  is_active now r = ltb now r.expires_at

  abbrev active_or_none :
      ℕ → Option (IdempotencyKeyEntity Body) → Option (IdempotencyKeyEntity Body)
  active_or_none now none = none
  active_or_none now (some r) = if is_active now r then some r else none

  unfoldable pub find_active_by_key :
      ℕ → Text → List (IdempotencyKeyEntity Body) → Option (IdempotencyKeyEntity Body)
  unfolding find_key
  find_active_by_key now key rows = active_or_none now (find_key key rows)

  abbrev pub complete :
      MarkCompletedParams Body → IdempotencyKeyEntity Body → IdempotencyKeyEntity Body
  complete params r = record r {
    state = completed;
    order_id = params.order_id;
    response_status = some params.response_status;
    response_body = some params.response_body;
  }

  unfoldable pub mark_completed :
      MarkCompletedParams Body → List (IdempotencyKeyEntity Body) → List (IdempotencyKeyEntity Body)
  unfolding update_row
  mark_completed params rows =
      update_row (λ (r : IdempotencyKeyEntity Body). r.id) params.id (complete params) rows
