-- ===== src/Orders/Idempotency/Service/Replay.antt =====
-- create-order-idempotent.service.ts: what a repeated request is answered.
use canals.Prelude.{
  ℕ, ◌+◌, ◌<◌, ◌≡◌, refl, sym, ap, ◌∙◌, Text, text_eq, text_eq_refl, List, [], ◌∷◌, Option, none,
  some, Bool, true, false, ltb, ltb→lt, lt→ltb, ◌==◌, if◌then◌else◌, arith, not, Bool-cases,
  Option-cases, inl, inr,
}
use canals.Errors.{Uuid, Result, ok, err}
use canals.Orders.Create.{CreateOrderResult}
use canals.Orders.Idempotency.{
  insert_in_progress, find_active_by_key, mark_completed, find_key, new_row, idempotency_key_ttl,
}
use canals.Orders.Idempotency.Service.{
  CreateOrderDto, CreateOrderIdempotentParams, CreateOrderIdempotentResult, returns, Keys,
  IdempotentServices, begin_idempotent_request, resolve_existing, execute, run_and_record,
  record_outcome, sent, fingerprint_of, command_of, check_key, after_begin, replayed_request,
  new_request,
}
use canals.Orders.Idempotency.Service.Table.{answered, view}
use canals.Orders.Idempotency.Fingerprint.Sorting.{IsReordered, fingerprint-IsReordered}

module _ {Saga : Type 0} (services : IdempotentServices Saga) where
  -- The header is a UUID.
  abbrev pub IsKey : Text → Type 0
  IsKey key = (text_eq key [] ≡ false) × (services.is_uuid key ≡ true)

  check_key-IsKey :
      (key : Text) (given : Option Text)
      → IsKey key
      → given ≡ some key
      → check_key services.is_uuid given ≡ returns key
  check_key-IsKey key given valid same = rw (same, valid.0, valid.1) refl

  execute-IsKey :
      (now : ℕ) (cid key : Text) (params : CreateOrderIdempotentParams) (keys : Keys) (saga : Saga)
      → check_key services.is_uuid params.idempotency_key ≡ returns key
      → execute services now cid params (keys, saga)
        ≡ after_begin services params.instance_path cid key params.dto saga
            (begin_idempotent_request services now key (fingerprint_of services params.dto) keys)
  unfolding execute
  execute-IsKey now cid key params keys saga checked = rw (execute, checked) refl

  begin-new :
      (now : ℕ) (key fingerprint : Text) (keys : Keys)
      → find_key key keys ≡ none
      → begin_idempotent_request services now key fingerprint keys ≡ (
        returns (new_request (services.next_id keys)),
        new_row
              (services.next_id keys)
              now
              (record { idempotency_key = key; request_fingerprint = fingerprint })
            ∷ keys,
      )
  unfolding begin_idempotent_request insert_in_progress
  begin-new now key fingerprint keys absent = rw (begin_idempotent_request, absent) refl

  -- A first request runs the saga, with its row in the table.
  pub execute-new :
      (now : ℕ) (cid key : Text) (params : CreateOrderIdempotentParams) (keys : Keys) (saga : Saga)
      → IsKey key
      → params.idempotency_key ≡ some key
      → find_key key keys ≡ none
      → execute services now cid params (keys, saga)
        ≡ run_and_record services params.instance_path cid (services.next_id keys) key params.dto (
          new_row (services.next_id keys) now (record {
            idempotency_key = key;
            request_fingerprint = fingerprint_of services params.dto;
          })
              ∷ keys,
          saga,
        )
  execute-new now cid key params keys saga valid given absent =
      execute-IsKey now cid key params keys saga
        (check_key-IsKey key params.idempotency_key valid given)
      ∙ rw (begin-new now key (fingerprint_of services params.dto) keys absent) refl

  -- Once its row is completed, the key's claim is what the client was sent.
  pub view-record_outcome :
      (now now' : ℕ) (inst cid key : Text) (dto : CreateOrderDto) (id : Uuid)
      (result : Result CreateOrderResult) (keys : Keys)
      → now' < now + idempotency_key_ttl
      → view now' key
          (record_outcome services inst cid id result (
            new_row id now
              (record { idempotency_key = key; request_fingerprint = fingerprint_of services dto })
            ∷ keys)).1
        ≡ answered (fingerprint_of services dto) (
            sent services inst cid
              (record_outcome services inst cid id result (
                new_row id now (record {
                  idempotency_key = key;
                  request_fingerprint = fingerprint_of services dto;
                })
                ∷ keys)).0)
  unfolding view record_outcome sent find_key mark_completed canals.Prelude.Rows.update_row
  view-record_outcome now now' inst cid key dto id (ok result) keys h =
      ground (arith, text_eq_refl key)
  view-record_outcome now now' inst cid key dto id (err e) keys h = ground (arith, text_eq_refl key)

  begin-answered :
      (now : ℕ) (key fingerprint : Text) (keys : Keys) (answer : CreateOrderIdempotentResult)
      → view now key keys ≡ answered fingerprint answer
      → begin_idempotent_request services now key fingerprint keys
        ≡ (returns (replayed_request answer), keys)
  unfolding begin_idempotent_request insert_in_progress find_active_by_key view resolve_existing
  begin-answered now key fingerprint keys answer claim = ground (arith, text_eq_refl fingerprint)

  -- A request whose key has its answer is sent that answer, and changes nothing.
  pub execute-answered :
      (now : ℕ) (cid key : Text) (params : CreateOrderIdempotentParams) (keys : Keys) (saga : Saga)
      (answer : CreateOrderIdempotentResult)
      → IsKey key
      → params.idempotency_key ≡ some key
      → view now key keys ≡ answered (fingerprint_of services params.dto) answer
      → execute services now cid params (keys, saga) ≡ (returns answer, (keys, saga))
  execute-answered now cid key params keys saga answer valid given claim =
      execute-IsKey now cid key params keys saga
        (check_key-IsKey key params.idempotency_key valid given)
      ∙ rw (begin-answered now key (fingerprint_of services params.dto) keys answer claim) refl

  -- A first request with a key leaves the claim that its client was sent.
  view-execute :
      (now now' : ℕ) (cid key : Text) (params : CreateOrderIdempotentParams) (keys : Keys)
      (saga : Saga)
      → IsKey key
      → params.idempotency_key ≡ some key
      → find_key key keys ≡ none
      → now' < now + idempotency_key_ttl
      → view now' key (execute services now cid params (keys, saga)).1.0
        ≡ answered (fingerprint_of services params.dto) (
            sent services params.instance_path cid (execute services now cid params (keys, saga)).0)
  unfolding run_and_record
  view-execute now now' cid key params keys saga valid given absent soon =
      rw (execute-new now cid key params keys saga valid given absent) (
        view-record_outcome now now' params.instance_path cid key params.dto (services.next_id keys)
          (services.create_order (command_of services key params.dto) saga).0 keys soon)

  -- A request with a new key is made, and within 24 hours another with the same key, whose body
  -- differs at most in the order of its objects' fields; `localeCompare` is transitive. The second
  -- is answered, with status and body, as the first was, success or error, with the first one's path
  -- and correlation id; it runs no saga, and changes neither the table nor any other state.
  pub execute-replay :
      (now now' : ℕ) (cid cid' key : Text) (params again : CreateOrderIdempotentParams)
      (keys : Keys) (saga saga' : Saga)
      → ((a b c : Text)
          → services.less a b ≡ true
          → services.less b c ≡ true
          → services.less a c ≡ true)
      → IsKey key
      → params.idempotency_key ≡ some key
      → again.idempotency_key ≡ some key
      → IsReordered services.less params.dto.json again.dto.json
      → find_key key keys ≡ none
      → now' < now + idempotency_key_ttl
      → execute services now' cid' again ((execute services now cid params (keys, saga)).1.0, saga')
        ≡ (
          returns (
              sent services params.instance_path cid
                (execute services now cid params (keys, saga)).0),
          ((execute services now cid params (keys, saga)).1.0, saga'),
        )
  execute-replay now now' cid cid' key params again keys saga saga' less_trans valid given given'
        alike absent soon =
      execute-answered now' cid' key again (execute services now cid params (keys, saga)).1.0 saga'
        (sent services params.instance_path cid (execute services now cid params (keys, saga)).0)
        valid given'
        (view-execute now now' cid key params keys saga valid given absent soon
          ∙ ap
              (λ f. answered f (
                sent services params.instance_path cid
                  (execute services now cid params (keys, saga)).0))
              (fingerprint-IsReordered services.less less_trans services.stringify services.sha256
                alike))
