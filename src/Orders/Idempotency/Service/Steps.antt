-- ===== src/Orders/Idempotency/Service/Steps.antt =====
-- create-order-idempotent.service.ts: requests that overlap. Between the insertion of its row and the
-- end of its saga a request is pending, and others may begin or end; `elsewhere` is whatever else
-- changes the saga's state.
use canals.Prelude.{
  ℕ, ◌+◌, ◌≤◌, ◌≡◌, refl, sym, ap, ◌∙◌, Text, text_eq, text_eq_iff, List, [], ◌∷◌, Option, none,
  some, true, is_some, if◌then◌else◌, arith,
}
use mathlib.Core.Option
use canals.Errors.{Uuid, Result, ok, err}
use canals.Orders.Create.{CreateOrderResult}
use canals.Orders.Idempotency.{insert_in_progress, find_key}
use canals.Orders.Idempotency.Service.{
  CreateOrderDto, CreateOrderIdempotentParams, Outcome, throws, returns, Begun, new_request, Keys,
  IdempotentServices, begin_idempotent_request, run_and_record, record_outcome, fingerprint_of,
  command_of, check_key,
}
use canals.Orders.Idempotency.Service.Table.{find_key-mark_completed}

-- A request between its `beginIdempotentRequest` and its `runAndRecord`.
pub record Pending : Type 0 where
  pub id : Uuid
  pub key : Text
  pub dto : CreateOrderDto
  pub instance_path : Text
  pub correlation_id : Text

-- `runs` has the key of every run of the saga.
pub record Server (Saga : Type 0) : Type 0 where
  pub keys : Keys
  pub saga : Saga
  pub pending : List Pending
  pub runs : List Text

abbrev pub count : Text → List Text → ℕ
count key [] = 0
count key (k ∷ ks) = (if text_eq k key then 1 else 0) + count key ks

abbrev pub pending_count : Text → List Pending → ℕ
pending_count key [] = 0
pending_count key (p ∷ ps) = (if text_eq p.key key then 1 else 0) + pending_count key ps

-- Which request is taken, what remains, and all of them.
pub data IsPicked : Pending → List Pending → List Pending → Type 0 where
  here : {p : Pending} {ps : List Pending} → IsPicked p ps (p ∷ ps)
  later :
      {p q : Pending} {rest ps : List Pending} → IsPicked p rest ps → IsPicked p (q ∷ rest) (q ∷ ps)

pick-count :
    (key : Text) {p : Pending} {rest ps : List Pending}
    → IsPicked p rest ps
    → pending_count key ps ≡ (if text_eq p.key key then 1 else 0) + pending_count key rest
pick-count key here = refl
pick-count key (later h) = omega (arith, pick-count key h)

is_some-map : {A : Type 0} (f : A → A) (o : Option A) → is_some (Option.map f o) ≡ is_some o
is_some-map f none = refl
is_some-map f (some a) = refl

find_key_same :
    (key other : Text) (keys : Keys)
    → text_eq key other ≡ true
    → find_key other keys ≡ find_key key keys
find_key_same key other keys h = ap (λ k. find_key k keys) (sym ((text_eq_iff key other).0 h))

module _ {Saga : Type 0} (services : IdempotentServices Saga) where
  abbrev pending_of : Uuid → Text → Text → CreateOrderIdempotentParams → Pending
  pending_of id key cid params = record {
    id = id;
    key = key;
    dto = params.dto;
    instance_path = params.instance_path;
    correlation_id = cid;
  }

  abbrev entered :
      Text → Text → CreateOrderIdempotentParams → Server Saga → Outcome Begun × Keys → Server Saga
  entered key cid params s (returns (new_request id), keys) = record s {
    keys = keys;
    pending = pending_of id key cid params ∷ s.pending;
  }
  entered key cid params s (_, keys) = record s { keys = keys }

  -- `execute`, up to the saga.
  unfoldable pub arrive : ℕ → Text → CreateOrderIdempotentParams → Server Saga → Server Saga
  arrive now cid params s = elim (check_key services.is_uuid params.idempotency_key) [
    | throws e ↦ s
    | returns key ↦
        entered key cid params s
          (begin_idempotent_request services now key (fingerprint_of services params.dto) s.keys)
  ]

  -- `runAndRecord` of one pending request.
  unfoldable pub finish : Pending → List Pending → Server Saga → Server Saga
  finish p rest s =
      let (outcome, (keys, saga)) =
        run_and_record services p.instance_path p.correlation_id p.id p.key p.dto
          (s.keys, s.saga) in
      record { keys = keys; saga = saga; pending = rest; runs = p.key ∷ s.runs }

  pub data IsReached : Server Saga → Type 0 where
    start : (saga : Saga) → IsReached (record { keys = []; saga = saga; pending = []; runs = [] })
    arrives :
        {s : Server Saga} (now : ℕ) (cid : Text) (params : CreateOrderIdempotentParams)
        → IsReached s
        → IsReached (arrive now cid params s)
    finishes :
        {s : Server Saga} {p : Pending} {rest : List Pending}
        → IsPicked p rest s.pending
        → IsReached s
        → IsReached (finish p rest s)
    elsewhere : {s : Server Saga} (saga : Saga) → IsReached s → IsReached (record s { saga = saga })

  -- A key's runs and pending requests, and whether it has a row.
  abbrev IsCounted : Text → Server Saga → Type 0
  IsCounted key s =
      count key s.runs + pending_count key s.pending
      ≤ (if is_some (find_key key s.keys) then 1 else 0)

  begin-count :
      (now : ℕ) (cid key other fingerprint : Text) (params : CreateOrderIdempotentParams)
      (s : Server Saga)
      → IsCounted other s
      → IsCounted other
          (entered key cid params s (begin_idempotent_request services now key fingerprint s.keys))
  unfolding begin_idempotent_request insert_in_progress find_key
  begin-count now cid key other fingerprint params s h =
      ground (arith, find_key_same key other s.keys)

  arrive-count :
      (key : Text) (now : ℕ) (cid : Text) (params : CreateOrderIdempotentParams) (s : Server Saga)
      → IsCounted key s
      → IsCounted key (arrive now cid params s)
  unfolding arrive
  arrive-count key now cid params s h =
      elim (check_key services.is_uuid params.idempotency_key)
          as (λ o.
            check_key services.is_uuid params.idempotency_key ≡ o
            → IsCounted key (arrive now cid params s)) [
              | throws e ↦ λ checked. rw (arrive, checked) h
              | returns k ↦ λ checked.
                  rw (arrive, checked)
                    (begin-count now cid k key (fingerprint_of services params.dto) params s h)
            ]
        refl

  keeps_row :
      (key : Text) (p : Pending) (result : Result CreateOrderResult) (keys : Keys)
      → is_some (
          find_key key
            (record_outcome services p.instance_path p.correlation_id p.id result keys).1)
        ≡ is_some (find_key key keys)
  unfolding record_outcome
  keeps_row key p (ok r) keys =
      ap is_some (find_key-mark_completed key _ keys) ∙ is_some-map _ (find_key key keys)
  keeps_row key p (err e) keys =
      ap is_some (find_key-mark_completed key _ keys) ∙ is_some-map _ (find_key key keys)

  finish-count :
      (key : Text) (p : Pending) (rest : List Pending) (s : Server Saga)
      → IsPicked p rest s.pending
      → IsCounted key s
      → IsCounted key (finish p rest s)
  unfolding finish run_and_record
  finish-count key p rest s picked h =
      rw (keeps_row key p (services.create_order (command_of services p.key p.dto) s.saga).0 s.keys)
        (omega (arith, pick-count key picked, h))

  counted : (key : Text) {s : Server Saga} → IsReached s → IsCounted key s
  unfolding find_key
  counted key (start saga) = omega arith
  counted key (arrives {s} now cid params r) = arrive-count key now cid params s (counted key r)
  counted key (finishes {s} {p} {rest} picked r) = finish-count key p rest s picked (counted key r)
  counted key (elsewhere saga r) = counted key r

  -- However requests overlap, a key's saga is run at most once, and not while another request with
  -- that key is pending; a key without a row has neither run nor pending request.
  pub runs_at_most_once :
      (key : Text) (s : Server Saga)
      → IsReached s
      → (count key s.runs + pending_count key s.pending ≤ 1)
        × (find_key key s.keys ≡ none → count key s.runs + pending_count key s.pending ≡ 0)
  runs_at_most_once key s r = ground (arith, counted key r)
