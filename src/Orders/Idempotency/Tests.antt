-- ===== src/Orders/Idempotency/Tests.antt =====
-- The idempotent creation of an order over the saga on the sample database, and its fingerprints.
use canals.Prelude.{
  ℕ, ◌≡◌, refl, ◌≤◌, ◌+◌, Text, codes, text_eq, [], ◌∷◌, none, some, Bool, true, false, ltb, arith,
}
use canals.Store.{Database}
use canals.Samples.{sample_address}
use canals.Orders.Create.Phases
use canals.Orders.Tests.{willing, shop, empty_database, two_lamps}
use canals.Orders.Idempotency.{find_key}
use canals.Orders.Idempotency.Fingerprint.{
  Json, string, number, object, no_fields, field, compute_request_fingerprint,
}
use canals.Orders.Idempotency.Fingerprint.Sorting.{
  IsReordered, fields, swap, fingerprint-IsReordered,
}
use canals.Orders.Idempotency.Service.{
  CreateOrderDto, CreateOrderIdempotentParams, IdempotentServices, Keys, execute, sent, returns,
  begin_idempotent_request,
}
use canals.Orders.Idempotency.Service.Table.{begin_claim, view, begin_idempotent_request_lem}
use canals.Orders.Idempotency.Service.Replay.{execute-replay}
use canals.Orders.Idempotency.Service.Steps.{
  Server, count, pending_count, arrive, IsReached, start, arrives, runs_at_most_once,
}

abbrev first_code : Text → ℕ
first_code [] = 0
first_code (c ∷ cs) = c

-- Names are told apart by their first letters.
abbrev less_text : Text → Text → Bool
less_text a b = ltb (first_code a) (first_code b)

less_text_trans :
    (a b c : Text) → less_text a b ≡ true → less_text b c ≡ true → less_text a c ≡ true
less_text_trans a b c h k = ground arith

abbrev print_json : Json → Text
print_json (string t) = t
print_json (object (field name value rest)) = name
print_json _ = []

abbrev body : Json
body = object (field (codes "customerId") (number 9) (field (codes "items") (number 2) no_fields))

abbrev body_again : Json
body_again =
    object (field (codes "items") (number 2) (field (codes "customerId") (number 9) no_fields))

body-IsReordered : IsReordered less_text body_again body
body-IsReordered = fields (swap (codes "customerId") (codes "items") refl refl)

fingerprint-IsReordered_example :
    compute_request_fingerprint less_text print_json (λ t. t) body_again
    ≡ compute_request_fingerprint less_text print_json (λ t. t) body
fingerprint-IsReordered_example =
    fingerprint-IsReordered less_text less_text_trans print_json (λ t. t) body-IsReordered

abbrev services : IdempotentServices (Database × ℕ)
services = record {
  create_order = λ command s. Phases.execute willing command shop s;
  next_id = λ keys. 1;
  is_uuid = λ t. true;
  less = less_text;
  stringify = print_json;
  sha256 = λ t. t;
  print_id = λ id. id ∷ [];
  geocoding_message = λ reason. [];
  kilometers_of = λ n. n;
  miles_of = λ n. n;
}

abbrev dto_of : Json → CreateOrderDto
dto_of json = record {
  customer_id = 9;
  shipping_address = sample_address;
  items = two_lamps;
  payment = record { card_number = codes "4242424242424242" };
  json = json;
}

abbrev request : Json → CreateOrderIdempotentParams
request json = record {
  idempotency_key = some (codes "key");
  dto = dto_of json;
  instance_path = codes "/orders";
}

abbrev no_keys : Keys
no_keys = []

no_key : find_key (codes "key") no_keys ≡ none
unfolding find_key
no_key = refl

execute-replay_example :
    execute services 2000 (codes "b") (request body) (
      (execute services 1000 (codes "a") (request body_again) (no_keys, (empty_database, 500))).1.0,
      (empty_database, 501),
    )
    ≡ (
      returns (
          sent services
            (codes "/orders")
            (codes "a")
            (execute services 1000
              (codes "a")
              (request body_again)
              (no_keys, (empty_database, 500))).0),
      (
        (execute services 1000
            (codes "a")
            (request body_again)
            (no_keys, (empty_database, 500))).1.0,
        (empty_database, 501),
      ),
    )
execute-replay_example =
    execute-replay services 1000 2000 (codes "a") (codes "b") (codes "key") (request body_again)
      (request body) no_keys (empty_database, 500) (empty_database, 501) less_text_trans
      (refl, refl) refl refl body-IsReordered no_key (omega arith)

begin_idempotent_request_lem_example :
    ((begin_idempotent_request services 1000 (codes "key") (codes "f") no_keys).0
      ≡ (begin_claim 1 (codes "f") (view 1000 (codes "key") no_keys)).0)
    × (view 1000
          (codes "key")
          (begin_idempotent_request services 1000 (codes "key") (codes "f") no_keys).1
        ≡ (begin_claim 1 (codes "f") (view 1000 (codes "key") no_keys)).1)
    × (text_eq (codes "key") (codes "other") ≡ false
        → view 1000
            (codes "other")
            (begin_idempotent_request services 1000 (codes "key") (codes "f") no_keys).1
          ≡ view 1000 (codes "other") no_keys)
begin_idempotent_request_lem_example =
    begin_idempotent_request_lem services 1000 (codes "key") (codes "f") (codes "other") no_keys

abbrev idle_server : Server (Database × ℕ)
idle_server = record { keys = []; saga = (empty_database, 500); pending = []; runs = [] }

abbrev busy_server : Server (Database × ℕ)
busy_server =
    arrive services 2000 (codes "b") (request body)
      (arrive services 1000 (codes "a") (request body) idle_server)

busy-IsReached : IsReached services busy_server
busy-IsReached =
    arrives 2000 (codes "b") (request body)
      (arrives 1000 (codes "a") (request body) (start (empty_database, 500)))

runs_at_most_once_example :
    (count (codes "key") busy_server.runs + pending_count (codes "key") busy_server.pending ≤ 1)
    × (find_key (codes "key") busy_server.keys ≡ none
        → count (codes "key") busy_server.runs + pending_count (codes "key") busy_server.pending
          ≡ 0)
runs_at_most_once_example = runs_at_most_once services (codes "key") busy_server busy-IsReached
