-- ===== src/Payments/Tests.antt =====
-- The gateway against a provider that always answers with an approved charge.
use canals.Prelude.{ℕ, codes, [], ◌∷◌, none, some, arith, ◌+◌}
use canals.Store.{ChargeKey}
use canals.Http.Breaker.{new}
use canals.Payments.Gateway.{text_value, answered, Outside, get_charge, run_attempts, get_status}
use canals.Payments.Gateway.Status.{Warrants, attempt_of, IsDecisive, get_status-Warrants}

abbrev approving : Outside ℕ
approving = record {
  fetch = λ request n. (
    answered (record {
      http_status = 200;
      body = some ((codes "status", text_value (codes "approved")) ∷ []);
    }),
    n + 1,
  );
  now = λ n. n;
  sleep = λ cap n. n + cap;
}

abbrev first_key : ChargeKey
first_key = record { order_id = 100; attempt = 1 }

get_status-Warrants_example :
    (k : ℕ) × IsDecisive approving 3 200
      (get_charge first_key)
      (new 5 30000, 0)
      (run_attempts approving 3 200 (get_charge first_key) (new 5 30000, 0)).0
      k
    × Warrants
        (attempt_of approving 3 200 (get_charge first_key) (new 5 30000, 0) k)
        (get_status approving (λ b. none) 3 200 first_key (new 5 30000, 0)).0.status
get_status-Warrants_example =
    get_status-Warrants approving (λ b. none) 3 200 first_key (new 5 30000, 0) (omega arith)
