-- ===== src/Domain/Tests.antt =====
-- Calls of the domain's methods on concrete values.
use canals.Prelude.{◌^◌, ◌≡◌, refl, codes, [], ◌∷◌, none, some, ◌⊎◌, ◌↔◌}
use canals.Prelude.Int.{pos}
use canals.Errors.{ok, err, not_an_amount}
use canals.Prelude.Double.{whole}
use canals.Domain.Status.{pending_payment, confirmed, paid}
use canals.Domain.Status.Graph.{Reaches, Reaches-iff}
use canals.Domain.Money.{Money, usd, add, multiply}
use canals.Domain.Money.Laws.{cents}
use canals.Domain.Order.{Order}
use canals.Domain.Order.Laws.{Method, paid_m, confirm_m, calls, IsStamped, calls-lawful}
use canals.Samples.{sample_address}

Reaches-iff_example : Reaches pending_payment confirmed ↔ (
    (pending_payment ≡ confirmed)
    ⊎ ((pending_payment ≡ pending_payment) ⊎ ((pending_payment ≡ paid) × (confirmed ≡ confirmed))))
Reaches-iff_example = Reaches-iff pending_payment confirmed

sum_rounded : add (cents 9007199254740992 usd) (cents 1 usd) ≡ ok (cents 9007199254740992 usd)
unfolding add canals.Domain.Money.is_currency
sum_rounded = refl

product_refused : multiply (cents 2500 usd) (whole (pos (2 ^ 1020))) ≡ err not_an_amount
unfolding multiply
product_refused = refl

abbrev waiting : Order
waiting = record {
  id = 100;
  order_number = codes "CNL-2026-000001";
  customer_id = 9;
  warehouse_id = some 1;
  status = pending_payment;
  total = cents 5000 usd;
  shipping_address = sample_address;
  shipping_location = record { latitude = pos 52010000; longitude = pos 4360000 };
  reservation_expires_at = none;
  confirmed_at = none;
  cancelled_at = none;
  cancellation_reason = none;
  created_at = 10;
  updated_at = 10;
}

abbrev done : Order
done = record waiting { status = confirmed; confirmed_at = some 77 }

calls-lawful_example : Reaches pending_payment confirmed × IsStamped done
unfolding calls canals.Domain.Order.Laws.call canals.Domain.Order.mark_paid
    canals.Domain.Order.confirm
calls-lawful_example =
    calls-lawful (paid_m ∷ confirm_m 77 ∷ []) waiting done
      (record { confirmation = refl; cancellation = refl; reason = refl }) refl
