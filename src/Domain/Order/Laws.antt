-- ===== src/Domain/Order/Laws.antt =====
-- The named methods are the only way to change a status, and they follow the transition table.
use canals.Prelude.{ℕ, ◌≡◌, subst, Text, is_some, arith, List, [], ◌∷◌, true}
use canals.Errors.{Result, ok, ◌>>=◌, >>=-eq-ok, ok-injective}
use canals.Domain.Status.{
  OrderStatus, paid, confirmed, payment_failed, cancelled, can_transition_order_status, same_status,
}
use canals.Domain.Status.Graph.{Reaches, here, step, Reaches-trans}
use canals.Domain.Order.{Order, mark_paid, mark_payment_failed, confirm, cancel}

-- A call of one of the four methods.
pub data Method : Type 0 where
  paid_m failed_m : Method
  confirm_m : ℕ → Method
  cancel_m : ℕ → Text → Method

abbrev pub target : Method → OrderStatus
target paid_m = paid
target failed_m = payment_failed
target (confirm_m _) = confirmed
target (cancel_m _ _) = cancelled

unfoldable pub call : Method → Order → Result Order
call paid_m o = mark_paid o
call failed_m o = mark_payment_failed o
call (confirm_m now) o = confirm now o
call (cancel_m now reason) o = cancel now reason o

call-status :
    (c : Method) (o o' : Order)
    → call c o ≡ ok o'
    → (can_transition_order_status o.status (target c) ≡ true) × (o'.status ≡ target c)
unfolding call mark_paid mark_payment_failed confirm cancel
call-status paid_m o o' h = ground arith
call-status failed_m o o' h = ground arith
call-status (confirm_m now) o o' h = ground arith
call-status (cancel_m now reason) o o' h = ground arith

-- A sequence of calls, stopped by the first that throws.
unfoldable pub calls : List Method → Order → Result Order
calls [] o = ok o
calls (c ∷ cs) o = call c o >>= calls cs

calls-Reaches : (cs : List Method) (o o' : Order) → calls cs o ≡ ok o' → Reaches o.status o'.status
unfolding calls
calls-Reaches [] o o' h = subst (λ (x : Order). Reaches o.status x.status) (ok-injective h) here
calls-Reaches (c ∷ cs) o o' h =
    let (m, first, rest) = >>=-eq-ok (call c o) (calls cs) h in
    let (allowed, same) = call-status c o m first in
    Reaches-trans (step here (rw same allowed)) (calls-Reaches cs m o' rest)

-- The fields that a transition stamps agree with the status.
pub record IsStamped (o : Order) : Type 0 where
  pub confirmation : same_status o.status confirmed ≡ is_some o.confirmed_at
  pub cancellation : same_status o.status cancelled ≡ is_some o.cancelled_at
  pub reason : same_status o.status cancelled ≡ is_some o.cancellation_reason

call-IsStamped : (c : Method) (o o' : Order) → IsStamped o → call c o ≡ ok o' → IsStamped o'
unfolding call mark_paid mark_payment_failed confirm cancel can_transition_order_status
call-IsStamped paid_m o o' v h = ground arith
call-IsStamped failed_m o o' v h = ground arith
call-IsStamped (confirm_m now) o o' v h = ground arith
call-IsStamped (cancel_m now why) o o' v h = ground arith

calls-IsStamped :
    (cs : List Method) (o o' : Order) → IsStamped o → calls cs o ≡ ok o' → IsStamped o'
unfolding calls
calls-IsStamped [] o o' v h = subst (λ (x : Order). IsStamped x) (ok-injective h) v
calls-IsStamped (c ∷ cs) o o' v h =
    let (m, first, rest) = >>=-eq-ok (call c o) (calls cs) h in
    calls-IsStamped cs m o' (call-IsStamped c o m v first) rest

-- Whatever methods are called on an order, in whatever order, its status moves along the transition
-- table, and the stamps (confirmedAt, cancelledAt, cancellationReason) stand exactly where the
-- status is CONFIRMED or CANCELLED, if they did so at first.
pub calls-lawful :
    (cs : List Method) (o o' : Order)
    → IsStamped o
    → calls cs o ≡ ok o'
    → Reaches o.status o'.status × IsStamped o'
calls-lawful cs o o' v h = (calls-Reaches cs o o' h, calls-IsStamped cs o o' v h)
