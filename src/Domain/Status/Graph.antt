-- ===== src/Domain/Status/Graph.antt =====
-- What the transition table allows over a whole life of an order.
use canals.Prelude.{◌≡◌, refl, subst, ◌⊎◌, ◌≢◌, ◌↔◌, inl, inr, true, false, arith}
use canals.Domain.Status.{
  OrderStatus, pending_payment, paid, confirmed, payment_failed, cancelled,
  is_terminal_order_status, can_transition_order_status,
}

-- The statuses that an order passes through, each change allowed by the table.
pub data Reaches (s : OrderStatus) : OrderStatus → Type 0 where
  here : Reaches s s
  step : {t u : OrderStatus} → Reaches s t → can_transition_order_status t u ≡ true → Reaches s u

pub Reaches-trans : {s t u : OrderStatus} → Reaches s t → Reaches t u → Reaches s u
Reaches-trans r here = r
Reaches-trans r (step q e) = step (Reaches-trans r q) e

terminal_stuck :
    (s t : OrderStatus)
    → is_terminal_order_status s ≡ true
    → can_transition_order_status s t ≡ false
unfolding is_terminal_order_status can_transition_order_status
terminal_stuck s t h = ground arith

-- A terminal status is never left.
pub terminal_absorbs : {s t : OrderStatus} → is_terminal_order_status s ≡ true → Reaches s t → t ≡ s
terminal_absorbs h here = refl
terminal_absorbs {s} h (step {t} {u} r e) =
    let same = terminal_absorbs h r in let stuck = terminal_stuck t u (rw same h) in cc

-- CONFIRMED is entered only from PAID, and PAID only from PENDING_PAYMENT.
pub transition_sources :
    (s t : OrderStatus)
    → can_transition_order_status s t ≡ true
    → (t ≡ confirmed → s ≡ paid) × (t ≢ confirmed → s ≡ pending_payment) × (t ≢ pending_payment)
unfolding can_transition_order_status
transition_sources s t h = ground arith

abbrev Below : OrderStatus → OrderStatus → Type 0
Below s t = (s ≡ t) ⊎ ((s ≡ pending_payment) ⊎ ((s ≡ paid) × (t ≡ confirmed)))

Below-step : (s m t : OrderStatus) → Below s m → can_transition_order_status m t ≡ true → Below s t
unfolding can_transition_order_status
Below-step s m t h e = ground arith

Reaches-Below : {s t : OrderStatus} → Reaches s t → Below s t
Reaches-Below here = inl refl
Reaches-Below {s} (step {t} {u} r e) = Below-step s t u (Reaches-Below r) e

pending-Reaches : (t : OrderStatus) → Reaches pending_payment t
unfolding can_transition_order_status
pending-Reaches pending_payment = here
pending-Reaches paid = step here refl
pending-Reaches confirmed = step {t = paid} (step here refl) refl
pending-Reaches payment_failed = step here refl
pending-Reaches cancelled = step here refl

paid-Reaches-confirmed : Reaches paid confirmed
unfolding can_transition_order_status
paid-Reaches-confirmed = step here refl

Below-Reaches : (s t : OrderStatus) → Below s t → Reaches s t
Below-Reaches s t (inl p) = subst (λ x. Reaches s x) p here
Below-Reaches s t (inr (inl p)) = rw p (pending-Reaches t)
Below-Reaches s t (inr (inr (p, q))) = rw (p, q) paid-Reaches-confirmed

-- One status reaches another exactly when they are equal, the first is PENDING_PAYMENT, or they are
-- PAID and CONFIRMED.
pub Reaches-iff :
    (s t : OrderStatus)
    → Reaches s t ↔ ((s ≡ t) ⊎ ((s ≡ pending_payment) ⊎ ((s ≡ paid) × (t ≡ confirmed))))
Reaches-iff s t = (Reaches-Below, Below-Reaches s t)
