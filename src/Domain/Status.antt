-- ===== src/Domain/Status.antt =====
-- src/domain/entities/order-status.transitions.ts and the enums of src/domain/enum-types.
pub mod Graph
use canals.Prelude.{List, [], ◌∷◌, Bool, true, false, ◌||◌, refl, ◌≡◌}

pub data OrderStatus : Type 0 where
  pending_payment paid confirmed payment_failed cancelled : OrderStatus

pub data PaymentStatus : Type 0 where
  pending authorized captured declined failed unknown refunded : PaymentStatus

-- `===` on statuses
abbrev pub same_status : OrderStatus → OrderStatus → Bool
same_status pending_payment pending_payment = true
same_status paid paid = true
same_status confirmed confirmed = true
same_status payment_failed payment_failed = true
same_status cancelled cancelled = true
same_status _ _ = false

-- ORDER_TRANSITIONS
unfoldable pub order_transitions : OrderStatus → List OrderStatus
order_transitions pending_payment = paid ∷ payment_failed ∷ cancelled ∷ []
order_transitions paid = confirmed ∷ []
order_transitions confirmed = []
order_transitions payment_failed = []
order_transitions cancelled = []

includes : List OrderStatus → OrderStatus → Bool
includes [] s = false
includes (t ∷ ts) s = same_status t s || includes ts s

abbrev is_empty : List OrderStatus → Bool
is_empty [] = true
is_empty (_ ∷ _) = false

unfoldable pub is_terminal_order_status : OrderStatus → Bool
unfolding order_transitions
is_terminal_order_status status = is_empty (order_transitions status)

unfoldable pub can_transition_order_status : OrderStatus → OrderStatus → Bool
unfolding order_transitions includes
can_transition_order_status from to = includes (order_transitions from) to
