-- ===== src/Ports.antt =====
-- src/domain/ports: what crosses to the payment provider and back.
use canals.Prelude.{ℕ, Text, Option}
use canals.Errors.{PaymentFailureCode}
use canals.Domain.Status.{PaymentStatus}
use canals.Store.{CardBrand, ChargeKey}

pub record ChargeCommand : Type 0 where
  pub card_number : Text
  pub amount_minor : ℕ
  pub currency : Text
  pub description : Text
  pub idempotency_key : ChargeKey

pub record ChargeResult : Type 0 where
  pub status : PaymentStatus
  pub provider_payment_id : Option Text
  pub card_last4 : Option Text
  pub card_brand : Option CardBrand
  pub failure_code : Option PaymentFailureCode
  pub raw_response : Option Text
