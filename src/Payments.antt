-- ===== src/Payments.antt =====
-- src/infrastructure/payments: the payment provider's adapter.
pub mod Card
pub mod Gateway
mod Tests
