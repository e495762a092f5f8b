-- ===== src/PaymentsMock.antt =====
-- payments-mock/src.
pub mod Charges
