-- ===== src/Orders.antt =====
-- src/application/orders.
pub mod Settlement
pub mod Create
pub mod Idempotency
pub mod Reads
mod Tests
