-- ===== src/Messaging.antt =====
-- src/infrastructure/messaging.
pub mod Publisher
