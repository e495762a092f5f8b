-- ===== src/Http.antt =====
-- src/infrastructure/http: what outbound calls go through.
pub mod Breaker
pub mod Redaction
pub mod Retry
pub mod Problem
pub mod OrderResponse
mod Tests
