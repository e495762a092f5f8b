-- ===== src/Domain.antt =====
-- The domain layer: src/domain/entities and src/domain/value-objects.
pub mod Status
pub mod Money
pub mod Address
pub mod Order
mod Tests
