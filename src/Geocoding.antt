-- ===== src/Geocoding.antt =====
-- src/infrastructure/geocoding.
pub mod Normalisation
pub mod Cache
pub mod Static
mod Tests
