-- ===== src/Allocation.antt =====
-- src/application/allocation.
pub mod Inventory
pub mod Allocate
mod Tests
