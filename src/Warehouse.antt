-- ===== src/Warehouse.antt =====
-- consumers/warehouse/src/lib.rs: an application of the crate with a schema of its own, which
-- reserves stock in ambient write scopes.
pub mod Items
pub mod Defs
pub mod Setup
pub mod Schema
pub mod Reserve
pub mod Opening
pub mod Success
pub mod Shortage
pub mod Skus
pub mod Tests
