-- ===== src/Redfish.antt =====
-- The Redfish simulator (redfish-simulator/).
pub mod Types
pub mod Store
pub mod Handlers
pub mod Power
pub mod Physics
mod Examples
