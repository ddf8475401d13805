-- ===== src/Maintenance.antt =====
-- The maintenance module, maintenance/.
pub mod Request
pub mod Dynamo
pub mod Repository
pub mod UseCases
pub mod Tests
pub mod Access
pub mod Relay
