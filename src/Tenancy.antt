-- ===== src/Tenancy.antt =====
-- The tenancy module, tenancy/.
pub mod Errors
pub mod Handover
pub mod Invitation
pub mod Lease
pub mod Database
pub mod Repositories
pub mod Readiness
pub mod UseCases
pub mod Relay
pub mod Tests
pub mod Statuses
pub mod Listing
pub mod Migrations
pub mod Controller
