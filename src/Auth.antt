-- ===== src/Auth.antt =====
-- The auth module, auth/.
pub mod Email
pub mod Errors
pub mod Account
pub mod Session
pub mod Hasher
pub mod Database
pub mod Repositories
pub mod UseCases
pub mod Reactions
pub mod Statuses
pub mod Migrations
pub mod Tokens
pub mod Controller
mod Tests
