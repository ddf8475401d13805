-- ===== src/Auth/UseCases/Accounts.antt =====
-- Accounts: what a registration and a change of password store, and the logins that follow.
pub mod Registration
pub mod Credentials
pub mod Passwords
