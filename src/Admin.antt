-- ===== src/Admin.antt =====
-- The administrator's login: internal/adminauth/auth.go.
pub mod Recovery
pub mod Account
pub mod Codes
pub mod Sessions
pub mod Guard
pub mod Lifetime
pub mod Calls
pub mod Revocation
pub mod Credentials
pub mod Entry
