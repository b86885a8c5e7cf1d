-- ===== src/Sites.antt =====
-- The sites of internal/site/site.go: their configuration, how it is normalised and checked, the
-- store that keeps them (internal/store/store.go) and what internal/proxy/proxy.go makes of them.
pub mod Config
pub mod Normalize
pub mod Checks
pub mod Limits
pub mod Rules
pub mod Validate
pub mod Transport
pub mod Tokens
pub mod Pools
pub mod Compile
pub mod Compiled
pub mod Lists
pub mod Usable
pub mod Accepted
pub mod Registration
pub mod Store
pub mod Stored
pub mod Separate
pub mod Calls
