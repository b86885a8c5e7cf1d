-- ===== src/Slots.antt =====
-- The limits on concurrent requests of internal/proxy/proxy.go: one counter for a site, changed by
-- compare-and-swap, and one counter for each client address, changed under a mutex.
pub mod Site
pub mod PerIp
