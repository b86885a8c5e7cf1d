-- ===== src/Pipeline.antt =====
-- The way of a request through `Router.ServeHTTP` of internal/proxy/proxy.go.
pub mod Guards
pub mod Admission
pub mod Headers
pub mod Forwarded
pub mod Stats
pub mod Compression
pub mod CacheKey
pub mod Ranking
pub mod Negotiated
