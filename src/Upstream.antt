-- ===== src/Upstream.antt =====
-- internal/proxy/proxy.go and healthcheck.go: the upstream targets, their passive health marks and
-- circuit breakers, the load balancer and the retry policy.
pub mod Target
pub mod Breaker
pub mod Retry
pub mod Backoff
pub mod Pool
pub mod Attempts
pub mod Retrying
pub mod Healthy
pub mod Selection
pub mod Balance
