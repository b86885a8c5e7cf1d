-- ===== src/Sync.antt =====
-- The client with which a follower fetches its configuration: internal/clustersync/client.go.
pub mod Client
pub mod Requests
pub mod Cooldown
pub mod Failover
