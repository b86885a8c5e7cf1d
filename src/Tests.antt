-- ===== src/Tests.antt =====
-- Concrete configurations and runs, at which the theorems are applied.
mod Balancer
mod Limits
mod Caching
mod Clients
mod Nodes
mod Routes
mod Admins
mod LogRuns
mod Loading
mod Requests
mod Endpoints
mod Registries
mod HeaderRuns
mod SiteRuns
mod Firewall
mod SettingsRuns
mod Encodings
mod BackupRuns
