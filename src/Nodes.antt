-- ===== src/Nodes.antt =====
-- The registry of the nodes of a cluster: internal/node/store.go.
pub mod Sorting
pub mod Store
pub mod Registry
