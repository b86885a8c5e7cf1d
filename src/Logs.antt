-- ===== src/Logs.antt =====
-- The access log: internal/proxy/log_store.go. Instants are nanoseconds.
pub mod Store
pub mod Flush
pub mod Retention
pub mod Durable
pub mod History
pub mod Answers
