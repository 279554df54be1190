-- ===== src/Client.antt =====
-- client.go: the client's worker, which batches events, sends payloads and retries them.
pub mod Retry
pub mod Totals
pub mod Producer
pub mod Default
pub mod Worker
pub mod Posts
pub mod Lifecycle
