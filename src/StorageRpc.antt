-- ===== src/StorageRpc.antt =====
-- StorageRpc/: the rate-limited RPC client, its statistics and its commands, and the RPC server.
pub mod Stats
pub mod Echo
pub mod Server
pub mod Send
pub mod Commands
mod Tests
