-- ===== src/AsyncIo.antt =====
-- AsyncIO/: the benchmark over bare folly sockets.
pub mod Request
pub mod NetClient
pub mod NetServer
pub mod Loop
mod Tests
