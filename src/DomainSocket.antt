-- ===== src/DomainSocket.antt =====
-- The programs of fbthrift/domain-socket.
mod Tests
pub mod Benchmark
pub mod Socket
pub mod Session
