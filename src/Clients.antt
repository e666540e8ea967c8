-- ===== src/Clients.antt =====
-- The clients of the fbthrift experiments.
mod Tests
pub mod Pipeline
pub mod Exp1
pub mod Exp2
pub mod Exp3
pub mod Thrift
