-- ===== src/DbServer.antt =====
-- The DB server of fbthrift/exp3/DB/DBServer.cpp.
mod Tests
pub mod Handler
pub mod Addresses
