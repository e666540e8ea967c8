-- ===== src/PutServers.antt =====
-- The servers of fbthrift/exp2: a DB server that passes each put to a leaf server.
mod Tests
pub mod Service
pub mod Leaf
pub mod Db
