-- ===== src/Leaf.antt =====
-- fbthrift/exp3/LEAF: the leaf server, and the asynchronous I/O that it uses.
pub mod Aio
pub mod Server
mod Tests
