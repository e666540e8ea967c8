-- ===== src/Wangle.antt =====
-- The message service of wangle/.
mod Tests
pub mod Codec
pub mod Dispatcher
pub mod Client
