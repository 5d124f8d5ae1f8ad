-- ===== src/Native.antt =====
-- game-engine/boink: the wrapper of the native engine.
pub mod Version
pub mod Compatible
pub mod Tests
