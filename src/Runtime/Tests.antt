-- ===== src/Runtime/Tests.antt =====
-- Examples on the worker of game-server/src/runtime/engine_worker.rs.
pub mod Toy
pub mod RunsAt
pub mod RoundsAt
