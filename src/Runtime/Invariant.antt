-- ===== src/Runtime/Invariant.antt =====
-- What holds of the worker of game-server/src/runtime/engine_worker.rs in every run: the names of
-- the keys and ids of its tables, and one child for each invariant.
pub mod Tables
pub mod Kinds
pub mod Entries
pub mod Tasks
