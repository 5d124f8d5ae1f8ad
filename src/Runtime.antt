-- ===== src/Runtime.antt =====
-- game-server/src/runtime: the task that owns the simulation worlds.
pub mod Model
pub mod State
pub mod Switch
pub mod Sandbox
pub mod LocalRace
pub mod Commands
pub mod Loop
pub mod Steps
pub mod Outcomes
pub mod Trace
pub mod Events
pub mod Names
pub mod Counts
pub mod Invariant
pub mod Runs
pub mod Revisions
pub mod Conflicts
pub mod Schedule
pub mod Rounds
pub mod Delays
pub mod Targets
pub mod Tests
