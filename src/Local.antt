-- ===== src/Local.antt =====
-- game-server/src/local: the state of the standalone local race, and the store of local sandboxes.
pub mod RaceState
pub mod Moments
pub mod Phases
pub mod Settling
pub mod Participants
pub mod SandboxConfig
pub mod SandboxConfigStore
pub mod SandboxRequests
pub mod SandboxHealth
pub mod SandboxEdits
pub mod SandboxStore
pub mod SandboxReload
pub mod SandboxTests
pub mod Tests
