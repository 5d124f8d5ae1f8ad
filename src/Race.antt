-- ===== src/Race.antt =====
-- game-server/src/services/race: the pit state that the server keeps for each car.
pub mod PitState
pub mod Tires
pub mod Cooldowns
pub mod PitUpdate
pub mod PitVisits
pub mod PitHistory
pub mod PitStops
pub mod RuntimeStore
pub mod StoreAccess
pub mod CarCounts
pub mod JoinedSandboxes
pub mod CarRemoval
pub mod BotIndices
pub mod StoreTests
pub mod PitTests
