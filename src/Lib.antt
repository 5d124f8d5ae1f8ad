-- ===== src/Lib.antt =====
-- Verification of the core of HackArena3.0-Backend: the engine worker that owns the simulated
-- worlds, the rules for race schedules and for the weather, the stores of the standalone server,
-- the state of the cars in a race, the cache for file hashes, and the check of the engine's version.
--
-- The server funnels every change of its worlds through one task, the engine worker. It owns the
-- world of the official race, a table of sandbox worlds and a table of local race worlds; each
-- world of a table is stepped by a task of its own. Services send commands. Those that change the
-- runtime carry the revision they expect, and the worker also executes a schedule of sandbox
-- activations and deactivations after each tick and each command.
--
-- * Runtime models game-server/src/runtime/engine_worker.rs and commands.rs. Runtime.Model has the
--   data types and the interface EngineApi of the native engine (game-engine/boink) and of the
--   file system. Runtime.State, Switch, Sandbox, LocalRace and Commands have `switch_runtime`,
--   `deactivate_sandbox`, `set_runtime_time_of_day`, `set_pending_sandbox_activation`,
--   `cancel_pending_sandbox_activation`, `activate_local_race`, `deactivate_local_race`,
--   `bump_revision`, `with_target_slot_mut` and `handle_command` under these names, as actions on
--   the record Worker that may fail. Runtime.Loop has the schedule, `run_worker` and the loops of
--   the step tasks: what the `select!` receives is a list of events in any order, and the turns of
--   the step loops stand among them. Runtime.Steps is the relation of single transitions;
--   Runtime.Outcomes, Trace and Events show that the operations make only such transitions, and
--   Runtime.Invariant what transitions keep. Runtime.Runs, Revisions, Conflicts, Schedule, Rounds,
--   Delays and Targets hold the theorems on runs, revisions, the schedule and targets.
-- * Domain models game-server/src/domain/race_config.rs in RaceConfig, and
--   game-server/src/domain/weather.rs in Weather (lookup, rain and temperature of a window),
--   WeatherDominant and Forecast (validation and forecasts). The loops of the three functions on a
--   window are one function `sweep` that is told what to do at a segment. Windows, WindowSums and
--   WindowWeather relate it to sums over milliseconds, WindowTotals and WindowLeader draw the
--   conclusions; Forecasts, ForecastSlots and Alignment are about schedules and slots.
-- * Local models game-server/src/local/local_race_state.rs: what the source does under one lock is
--   one action, and the clock is an argument; Phases, Moments and Settling are about its phases and
--   times, Participants about who takes part. SandboxConfig and SandboxConfigStore model
--   game-server/src/local/sandbox_config_store, with the file system and the serialiser as the
--   interface FilesApi; SandboxRequests has the map from ids to sandboxes as the abstract view, and
--   SandboxEdits, SandboxHealth, SandboxStore and SandboxReload the theorems.
-- * Race models game-server/src/services/race/runtime_store.rs: PitState the tyre plan and the
--   cooldowns, PitUpdate what follows the vehicle in the engine (in both builds) and the snapshot,
--   RuntimeStore the maps of the cars, the bot indices and the official session, StoreAccess the
--   questions to these maps and the changes of identities and inputs. An operation on
--   the entry of a car is lifted to the map of cars by `at_car`. The fields that only official
--   builds have are always there.
-- * HashCache models libs/hash-cache/src/lib.rs; its interface CacheApi stands for the file system,
--   SHA-256 and the decoding of text.
-- * Native models game-engine/boink/src/native/version.rs; what the library answers is a parameter.
-- * Common has the shared helpers: numbers, integers, lists, text, results, actions and tables.
--
-- Hash maps are association lists in which a key is overwritten where it stands, so that lookups
-- are those of the map; no order of a map is relied on. Revisions and counters are native numbers
-- with the saturation of u64 and u32 written out; times are integers, for which i64 comparisons
-- are exact, and sums of i64 that the source does not check wrap around by `wrap_i64`. `f32` and the types
-- that the build generates from the protocol are parameters. The
-- cargo features of the worker are the field `feature` of EngineApi; the weather of a sandbox,
-- which only local builds have, is always there. Step tasks have numbers for names; the list
-- `running` holds those that were spawned and not aborted. Recursion is on lists, but for the
-- loop of a forecast, which gets one round of fuel more than its window has slots, and that is
-- enough for both presets, and the digits of a u64, of which there are at most 20.
--
-- Not modelled: logging, timing and channels, the synchronisation of worlds with the weather
-- schedules (a call on one engine here), the database, the network services, the handling of
-- submissions and the native engine itself.
pub mod Common
pub mod Native
pub mod Runtime
pub mod Domain
pub mod Local
pub mod Race
pub mod HashCache
