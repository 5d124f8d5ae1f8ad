-- ===== src/Runtime/Model.antt =====
-- game-server/src/runtime/engine_worker.rs, commands.rs and game-engine/boink/src/model/ghost.rs:
-- the data of the engine worker, and the operations of the native engine as an interface.
use hack_arena3_0_backend.Common.Dict.{Dict}
use hack_arena3_0_backend.Common.Int.{ℤ}
use hack_arena3_0_backend.Common.{ℕ, Bool, List, Option, String, Result}

pub data EngineActivityKind : Type 0 where
  none official_race local_race sandbox : EngineActivityKind

pub data EngineCommandTarget : Type 0 where
  official_race : EngineCommandTarget
  local_race : String → EngineCommandTarget
  sandbox : String → EngineCommandTarget

pub data EngineRuntimeTimeOfDayPreset : Type 0 where
  unspecified morning noon evening night : EngineRuntimeTimeOfDayPreset

pub data EngineRuntimeWeatherType : Type 0 where
  clear partly_cloudy overcast light_rain medium_rain heavy_rain : EngineRuntimeWeatherType

pub record EngineRuntimeWeatherNow : Type 0 where
  pub weather_type : EngineRuntimeWeatherType
  pub temperature_c : ℤ

-- `f32` is the parameter `F`.
pub record GhostModeSettings (F : Type 0) : Type 0 where
  pub enabled : Bool
  pub enter_speed_max_mps : F
  pub exit_speed_min_mps : F
  pub enter_delay_ms : ℕ
  pub exit_delay_ms : ℕ
  pub until_completed_laps : ℕ
  pub vehicle_overlap_exit_delay_ms : ℕ

pub data TyreType : Type 0 where
  soft hard wet : TyreType

-- The cargo feature that the server is built with.
pub data BuildFeature : Type 0 where
  official standalone local : BuildFeature

-- The native engine behind `boink`, and the file system that holds the tracks. Each call on an
-- engine returns the engine after it, also when it fails.
pub record EngineApi : Type 1 where
  pub F32 : Type 0
  pub f32_zero : F32
  pub Engine : Type 0
  pub BoinkError : Type 0
  pub Controls : Type 0
  pub AcceptedControls : Type 0
  pub VehicleState : Type 0
  pub VehicleRaceMetrics : Type 0
  pub TrackData : Type 0
  pub WeatherParams : Type 0
  pub TrackPath : Type 0
  pub VehicleMesh : Type 0
  pub feature : BuildFeature
  pub resolve_track_glb_path : String → Result String TrackPath
  pub initialize_runtime : Result BoinkError (Unit {0})
  pub load_vehicle_mesh : Result BoinkError VehicleMesh
  pub build : TrackPath → VehicleMesh → Result BoinkError Engine
  pub set_ghost_mode_settings :
      GhostModeSettings F32 → Engine → Result BoinkError (Unit {0}) × Engine
  pub step : Engine → Result BoinkError (Unit {0}) × Engine
  pub should_close_debug : Engine → Bool
  pub apply_weather_from_schedule : Engine → Result BoinkError (Unit {0}) × Engine
  pub set_weather : WeatherParams → Engine → Result BoinkError (Unit {0}) × Engine
  pub spawn_vehicle : Engine → Result BoinkError ℕ × Engine
  pub set_controls : ℕ → Controls → Engine → Result BoinkError AcceptedControls × Engine
  pub read_vehicle_state : ℕ → Engine → Result BoinkError VehicleState × Engine
  pub read_vehicle_race_metrics : ℕ → Engine → Result BoinkError VehicleRaceMetrics × Engine
  pub get_vehicle_dimensions : ℕ → Engine → Result BoinkError (F32 × F32) × Engine
  pub set_vehicle_back_to_track : ℕ → Engine → Result BoinkError (Unit {0}) × Engine
  pub set_vehicle_before_finish_line : ℕ → Engine → Result BoinkError (Unit {0}) × Engine
  pub set_vehicle_random_pos : ℕ → Engine → Result BoinkError (Unit {0}) × Engine
  pub set_vehicle_at_start_pos : ℕ → ℕ → Engine → Result BoinkError (Unit {0}) × Engine
  pub set_vehicle_to_pitstop : ℕ → Engine → Result BoinkError (Unit {0}) × Engine
  pub set_vehicle_tyre_type : ℕ → TyreType → Engine → Result BoinkError (Unit {0}) × Engine
  pub force_set_vehicle_tyre_type : ℕ → TyreType → Engine → Result BoinkError (Unit {0}) × Engine
  pub get_number_of_start_pos : Engine → Result BoinkError ℕ × Engine
  pub track_data : Engine → Result BoinkError TrackData × Engine
  pub race_duration : Engine → Result BoinkError F32 × Engine
  pub despawn_vehicle : ℕ → Engine → Result BoinkError (Unit {0}) × Engine

module _ ⦃api : EngineApi⦄ where
  abbrev pub Ghost : Type 0
  Ghost = GhostModeSettings api.F32

  pub record EnginePendingSandboxActivation : Type 0 where
    pub activate : Bool
    pub sandbox_id : String
    pub execute_at_unix_ms : ℤ
    pub map_id : Option String
    pub time_of_day_preset : Option EngineRuntimeTimeOfDayPreset
    pub ghost_mode_settings : Option Ghost

  pub record EngineActiveSandboxState : Type 0 where
    pub sandbox_id : String
    pub map_id : String
    pub time_of_day_preset : EngineRuntimeTimeOfDayPreset
    pub weather_now : Option EngineRuntimeWeatherNow

  pub record EngineActiveLocalRaceState : Type 0 where
    pub race_id : String
    pub map_id : String
    pub time_of_day_preset : EngineRuntimeTimeOfDayPreset
    pub weather_now : Option EngineRuntimeWeatherNow

  pub record EngineWorldSlot : Type 0 where
    pub engine : api.Engine
    pub ghost_mode_settings : Ghost

  -- `step_task` names the task that steps the world.
  pub record SandboxEngineHandle : Type 0 where
    pub slot : EngineWorldSlot
    pub step_task : ℕ

  pub record EngineRuntimeState : Type 0 where
    pub revision : ℕ
    pub activity_kind : EngineActivityKind
    pub map_id : String
    pub active_local_race : Option EngineActiveLocalRaceState
    pub active_sandboxes : List EngineActiveSandboxState
    pub time_of_day_preset : EngineRuntimeTimeOfDayPreset
    pub pending_sandbox_activations : List EnginePendingSandboxActivation

  pub data EngineWorkerError : Type 0 where
    worker_stopped : EngineWorkerError
    engine : api.BoinkError → EngineWorkerError
    invalid_argument : String → EngineWorkerError
    revision_mismatch : ℕ → ℕ → EngineWorkerError

  -- What `run_worker` owns. `running` holds the step tasks that are spawned and not aborted, and
  -- `next_task` is above all of them.
  pub record Worker : Type 0 where
    pub official_engine : Option EngineWorldSlot
    pub local_race_engines : Dict String SandboxEngineHandle
    pub sandbox_engines : Dict String SandboxEngineHandle
    pub runtime_state : EngineRuntimeState
    pub running : List ℕ
    pub next_task : ℕ
