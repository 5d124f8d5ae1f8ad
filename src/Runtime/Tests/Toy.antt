-- ===== src/Runtime/Tests/Toy.antt =====
-- A toy engine, and runs of the worker of game-server/src/runtime/engine_worker.rs on it.
use hack_arena3_0_backend.Common.Action.{and_then}
use hack_arena3_0_backend.Common.Dict
use hack_arena3_0_backend.Common.Dict.{string_eq, Dict}
use hack_arena3_0_backend.Common.Int.{pos}
use hack_arena3_0_backend.Common.{
  ℕ, suc, ◌&&◌, ◌≡◌, refl, true, false, List, [], ◌∷◌, none, some, String, ok, err, is_some,
  is_blank, is_whitespace, is_ascii_alphanumeric,
}
use hack_arena3_0_backend.Runtime.Model.{
  EngineActivityKind, EngineCommandTarget, EngineRuntimeTimeOfDayPreset, EngineApi, BuildFeature,
  EnginePendingSandboxActivation, EngineWorldSlot, Worker,
}
use hack_arena3_0_backend.Runtime.State.{
  require, check_revision, bump, validate_map_id, is_map_id_code, build_engine, build_slot,
  spawn_step_task, abort, abort_entry, abort_all, insert_sandbox_engine, insert_local_race_engine,
  drain_sandbox_engines, upsert_active_sandbox, drop_pending, forget_pending, is_sandbox_active,
  is_active_in, is_unspecified, default_ghost_mode_settings,
}
use hack_arena3_0_backend.Runtime.Switch.{
  switch_runtime, switch_arm, switch_to_sandbox, start_sandbox, enter_sandbox,
}
use hack_arena3_0_backend.Runtime.Sandbox.{
  check_pending, check_activation_payload, has_payload, upsert_pending,
  set_pending_sandbox_activation,
}
use hack_arena3_0_backend.Runtime.LocalRace.{
  is_official_kind, enter_local_race, activate_local_race,
}
use hack_arena3_0_backend.Runtime.Commands.{
  EngineCommand, Reply, handle_command, put_sandbox_slot, put_local_slot,
}
use hack_arena3_0_backend.Runtime.Loop.{
  due_entries, insert_by_time, sort_by_time, execute_activation, execute_deactivation,
  execute_pending, execute_all, maybe_execute_due_pending_sandbox_activation, step_slot,
  weather_slot, on_official_race, closes, tick_official, Turn, turn_slot, Event, turn_handle, stop,
  goes_on, breaks, tick, on_event, init, continue, run,
}
use hack_arena3_0_backend.Runtime.Events.{worker_of}
use hack_arena3_0_backend.Runtime.Targets.{world, may_use}

-- An engine that counts its steps.
instance abbrev pub toy_api : EngineApi
toy_api = record {
  F32 = ℕ;
  f32_zero = 0;
  Engine = ℕ;
  BoinkError = String;
  Controls = ℕ;
  AcceptedControls = ℕ;
  VehicleState = ℕ;
  VehicleRaceMetrics = ℕ;
  TrackData = ℕ;
  WeatherParams = ℕ;
  TrackPath = String;
  VehicleMesh = ℕ;
  feature = BuildFeature.official;
  resolve_track_glb_path = λ map_id. ok map_id;
  initialize_runtime = ok tt;
  load_vehicle_mesh = ok 0;
  build = λ track mesh. ok 0;
  set_ghost_mode_settings = λ ghost e. (ok tt, e);
  step = λ e. (ok tt, suc e);
  should_close_debug = λ e. false;
  apply_weather_from_schedule = λ e. (ok tt, e);
  set_weather = λ weather e. (ok tt, e);
  spawn_vehicle = λ e. (ok 7, e);
  set_controls = λ car controls e. (ok controls, e);
  read_vehicle_state = λ car e. (ok car, e);
  read_vehicle_race_metrics = λ car e. (ok car, e);
  get_vehicle_dimensions = λ car e. (ok (1, 2), e);
  set_vehicle_back_to_track = λ car e. (ok tt, e);
  set_vehicle_before_finish_line = λ car e. (ok tt, e);
  set_vehicle_random_pos = λ car e. (ok tt, e);
  set_vehicle_at_start_pos = λ car position e. (ok tt, e);
  set_vehicle_to_pitstop = λ car e. (ok tt, e);
  set_vehicle_tyre_type = λ car tyre e. (ok tt, e);
  force_set_vehicle_tyre_type = λ car tyre e. (ok tt, e);
  get_number_of_start_pos = λ e. (ok 4, e);
  track_data = λ e. (ok e, e);
  race_duration = λ e. (ok e, e);
  despawn_vehicle = λ car e. (err "no such vehicle", e);
}

abbrev pub start_s1 : EngineCommand
start_s1 =
    EngineCommand.switches_runtime 0 EngineActivityKind.sandbox "map1" (some "s1")
      (some EngineRuntimeTimeOfDayPreset.noon) none

abbrev pub events : List Event
events =
    Event.command (pos 5) start_s1
    ∷ Event.sandbox_turn "s1" Turn.ticker_turn
    ∷ Event.command (pos 6)
        (EngineCommand.activates_local_race 1 "r1" "map1" EngineRuntimeTimeOfDayPreset.night none)
    ∷ Event.ticker (pos 7)
    ∷ []

abbrev pub after : Worker
after = worker_of (run events init)

-- The same run with the shutdown signal behind it.
abbrev pub ending : List Event
ending = Event.command (pos 5) start_s1 ∷ Event.shutdown ∷ []

abbrev pub stopped : Worker
stopped = worker_of (run ending init)

-- An activation that waits for its time, on a map that can be built or on one that cannot.
abbrev pub activation : String → EnginePendingSandboxActivation
activation map_id = record {
  activate = true;
  sandbox_id = "s2";
  execute_at_unix_ms = pos 8;
  map_id = some map_id;
  time_of_day_preset = some EngineRuntimeTimeOfDayPreset.morning;
  ghost_mode_settings = some default_ghost_mode_settings;
}

abbrev pub scheduling : String → List Event
scheduling map_id =
    Event.command (pos 1) (EngineCommand.sets_pending_sandbox_activation 0 (activation map_id)) ∷ []

abbrev pub waiting : String → Worker
waiting map_id = worker_of (run (scheduling map_id) init)

abbrev pub started : Worker
started = (handle_command start_s1 init).1

abbrev pub executed : Worker
executed = (maybe_execute_due_pending_sandbox_activation (pos 9) (waiting "map1")).1

abbrev pub two_entries : List EnginePendingSandboxActivation
two_entries = activation "map1" ∷ record (activation "map2") { execute_at_unix_ms = pos 3 } ∷ []

abbrev pub fresh_slot : EngineWorldSlot
fresh_slot = record { engine = 0; ghost_mode_settings = default_ghost_mode_settings }

-- What the code computes on these: the runs, a revision, a reply.
pub runs_computed :
    (run events init ≡ goes_on after)
    × (run ending init ≡ breaks stopped)
    × (run (scheduling "map1") init ≡ goes_on (waiting "map1"))
    × (after.runtime_state.revision ≡ 2)
    × (handle_command start_s1 init ≡ (ok (Reply.runtime started.runtime_state), started))
    × (started.runtime_state.revision ≡ 1)
unfolding run continue stop on_event tick closes turn_handle turn_slot tick_official
    on_official_race step_slot weather_slot maybe_execute_due_pending_sandbox_activation execute_all
    execute_pending execute_activation execute_deactivation sort_by_time insert_by_time due_entries
    handle_command and_then require activate_local_race enter_local_race check_revision bump
    Dict.get Dict.insert Dict.remove switch_runtime switch_arm switch_to_sandbox start_sandbox
    build_slot build_engine validate_map_id is_map_id_code is_blank is_whitespace
    is_ascii_alphanumeric spawn_step_task insert_sandbox_engine insert_local_race_engine abort_entry
    abort enter_sandbox upsert_active_sandbox forget_pending drop_pending is_sandbox_active
    is_active_in is_unspecified default_ghost_mode_settings is_official_kind
    set_pending_sandbox_activation check_pending check_activation_payload upsert_pending has_payload
    drain_sandbox_engines abort_all put_sandbox_slot put_local_slot init world may_use
runs_computed = (refl, refl, refl, refl, refl, refl)

-- And a round, the entries of another, and the worlds that targets name.
pub rounds_computed :
    (maybe_execute_due_pending_sandbox_activation (pos 9) (waiting "map1") ≡ (ok tt, executed))
    × (sort_by_time
          (due_entries (pos 9) (waiting "no map").runtime_state.pending_sandbox_activations)
        ≡ activation "no map" ∷ [])
    × (is_sandbox_active (waiting "no map").runtime_state "s2" ≡ false)
    × (world (EngineCommandTarget.sandbox "s1") started ≡ some fresh_slot)
    × ((may_use (EngineCommandTarget.sandbox "s9") started
          && is_some (world (EngineCommandTarget.sandbox "s9") started))
        ≡ false)
unfolding run continue stop on_event tick closes turn_handle turn_slot tick_official
    on_official_race step_slot weather_slot maybe_execute_due_pending_sandbox_activation execute_all
    execute_pending execute_activation execute_deactivation sort_by_time insert_by_time due_entries
    handle_command and_then require activate_local_race enter_local_race check_revision bump
    Dict.get Dict.insert Dict.remove switch_runtime switch_arm switch_to_sandbox start_sandbox
    build_slot build_engine validate_map_id is_map_id_code is_blank is_whitespace
    is_ascii_alphanumeric spawn_step_task insert_sandbox_engine insert_local_race_engine abort_entry
    abort enter_sandbox upsert_active_sandbox forget_pending drop_pending is_sandbox_active
    is_active_in is_unspecified default_ghost_mode_settings is_official_kind
    set_pending_sandbox_activation check_pending check_activation_payload upsert_pending has_payload
    drain_sandbox_engines abort_all put_sandbox_slot put_local_slot init world may_use
rounds_computed = (refl, refl, refl, refl, refl)
