-- ===== src/Runtime/Switch.antt =====
-- game-server/src/runtime/engine_worker.rs: `switch_runtime`, one function for each arm of its
-- match on the activity kind.
use hack_arena3_0_backend.Common.Action.{◌>>=◌, ◌>>◌, lift, modify, gets}
use hack_arena3_0_backend.Common.{ℕ, not, [], Option, none, some, String, is_blank}
use hack_arena3_0_backend.Runtime.Model.{
  EngineActivityKind, EngineRuntimeTimeOfDayPreset, EngineApi, Ghost, EngineWorldSlot,
  EngineRuntimeState,
}
use hack_arena3_0_backend.Runtime.State.{
  M, invalid, require, update_state, runtime_state, default_ghost_mode_settings, check_revision,
  bump, is_unspecified, validate_map_id, build_slot, spawn_step_task, drain_sandbox_engines,
  insert_sandbox_engine, upsert_active_sandbox, is_sandbox_active, forget_pending,
}
use mathlib.Core.Option.{get_or}

module _ ⦃api : EngineApi⦄ where
  -- The state after a switch to a runtime with no sandbox.
  unfoldable pub enter_kind :
      EngineActivityKind
      → String
      → EngineRuntimeTimeOfDayPreset
      → EngineRuntimeState
      → EngineRuntimeState
  enter_kind kind map_id preset s = record s {
    activity_kind = kind;
    map_id = map_id;
    active_sandboxes = [];
    time_of_day_preset = preset;
  }

  unfoldable pub switch_to_none : String → EngineRuntimeTimeOfDayPreset → M (Unit {0})
  switch_to_none map_id preset = do
    lift (validate_map_id map_id)
    modify (λ w. record w { official_engine = none })
    modify drain_sandbox_engines
    update_state (enter_kind EngineActivityKind.none map_id preset)

  -- The ghost mode of the official world, if there is one.
  unfoldable pub current_ghost_mode_settings : Option EngineWorldSlot → Ghost
  current_ghost_mode_settings none = default_ghost_mode_settings
  current_ghost_mode_settings (some slot) = slot.ghost_mode_settings

  unfoldable pub switch_to_official_race :
      String → EngineRuntimeTimeOfDayPreset → Option Ghost → M (Unit {0})
  switch_to_official_race map_id preset ghost = do
    lift (validate_map_id map_id)
    current ← gets (λ w. current_ghost_mode_settings w.official_engine)
    slot ← build_slot map_id (get_or ghost current)
    modify (λ w. record w { official_engine = some slot })
    modify drain_sandbox_engines
    update_state (enter_kind EngineActivityKind.official_race map_id preset)

  -- The state after a sandbox was started.
  unfoldable pub enter_sandbox :
      String → String → EngineRuntimeTimeOfDayPreset → EngineRuntimeState → EngineRuntimeState
  enter_sandbox id map_id preset s = record s {
    active_sandboxes = upsert_active_sandbox s.active_sandboxes (record {
      sandbox_id = id;
      map_id = map_id;
      time_of_day_preset = preset;
      weather_now = none;
    });
    activity_kind = EngineActivityKind.sandbox;
    time_of_day_preset = preset;
  }

  unfoldable pub start_sandbox :
      String → String → EngineRuntimeTimeOfDayPreset → Option Ghost → M (Unit {0})
  start_sandbox id map_id preset ghost = do
    slot ← build_slot map_id (get_or ghost default_ghost_mode_settings)
    task ← spawn_step_task
    modify (insert_sandbox_engine id (record { slot = slot; step_task = task }))
    update_state (enter_sandbox id map_id preset)
    update_state (forget_pending id)

  unfoldable pub switch_to_sandbox :
      Option String → String → EngineRuntimeTimeOfDayPreset → Option Ghost → M (Unit {0})
  switch_to_sandbox none map_id preset ghost =
      lift (invalid "sandbox_id is required for sandbox runtime")
  switch_to_sandbox (some id) map_id preset ghost = do
    require (not (is_blank id)) "sandbox_id must be non-empty for sandbox runtime"
    require (not (is_unspecified preset)) "time_of_day_preset must be specified for sandbox runtime"
    lift (validate_map_id map_id)
    active ← gets (λ w. is_sandbox_active w.runtime_state id)
    require (not active) "sandbox_id is already active"
    start_sandbox id map_id preset ghost

  unfoldable pub switch_arm :
      EngineActivityKind
      → String
      → Option String
      → EngineRuntimeTimeOfDayPreset
      → Option Ghost
      → M (Unit {0})
  switch_arm EngineActivityKind.none map_id id preset ghost = switch_to_none map_id preset
  switch_arm EngineActivityKind.official_race map_id id preset ghost =
      switch_to_official_race map_id preset ghost
  switch_arm EngineActivityKind.sandbox map_id id preset ghost =
      switch_to_sandbox id map_id preset ghost
  switch_arm EngineActivityKind.local_race map_id id preset ghost =
      lift (invalid "local race runtime must be activated with ActivateLocalRace")

  unfoldable pub switch_runtime :
      ℕ
      → EngineActivityKind
      → String
      → Option String
      → EngineRuntimeTimeOfDayPreset
      → Option Ghost
      → M EngineRuntimeState
  switch_runtime expected_revision kind map_id id preset ghost = do
    check_revision expected_revision
    switch_arm kind map_id id preset ghost
    update_state bump
    runtime_state
