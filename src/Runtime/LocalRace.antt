-- ===== src/Runtime/LocalRace.antt =====
-- game-server/src/runtime/engine_worker.rs: starting and stopping the local race, and the bare
-- revision bump.
use hack_arena3_0_backend.Common.Action.{◌>>=◌, ◌>>◌, lift, modify, gets}
use hack_arena3_0_backend.Common.{
  ℕ, Bool, true, false, not, ◌&&◌, Option, none, some, String, if◌then◌else◌, ◌=ₛ◌, is_blank,
  is_empty, is_some,
}
use hack_arena3_0_backend.Runtime.Model.{
  EngineActivityKind, EngineRuntimeTimeOfDayPreset, EngineApi, Ghost, EngineActiveLocalRaceState,
  EngineRuntimeState,
}
use hack_arena3_0_backend.Runtime.State.{
  M, require, update_state, runtime_state, default_ghost_mode_settings, check_revision, bump,
  is_unspecified, validate_map_id, build_slot, spawn_step_task, insert_local_race_engine,
  remove_local_race_engine,
}
use mathlib.Core.Option.{get_or}

module _ ⦃api : EngineApi⦄ where
  unfoldable pub is_official_kind : EngineActivityKind → Bool
  is_official_kind EngineActivityKind.official_race = true
  is_official_kind _ = false

  unfoldable pub is_local_race_kind : EngineActivityKind → Bool
  is_local_race_kind EngineActivityKind.local_race = true
  is_local_race_kind _ = false

  -- The race becomes the runtime's activity unless sandboxes or the official race have it.
  unfoldable pub enter_local_race :
      String → String → EngineRuntimeTimeOfDayPreset → EngineRuntimeState → EngineRuntimeState
  enter_local_race race_id map_id preset s =
      let race : Option EngineActiveLocalRaceState = some (record {
        race_id = race_id;
        map_id = map_id;
        time_of_day_preset = preset;
        weather_now = none;
      }) in
      if is_empty s.active_sandboxes && not (is_official_kind s.activity_kind)
      then record s {
        active_local_race = race;
        activity_kind = EngineActivityKind.local_race;
        map_id = map_id;
        time_of_day_preset = preset;
      }
      else record s { active_local_race = race }

  unfoldable pub activate_local_race :
      ℕ → String → String → EngineRuntimeTimeOfDayPreset → Option Ghost → M EngineRuntimeState
  activate_local_race expected_revision race_id map_id preset ghost = do
    check_revision expected_revision
    require (not (is_blank race_id)) "race_id must be non-empty"
    active ← gets (λ w. is_some w.runtime_state.active_local_race)
    require (not active) "local race is already active"
    require (not (is_unspecified preset)) "time_of_day_preset must be specified for local race"
    lift (validate_map_id map_id)
    slot ← build_slot map_id (get_or ghost default_ghost_mode_settings)
    task ← spawn_step_task
    modify (insert_local_race_engine race_id (record { slot = slot; step_task = task }))
    update_state (enter_local_race race_id map_id preset)
    update_state bump
    runtime_state

  unfoldable pub is_race : String → Option EngineActiveLocalRaceState → Bool
  is_race race_id none = false
  is_race race_id (some race) = race.race_id =ₛ race_id

  unfoldable pub leave_local_race : EngineRuntimeState → EngineRuntimeState
  leave_local_race s =
      if is_empty s.active_sandboxes && is_local_race_kind s.activity_kind
      then record s {
        activity_kind = EngineActivityKind.none;
        time_of_day_preset = EngineRuntimeTimeOfDayPreset.unspecified;
      }
      else s

  unfoldable pub deactivate_local_race : ℕ → String → M EngineRuntimeState
  deactivate_local_race expected_revision race_id = do
    check_revision expected_revision
    matches ← gets (λ w. is_race race_id w.runtime_state.active_local_race)
    require matches "race_id does not match active local race session"
    update_state (λ s. record s { active_local_race = none })
    modify (remove_local_race_engine race_id)
    update_state leave_local_race
    update_state bump
    runtime_state

  unfoldable pub bump_revision : ℕ → M EngineRuntimeState
  bump_revision expected_revision = do
    check_revision expected_revision
    update_state bump
    runtime_state
