-- ===== src/Runtime/Commands.antt =====
-- game-server/src/runtime/engine_worker.rs: `handle_command`.
mod Slots
unfoldable pub use Slots.*
use hack_arena3_0_backend.Common.Action.{Action, ◌>>=◌, ◌>>◌, lift, gets}
use hack_arena3_0_backend.Common.Dict
use hack_arena3_0_backend.Common.Dict.{Dict, string_eq}
use hack_arena3_0_backend.Common.{
  ℕ, Bool, not, List, [], ◌∷◌, Option, none, some, String, Result, ok, err, if◌then◌else◌, ◌=ₛ◌,
  is_blank,
}
use hack_arena3_0_backend.Runtime.Model.{
  EngineActivityKind, EngineCommandTarget, EngineRuntimeTimeOfDayPreset, EngineRuntimeWeatherNow,
  BuildFeature, TyreType, EngineApi, Ghost, EnginePendingSandboxActivation,
  EngineActiveSandboxState, EngineWorldSlot, SandboxEngineHandle, EngineRuntimeState,
  EngineWorkerError, Worker,
}
use hack_arena3_0_backend.Runtime.State.{M, invalid, require, update_state, is_sandbox_active}
use hack_arena3_0_backend.Runtime.Switch.{switch_runtime}
use hack_arena3_0_backend.Runtime.Sandbox.{
  deactivate_sandbox, set_runtime_time_of_day, set_pending_sandbox_activation,
  cancel_pending_sandbox_activation,
}
use hack_arena3_0_backend.Runtime.LocalRace.{
  is_official_kind, is_race, activate_local_race, deactivate_local_race, bump_revision,
}
use mathlib.Core.Option.{get_or}

module _ ⦃api : EngineApi⦄ where
  abbrev pub reply_state : M EngineRuntimeState → M Reply
  reply_state m = do state ← m; lift (ok (Reply.runtime state))

  unfoldable pub handle_command : EngineCommand → M Reply
  handle_command (spawn_car target) = with_target_slot_mut target spawn_op
  handle_command (set_controls target car_id controls) =
      with_target_slot_mut target
        (engine_call Reply.accepted_controls (api.set_controls car_id controls))
  handle_command (read_car_state target car_id) =
      with_target_slot_mut target (engine_call Reply.vehicle_state (api.read_vehicle_state car_id))
  handle_command (read_car_race_metrics target car_id) =
      with_target_slot_mut target
        (engine_call Reply.vehicle_race_metrics (api.read_vehicle_race_metrics car_id))
  handle_command (read_car_dimensions target car_id) =
      with_target_slot_mut target (engine_call Reply.dimensions (api.get_vehicle_dimensions car_id))
  handle_command (set_car_back_to_track target car_id) =
      with_target_slot_mut target (unit_call (api.set_vehicle_back_to_track car_id))
  handle_command (set_car_before_finish_line target car_id) =
      with_target_slot_mut target (unit_call (api.set_vehicle_before_finish_line car_id))
  handle_command (set_car_random_on_track target car_id) =
      with_target_slot_mut target (unit_call (api.set_vehicle_random_pos car_id))
  handle_command (set_car_at_start_pos target car_id position_index) =
      with_target_slot_mut target (unit_call (api.set_vehicle_at_start_pos car_id position_index))
  handle_command (set_car_to_pitstop target car_id) =
      with_target_slot_mut target (unit_call (api.set_vehicle_to_pitstop car_id))
  handle_command (set_car_tyre_type target car_id tyre_type) =
      with_target_slot_mut target (unit_call (api.set_vehicle_tyre_type car_id tyre_type))
  handle_command (force_set_car_tyre_type target car_id tyre_type) =
      with_target_slot_mut target (unit_call (api.force_set_vehicle_tyre_type car_id tyre_type))
  handle_command (get_number_of_start_pos target) =
      with_target_slot_mut target (engine_call Reply.count api.get_number_of_start_pos)
  handle_command (get_track_data target) =
      with_target_slot_mut target (engine_call Reply.tracks api.track_data)
  handle_command (get_race_duration target) =
      with_target_slot_mut target (engine_call Reply.seconds api.race_duration)
  handle_command get_runtime_state = gets (λ w. Reply.runtime w.runtime_state)
  handle_command (switches_runtime expected kind map_id id preset ghost) = do
    current ← gets (λ w. w.runtime_state.time_of_day_preset)
    reply_state (switch_runtime expected kind map_id id (get_or preset current) ghost)
  handle_command (sets_runtime_time_of_day expected id preset) =
      reply_state (set_runtime_time_of_day expected id preset)
  handle_command (sets_pending_sandbox_activation expected pending) =
      reply_state (set_pending_sandbox_activation expected pending)
  handle_command (cancels_pending_sandbox_activation expected id) = do
    result ← cancel_pending_sandbox_activation expected id
    lift (ok (Reply.canceled result))
  handle_command (deactivates_sandbox expected id) = reply_state (deactivate_sandbox expected id)
  handle_command (activates_local_race expected race_id map_id preset ghost) =
      reply_state (activate_local_race expected race_id map_id preset ghost)
  handle_command (deactivates_local_race expected race_id) =
      reply_state (deactivate_local_race expected race_id)
  handle_command (bumps_revision expected) = reply_state (bump_revision expected)
  handle_command (set_ghost_mode_settings target settings) =
      with_target_slot_mut target (ghost_op settings)
  handle_command (set_weather id weather now) = apply_weather id weather now
  handle_command (despawn_car target car_id) =
      with_target_slot_mut target (unit_call (api.despawn_vehicle car_id))
