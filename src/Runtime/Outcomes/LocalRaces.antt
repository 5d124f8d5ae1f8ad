-- ===== src/Runtime/Outcomes/LocalRaces.antt =====
-- The operations on the local race of game-server/src/runtime/engine_worker.rs fail and change
-- nothing, or make one transition.
use hack_arena3_0_backend.Runtime.State.{remove_local_race_engine}
use hack_arena3_0_backend.Runtime.State.{insert_local_race_engine}
use hack_arena3_0_backend.Common.Action.{and_then}
use hack_arena3_0_backend.Common.{
  ℕ, ◌≡◌, saturating_add, refl, not, Option, String, arith, is_blank, is_some,
}
use hack_arena3_0_backend.Runtime.Model.{
  EngineRuntimeTimeOfDayPreset, EngineApi, EngineRuntimeState, Ghost, Worker,
}
use hack_arena3_0_backend.Runtime.State.{
  bump, default_ghost_mode_settings, validate_map_id, spawn_step_task, is_unspecified,
}
use hack_arena3_0_backend.Runtime.LocalRace.{
  is_race, enter_local_race, leave_local_race, activate_local_race, deactivate_local_race,
  bump_revision,
}
use hack_arena3_0_backend.Runtime.Steps.{
  switched, with_task, sandbox_started, sandbox_stopped, preset_changed, scheduled, race_started,
  race_stopped, IsPayload, Step,
}
use hack_arena3_0_backend.Runtime.Steps
use mathlib.Core.Option.{get_or}
use hack_arena3_0_backend.Runtime.Outcomes.{
  Outcome, ends, require_rule, revision_rule, lift_rule, build_rule, Moved,
}

module _ ⦃api : EngineApi⦄ where
  started_revision :
      (race_id map_id : String) (preset : EngineRuntimeTimeOfDayPreset) (s : EngineRuntimeState)
      → (bump (enter_local_race race_id map_id preset s)).revision ≡ saturating_add s.revision 1
  unfolding bump enter_local_race
  started_revision race_id map_id preset s = ground arith

  stopped_revision :
      (s : EngineRuntimeState) → (bump (leave_local_race s)).revision ≡ saturating_add s.revision 1
  unfolding bump leave_local_race
  stopped_revision s = ground arith

  pub activate_local_race-Outcome :
      (n : ℕ) (race_id map_id : String) (preset : EngineRuntimeTimeOfDayPreset)
      (ghost : Option Ghost) (v : Worker)
      → Outcome (Moved n v) v (activate_local_race n race_id map_id preset ghost v)
  unfolding activate_local_race and_then spawn_step_task race_started insert_local_race_engine
  activate_local_race-Outcome n race_id map_id preset ghost v = revision_rule _ n v λ e.
      require_rule _ (not (is_blank race_id)) _ v λ filled.
        require_rule _ (not (is_some v.runtime_state.active_local_race)) _ v λ idle.
          require_rule _ (not (is_unspecified preset)) _ v λ given.
            lift_rule _ (validate_map_id map_id) v λ _ _.
              build_rule _ map_id (get_or ghost default_ghost_mode_settings) v λ slot. ends (
                Steps.start_race race_id map_id preset slot (ground arith) (ground arith)
                    (ground arith) refl,
                refl,
                e,
                started_revision race_id map_id preset v.runtime_state,
              )

  pub deactivate_local_race-Outcome :
      (n : ℕ) (race_id : String) (v : Worker)
      → Outcome (Moved n v) v (deactivate_local_race n race_id v)
  unfolding deactivate_local_race and_then race_stopped remove_local_race_engine
  deactivate_local_race-Outcome n race_id v = revision_rule _ n v λ e.
      require_rule _ (is_race race_id v.runtime_state.active_local_race) _ v
        λ matches. ends (Steps.stop_race race_id matches refl, refl, e, stopped_revision _)

  pub bump_revision-Outcome : (n : ℕ) (v : Worker) → Outcome (Moved n v) v (bump_revision n v)
  unfolding bump_revision and_then
  bump_revision-Outcome n v =
      revision_rule _ n v λ e. ends (Steps.bump_state refl, refl, e, unfold bump in refl)
