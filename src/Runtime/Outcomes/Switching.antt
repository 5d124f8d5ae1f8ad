-- ===== src/Runtime/Outcomes/Switching.antt =====
-- `switch_runtime` of game-server/src/runtime/engine_worker.rs fails and changes nothing, or makes
-- one transition.
use hack_arena3_0_backend.Runtime.Switch.{enter_sandbox}
use hack_arena3_0_backend.Runtime.State.{forget_pending}
use hack_arena3_0_backend.Runtime.Switch.{enter_kind}
use hack_arena3_0_backend.Common.Action.{and_then}
use hack_arena3_0_backend.Common.{ℕ, ◌≡◌, refl, not, Option, none, some, String, arith, is_blank}
use hack_arena3_0_backend.Runtime.Model.{
  EngineActivityKind, EngineRuntimeTimeOfDayPreset, EngineApi, Ghost, Worker,
}
use hack_arena3_0_backend.Runtime.State.{
  default_ghost_mode_settings, validate_map_id, spawn_step_task, is_unspecified, is_sandbox_active,
  bump, drain_sandbox_engines, insert_sandbox_engine,
}
use hack_arena3_0_backend.Runtime.Switch.{
  current_ghost_mode_settings, switch_to_none, switch_to_official_race, start_sandbox,
  switch_to_sandbox, switch_arm, switch_runtime,
}
use hack_arena3_0_backend.Runtime.Steps.{
  switched, with_task, sandbox_started, sandbox_stopped, preset_changed, scheduled, race_started,
  race_stopped, IsPayload, Step,
}
use hack_arena3_0_backend.Runtime.Steps
use mathlib.Core.Option.{get_or}
use hack_arena3_0_backend.Runtime.Outcomes.{
  Outcome, fails, ends, bind_rule, require_rule, revision_rule, lift_rule, build_rule, Moved,
}

module _ ⦃api : EngineApi⦄ where
  abbrev pub Arm : {A : Type 0} → Worker → A → Worker → Type 0
  Arm v _ w =
      Step v (Steps.with_state bump w) × (w.runtime_state.revision ≡ v.runtime_state.revision)

  switch_to_none-Outcome :
      (map_id : String) (preset : EngineRuntimeTimeOfDayPreset) (v : Worker)
      → Outcome (Arm v) v (switch_to_none map_id preset v)
  unfolding switch_to_none and_then switched drain_sandbox_engines enter_kind
  switch_to_none-Outcome map_id preset v =
      lift_rule _ (validate_map_id map_id) v λ _ _. ends (Steps.to_none map_id preset refl, refl)

  switch_to_official_race-Outcome :
      (map_id : String) (preset : EngineRuntimeTimeOfDayPreset) (ghost : Option Ghost) (v : Worker)
      → Outcome (Arm v) v (switch_to_official_race map_id preset ghost v)
  unfolding switch_to_official_race and_then switched drain_sandbox_engines enter_kind
  switch_to_official_race-Outcome map_id preset ghost v =
      lift_rule _ (validate_map_id map_id) v λ _ _.
        build_rule _ map_id (get_or ghost (current_ghost_mode_settings v.official_engine)) v
          λ slot. ends (Steps.to_official map_id preset slot refl, refl)

  switch_to_sandbox-Outcome :
      (id : Option String) (map_id : String) (preset : EngineRuntimeTimeOfDayPreset)
      (ghost : Option Ghost) (v : Worker)
      → Outcome (Arm v) v (switch_to_sandbox id map_id preset ghost v)
  unfolding switch_to_sandbox start_sandbox and_then spawn_step_task sandbox_started
      insert_sandbox_engine forget_pending enter_sandbox
  switch_to_sandbox-Outcome none map_id preset ghost v = fails _
  switch_to_sandbox-Outcome (some id) map_id preset ghost v =
      require_rule _ (not (is_blank id)) _ v λ filled.
        require_rule _ (not (is_unspecified preset)) _ v λ given.
          lift_rule _ (validate_map_id map_id) v λ _ _.
            require_rule _ (not (is_sandbox_active v.runtime_state id)) _ v λ fresh.
              build_rule _ map_id (get_or ghost default_ghost_mode_settings) v λ slot. ends (
                Steps.start_sandbox id map_id preset slot (ground arith) (ground arith)
                    (ground arith) refl,
                refl,
              )

  switch_arm-Outcome :
      (kind : EngineActivityKind) (map_id : String) (id : Option String)
      (preset : EngineRuntimeTimeOfDayPreset) (ghost : Option Ghost) (v : Worker)
      → Outcome (Arm v) v (switch_arm kind map_id id preset ghost v)
  unfolding switch_arm
  switch_arm-Outcome EngineActivityKind.none map_id id preset ghost v =
      switch_to_none-Outcome map_id preset v
  switch_arm-Outcome EngineActivityKind.official_race map_id id preset ghost v =
      switch_to_official_race-Outcome map_id preset ghost v
  switch_arm-Outcome EngineActivityKind.sandbox map_id id preset ghost v =
      switch_to_sandbox-Outcome id map_id preset ghost v
  switch_arm-Outcome EngineActivityKind.local_race map_id id preset ghost v = fails _

  pub switch_runtime-Outcome :
      (n : ℕ) (kind : EngineActivityKind) (map_id : String) (id : Option String)
      (preset : EngineRuntimeTimeOfDayPreset) (ghost : Option Ghost) (v : Worker)
      → Outcome (Moved n v) v (switch_runtime n kind map_id id preset ghost v)
  unfolding switch_runtime and_then
  switch_runtime-Outcome n kind map_id id preset ghost v = revision_rule _ n v λ n.
      bind_rule (switch_arm-Outcome kind map_id id preset ghost v)
        λ _ w arm. ends (arm.0, refl, n, unfold bump in omega (arith, arm.1))
