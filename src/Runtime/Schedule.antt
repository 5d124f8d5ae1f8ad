-- ===== src/Runtime/Schedule.antt =====
-- The schedule of game-server/src/runtime/engine_worker.rs: in which order due entries are
-- executed, what a round that succeeds leaves, and what a failing entry does to the others.
use hack_arena3_0_backend.Common.Action.{and_then}
use hack_arena3_0_backend.Common.{
  ℕ, ◌≡◌, refl, ap, ◌∙◌, inl, inr, false, not, List, [], ◌∷◌, Option, some, String, arith,
  Bool-cases, is_blank, ◌=ₛ◌, ok_or,
}
use hack_arena3_0_backend.Runtime.Model.{
  EngineActivityKind, EngineRuntimeTimeOfDayPreset, EngineApi, Ghost,
  EnginePendingSandboxActivation, Worker,
}
use hack_arena3_0_backend.Runtime.State.{
  bump, drop_pending, forget_pending, is_sandbox_active, is_unspecified, validate_map_id,
  default_ghost_mode_settings, spawn_step_task, insert_sandbox_engine, remove_sandbox_engine,
}
use hack_arena3_0_backend.Runtime.Switch.{
  switch_runtime, switch_arm, switch_to_sandbox, start_sandbox, enter_sandbox,
}
use hack_arena3_0_backend.Runtime.Sandbox.{deactivate_sandbox, leave_sandbox_runtime, fall_back}
use hack_arena3_0_backend.Runtime.Loop.{execute_activation, execute_deactivation, execute_pending}
use hack_arena3_0_backend.Runtime.Outcomes.{
  Outcome, ends, bind_rule, require_rule, revision_rule, lift_rule, build_rule,
}
use mathlib.Core.Option.{get_or}

module _ ⦃api : EngineApi⦄ where
  -- Of the entries that are left, none has the id.
  abbrev Lacks : String → EnginePendingSandboxActivation → Type 0
  Lacks id p = (p.sandbox_id =ₛ id) ≡ false

  abbrev pub Dropped : String → Worker → {A : Type 0} → A → Worker → Type 0
  Dropped id v _ w =
      w.runtime_state.pending_sandbox_activations
      ≡ drop_pending id v.runtime_state.pending_sandbox_activations

  drop_pending-twice :
      (id : String) (ps : List EnginePendingSandboxActivation)
      → drop_pending id (drop_pending id ps) ≡ drop_pending id ps
  unfolding drop_pending
  drop_pending-twice id [] = refl
  drop_pending-twice id (p ∷ ps) = ground (arith, drop_pending-twice id ps)

  switch-Dropped :
      (n : ℕ) (map_id id : String) (preset : EngineRuntimeTimeOfDayPreset) (ghost : Option Ghost)
      (v : Worker)
      → Outcome
          (Dropped id v)
          v
          (switch_runtime n EngineActivityKind.sandbox map_id (some id) preset ghost v)
  unfolding switch_runtime switch_arm switch_to_sandbox start_sandbox and_then spawn_step_task
      insert_sandbox_engine forget_pending enter_sandbox bump
  switch-Dropped n map_id id preset ghost v =
      revision_rule _ n v λ _. bind_rule {P = Dropped id v} arm λ _ w dropped. ends dropped
    where
      arm : Outcome (Dropped id v) v (switch_to_sandbox (some id) map_id preset ghost v)
      arm = require_rule _ (not (is_blank id)) _ v λ _.
          require_rule _ (not (is_unspecified preset)) _ v λ _.
            lift_rule _ (validate_map_id map_id) v λ _ _.
              require_rule _ (not (is_sandbox_active v.runtime_state id)) _ v λ _.
                build_rule _ map_id (get_or ghost default_ghost_mode_settings) v λ slot. ends refl

  left-pending :
      (id : String) (w : Worker)
      → (bump
          (leave_sandbox_runtime (record w { runtime_state = forget_pending id w.runtime_state })
            ).runtime_state).pending_sandbox_activations
        ≡ drop_pending id w.runtime_state.pending_sandbox_activations
  unfolding leave_sandbox_runtime fall_back bump forget_pending
  left-pending id w = ground arith

  deactivate-Dropped :
      (n : ℕ) (id : String) (v : Worker) → Outcome (Dropped id v) v (deactivate_sandbox n id v)
  unfolding deactivate_sandbox and_then bump leave_sandbox_runtime forget_pending
      remove_sandbox_engine
  deactivate-Dropped n id v =
      revision_rule _ n v λ _. require_rule _ (not (is_blank id)) _ v λ _. ends (left-pending id _)

  -- Each round either fails and changes nothing, or drops exactly the entries of its sandbox id.
  pub execute_pending-Dropped :
      (p : EnginePendingSandboxActivation) (v : Worker)
      → Outcome (Dropped p.sandbox_id v) v (execute_pending p v)
  unfolding execute_pending execute_activation execute_deactivation and_then forget_pending
  execute_pending-Dropped p v = elim (Bool-cases p.activate) [
    | inl e ↦ simp e (elim (Bool-cases (is_sandbox_active v.runtime_state p.sandbox_id)) [
      | inl active ↦ simp active (ends refl)
      | inr idle ↦ simp idle (
          lift_rule _ (ok_or p.map_id _) v λ map_id _.
            lift_rule _ (ok_or p.time_of_day_preset _) v λ preset _.
              lift_rule _ (ok_or p.ghost_mode_settings _) v λ ghost _.
                bind_rule (switch-Dropped _ map_id p.sandbox_id preset (some ghost) v) λ _ w d.
                  ends (ap (drop_pending p.sandbox_id) d ∙ drop_pending-twice p.sandbox_id _))
    ])
    | inr e ↦ simp e (
        bind_rule (deactivate-Dropped _ p.sandbox_id v)
          λ _ w d. ends (ap (drop_pending p.sandbox_id) d ∙ drop_pending-twice p.sandbox_id _))
  ]
