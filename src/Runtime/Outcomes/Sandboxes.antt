-- ===== src/Runtime/Outcomes/Sandboxes.antt =====
-- The other operations on sandboxes of game-server/src/runtime/engine_worker.rs fail and change
-- nothing, or make one transition.
use hack_arena3_0_backend.Runtime.State.{remove_sandbox_engine}
use hack_arena3_0_backend.Runtime.State.{forget_pending}
use hack_arena3_0_backend.Common.Action.{and_then}
use hack_arena3_0_backend.Common.{
  ℕ, saturating_add, ◌≡◌, refl, Bool, true, false, not, Option, none, some, String, ok_or, arith,
  if◌then◌else◌, is_blank, is_some,
}
use hack_arena3_0_backend.Runtime.Model.{
  EngineRuntimeTimeOfDayPreset, EngineApi, EnginePendingSandboxActivation, Worker,
}
use hack_arena3_0_backend.Runtime.State.{require, is_unspecified, is_sandbox_active, bump}
use hack_arena3_0_backend.Runtime.Sandbox.{
  leave_sandbox_runtime, fall_back, deactivate_sandbox, is_sandbox_kind, sole_sandbox,
  target_sandbox_id, set_runtime_time_of_day, has_payload, check_activation_payload, check_pending,
  set_pending_sandbox_activation,
}
use hack_arena3_0_backend.Runtime.Steps.{
  switched, with_task, sandbox_started, sandbox_stopped, preset_changed, scheduled, race_started,
  race_stopped, IsPayload, Step,
}
use hack_arena3_0_backend.Runtime.Steps
use hack_arena3_0_backend.Runtime.Outcomes.{
  Outcome, ends, bind_rule, require_rule, revision_rule, lift_rule, lift-Outcome, require-Outcome,
  map_Outcome, Moved,
}

module _ ⦃api : EngineApi⦄ where
  left_revision :
      (v : Worker)
      → (bump (leave_sandbox_runtime v).runtime_state).revision
        ≡ saturating_add v.runtime_state.revision 1
  unfolding bump leave_sandbox_runtime fall_back
  left_revision v = ground arith

  pub deactivate_sandbox-Outcome :
      (n : ℕ) (id : String) (v : Worker) → Outcome (Moved n v) v (deactivate_sandbox n id v)
  unfolding deactivate_sandbox and_then sandbox_stopped forget_pending remove_sandbox_engine
  deactivate_sandbox-Outcome n id v = revision_rule _ n v λ e.
      require_rule _ (not (is_blank id)) _ v
        λ _. ends (Steps.stop_sandbox id refl, refl, e, left_revision _)

  target_sandbox_id-Outcome :
      (id : Option String) (v : Worker) → Outcome (λ _ w. w ≡ v) v (target_sandbox_id id v)
  unfolding target_sandbox_id and_then
  target_sandbox_id-Outcome none v = lift-Outcome (sole_sandbox v.runtime_state.active_sandboxes) v
  target_sandbox_id-Outcome (some id) v = require_rule _ (not (is_blank id)) _ v λ _. ends refl

  pub set_runtime_time_of_day-Outcome :
      (n : ℕ) (id : Option String) (preset : EngineRuntimeTimeOfDayPreset) (v : Worker)
      → Outcome (Moved n v) v (set_runtime_time_of_day n id preset v)
  unfolding set_runtime_time_of_day and_then preset_changed
  set_runtime_time_of_day-Outcome n id preset v = revision_rule _ n v λ e.
      require_rule _ (is_sandbox_kind v.runtime_state.activity_kind) _ v λ _.
        require_rule _ (not (is_unspecified preset)) _ v λ given.
          bind_rule (target_sandbox_id-Outcome id v) λ target w same. rw same (
            require_rule _ (is_sandbox_active v.runtime_state target) _ v λ active. ends (
              Steps.change_preset target preset (ground arith) active refl,
              refl,
              e,
              unfold bump in refl,
            ))

  given_fields :
      (p : EnginePendingSandboxActivation) (map_id : String) (preset : EngineRuntimeTimeOfDayPreset)
      → p.map_id ≡ some map_id
      → not (is_blank map_id) ≡ true
      → p.time_of_day_preset ≡ some preset
      → not (is_unspecified preset) ≡ true
      → is_some p.ghost_mode_settings ≡ true
      → Steps.Payload true p
  given_fields p map_id preset m filled t given ghost = ground arith

  check_activation_payload-Outcome :
      (p : EnginePendingSandboxActivation) (v : Worker)
      → Outcome (λ _ w. (w ≡ v) × Steps.Payload true p) v (check_activation_payload p v)
  unfolding check_activation_payload and_then
  check_activation_payload-Outcome p v =
      require_rule _ (not (is_sandbox_active v.runtime_state p.sandbox_id)) _ v λ _.
        lift_rule _ (ok_or p.map_id _) v λ map_id m.
          require_rule _ (not (is_blank map_id)) _ v λ filled.
            lift_rule _ (ok_or p.time_of_day_preset _) v λ preset t.
              require_rule _ (not (is_unspecified preset)) _ v λ given.
                map_Outcome
                  (λ _ _ done. (
                    done.0,
                    given_fields p map_id preset (ground arith) filled (ground arith) given done.1,
                  ))
                  (require-Outcome (is_some p.ghost_mode_settings) _ v)

  check_kind-Outcome :
      (activate : Bool) (message : String) (p : EnginePendingSandboxActivation) (v : Worker)
      → Outcome
          (λ _ w. (w ≡ v) × Steps.Payload activate p)
          v
          ((if activate then check_activation_payload p else require (not (has_payload p)) message)
            v)
  check_kind-Outcome true message p v = check_activation_payload-Outcome p v
  check_kind-Outcome false message p v =
      map_Outcome (λ _ _ done. (done.0, ground arith))
        (require-Outcome (not (has_payload p)) message v)

  check_pending-Outcome :
      (p : EnginePendingSandboxActivation) (v : Worker)
      → Outcome (λ _ w. (w ≡ v) × Steps.Payload p.activate p) v (check_pending p v)
  unfolding check_pending
  check_pending-Outcome p v = check_kind-Outcome p.activate _ p v

  pub set_pending_sandbox_activation-Outcome :
      (n : ℕ) (p : EnginePendingSandboxActivation) (v : Worker)
      → Outcome (Moved n v) v (set_pending_sandbox_activation n p v)
  unfolding set_pending_sandbox_activation and_then scheduled bump
  set_pending_sandbox_activation-Outcome n p v = revision_rule _ n v λ e.
      require_rule _ (not (is_blank p.sandbox_id)) _ v λ filled.
        bind_rule (check_pending-Outcome p v) λ _ w checked.
          rw (checked.0) (ends (Steps.schedule p (ground arith, checked.1) refl, refl, e, refl))
