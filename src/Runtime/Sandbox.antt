-- ===== src/Runtime/Sandbox.antt =====
-- game-server/src/runtime/engine_worker.rs: the other operations on sandboxes: deactivation, the
-- time of day, and scheduled activations and deactivations.
use hack_arena3_0_backend.Common.Action.{◌>>=◌, ◌>>◌, lift, modify, gets}
use hack_arena3_0_backend.Common.{
  ℕ, Bool, true, false, not, ◌&&◌, ◌||◌, List, [], ◌∷◌, Option, none, some, String, Result, ok,
  ok_or, if◌then◌else◌, ◌==◌, ◌=ₛ◌, is_blank, length, is_empty, is_some,
}
use hack_arena3_0_backend.Runtime.Model.{
  EngineActivityKind, EngineRuntimeTimeOfDayPreset, EngineApi, EnginePendingSandboxActivation,
  EngineActiveSandboxState, EngineActiveLocalRaceState, EngineRuntimeState, EngineWorkerError,
  Worker,
}
use hack_arena3_0_backend.Runtime.State.{
  M, invalid, require, update_state, runtime_state, check_revision, bump, is_unspecified,
  remove_sandbox_engine, is_sandbox_active, remove_active, forget_pending,
}

module _ ⦃api : EngineApi⦄ where
  unfoldable pub is_sandbox_kind : EngineActivityKind → Bool
  is_sandbox_kind EngineActivityKind.sandbox = true
  is_sandbox_kind _ = false

  -- The last sandbox is gone: the runtime falls back to the local race, if there is one.
  unfoldable pub fall_back :
      Option EngineActiveLocalRaceState → EngineRuntimeState → EngineRuntimeState
  fall_back (some race) s = record s {
    activity_kind = EngineActivityKind.local_race;
    map_id = race.map_id;
    time_of_day_preset = race.time_of_day_preset;
  }
  fall_back none s = record s {
    activity_kind = EngineActivityKind.none;
    time_of_day_preset = EngineRuntimeTimeOfDayPreset.unspecified;
  }

  -- Leaves the sandbox runtime when no sandbox is active.
  unfoldable pub leave_sandbox_runtime : Worker → Worker
  leave_sandbox_runtime w =
      if is_empty w.runtime_state.active_sandboxes && is_sandbox_kind w.runtime_state.activity_kind
      then record w {
        runtime_state = fall_back w.runtime_state.active_local_race w.runtime_state;
        official_engine = none;
      }
      else w

  unfoldable pub deactivate_sandbox : ℕ → String → M EngineRuntimeState
  deactivate_sandbox expected_revision id = do
    check_revision expected_revision
    require (not (is_blank id)) "sandbox_id must be non-empty for deactivation"
    update_state (λ s. record s { active_sandboxes = remove_active id s.active_sandboxes })
    modify (remove_sandbox_engine id)
    update_state (forget_pending id)
    modify leave_sandbox_runtime
    update_state bump
    runtime_state

  -- The sandbox that a request without an id means.
  unfoldable pub sole_sandbox : List EngineActiveSandboxState → Result EngineWorkerError String
  sole_sandbox (entry ∷ []) = ok entry.sandbox_id
  sole_sandbox _ = invalid "sandbox_id is required when multiple sandbox sessions are active"

  unfoldable pub target_sandbox_id : Option String → M String
  target_sandbox_id (some id) = do
    require (not (is_blank id)) "sandbox_id must be non-empty when provided"
    lift (ok id)
  target_sandbox_id none = λ w. (sole_sandbox w.runtime_state.active_sandboxes, w)

  -- `iter_mut().find(..)`, with the preset written.
  unfoldable pub set_preset :
      String
      → EngineRuntimeTimeOfDayPreset
      → List EngineActiveSandboxState
      → List EngineActiveSandboxState
  set_preset id preset [] = []
  set_preset id preset (entry ∷ entries) =
      if entry.sandbox_id =ₛ id
      then record entry { time_of_day_preset = preset } ∷ entries
      else entry ∷ set_preset id preset entries

  unfoldable pub set_runtime_time_of_day :
      ℕ → Option String → EngineRuntimeTimeOfDayPreset → M EngineRuntimeState
  set_runtime_time_of_day expected_revision sandbox_id preset = do
    check_revision expected_revision
    kind ← gets (λ w. w.runtime_state.activity_kind)
    require (is_sandbox_kind kind) "sandbox time-of-day override requires active sandbox runtime"
    require (not (is_unspecified preset)) "time-of-day preset must be specified"
    id ← target_sandbox_id sandbox_id
    active ← gets (λ w. is_sandbox_active w.runtime_state id)
    require active "sandbox_id does not match active sandbox session"
    update_state (λ s. record s {
      active_sandboxes = set_preset id preset s.active_sandboxes;
      time_of_day_preset = preset;
    })
    update_state bump
    runtime_state

  -- What a scheduled activation must carry.
  unfoldable pub check_activation_payload : EnginePendingSandboxActivation → M (Unit {0})
  check_activation_payload pending = do
    active ← gets (λ w. is_sandbox_active w.runtime_state pending.sandbox_id)
    require (not active) "sandbox_id is already active"
    map_id ← lift (
        ok_or pending.map_id
          (EngineWorkerError.invalid_argument "map_id must be set for scheduled activation"))
    require (not (is_blank map_id)) "map_id must be non-empty for scheduled activation"
    preset ← lift (
        ok_or pending.time_of_day_preset (
          EngineWorkerError.invalid_argument
            "time_of_day_preset must be set for scheduled activation"))
    require (not (is_unspecified preset))
        "time_of_day_preset must be specified for scheduled activation"
    require (is_some pending.ghost_mode_settings)
        "ghost_mode_settings must be set for scheduled activation"

  unfoldable pub has_payload : EnginePendingSandboxActivation → Bool
  has_payload pending =
      is_some pending.map_id
      || is_some pending.time_of_day_preset
      || is_some pending.ghost_mode_settings

  unfoldable pub check_pending : EnginePendingSandboxActivation → M (Unit {0})
  check_pending pending =
      if pending.activate
      then check_activation_payload pending
      else require (not (has_payload pending))
          "scheduled deactivation must not include activation payload"

  unfoldable pub upsert_pending :
      EnginePendingSandboxActivation
      → List EnginePendingSandboxActivation
      → List EnginePendingSandboxActivation
  upsert_pending pending [] = pending ∷ []
  upsert_pending pending (entry ∷ entries) =
      if entry.sandbox_id =ₛ pending.sandbox_id
      then pending ∷ entries
      else entry ∷ upsert_pending pending entries

  unfoldable pub set_pending_sandbox_activation :
      ℕ → EnginePendingSandboxActivation → M EngineRuntimeState
  set_pending_sandbox_activation expected_revision pending = do
    check_revision expected_revision
    require (not (is_blank pending.sandbox_id))
        "sandbox_id must be non-empty for pending activation/deactivation"
    check_pending pending
    update_state bump
    update_state (λ s. record s {
      pending_sandbox_activations = upsert_pending pending s.pending_sandbox_activations;
    })
    runtime_state

  unfoldable pub bump_if : Bool → EngineRuntimeState → EngineRuntimeState
  unfolding bump
  bump_if canceled s = if canceled then bump s else s

  unfoldable pub cancel_pending_sandbox_activation : ℕ → String → M (EngineRuntimeState × Bool)
  cancel_pending_sandbox_activation expected_revision id = do
    check_revision expected_revision
    require (not (is_blank id)) "sandbox_id must be non-empty for pending cancellation"
    before_len ← gets (λ w. length w.runtime_state.pending_sandbox_activations)
    update_state (forget_pending id)
    canceled ← gets (λ w. not (length w.runtime_state.pending_sandbox_activations == before_len))
    update_state (bump_if canceled)
    state ← runtime_state
    lift (ok (state, canceled))
