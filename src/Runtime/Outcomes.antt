-- ===== src/Runtime/Outcomes.antt =====
-- The form of the operations of game-server/src/runtime/engine_worker.rs: one that fails leaves the
-- worker as it was. A rule for each kind of guard, and the worlds that are built.
pub mod Switching
pub mod Sandboxes
pub mod LocalRaces
use hack_arena3_0_backend.Common.Action.{Action, and_then}
use hack_arena3_0_backend.Common.{
  ℕ, saturating_add, ◌≡◌, refl, sym, ap, ◌⊎◌, inl, inr, Bool, true, false, not, List, [], ◌∷◌,
  Option, none, some, String, Result, ok, err, map_err, ok_or, arith, if◌then◌else◌, ◌==◌, ==_iff,
  Bool-cases, Option-cases, is_blank, is_some,
}
use hack_arena3_0_backend.Runtime.Model.{
  EngineActivityKind, EngineRuntimeTimeOfDayPreset, EngineApi, Ghost,
  EnginePendingSandboxActivation, EngineWorldSlot, EngineRuntimeState, EngineWorkerError, Worker,
}
use hack_arena3_0_backend.Runtime.State.{
  M, require, check_revision, default_ghost_mode_settings, validate_map_id, build_engine,
  build_slot, spawn_step_task, is_unspecified, is_sandbox_active, bump, drain_sandbox_engines,
  insert_sandbox_engine,
}
use hack_arena3_0_backend.Runtime.Switch.{
  current_ghost_mode_settings, switch_to_none, switch_to_official_race, start_sandbox,
  switch_to_sandbox, switch_arm, switch_runtime,
}
use hack_arena3_0_backend.Runtime.Sandbox.{
  deactivate_sandbox, is_sandbox_kind, sole_sandbox, target_sandbox_id, set_runtime_time_of_day,
  has_payload, check_activation_payload, check_pending, set_pending_sandbox_activation,
}
use hack_arena3_0_backend.Runtime.LocalRace.{
  is_race, activate_local_race, deactivate_local_race, bump_revision,
}
use hack_arena3_0_backend.Runtime.Steps.{
  switched, with_task, sandbox_started, sandbox_stopped, preset_changed, scheduled, race_started,
  race_stopped, IsPayload, Step,
}
use hack_arena3_0_backend.Runtime.Steps
use mathlib.Core.Option.{get_or}

module _ ⦃api : EngineApi⦄ where
  -- The operation failed and the worker is `v`, or it ended in a result and a worker with `Q`.
  pub data Outcome {A : Type 0} (Q : A → Worker → Type 0) (v : Worker)
      : Result EngineWorkerError A × Worker → Type 0 where
    fails : (e : EngineWorkerError) → Outcome Q v (err e, v)
    ends : {a : A} {w : Worker} → Q a w → Outcome Q v (ok a, w)

  module _ {A B : Type 0} {P : A → Worker → Type 0} {Q : B → Worker → Type 0} where
    pub bind_rule :
        {f : A → M B} {v : Worker} {r : Result EngineWorkerError A × Worker}
        → Outcome P v r
        → ((a : A) (w : Worker) → P a w → Outcome Q v (f a w))
        → Outcome Q v (and_then r f)
    unfolding and_then
    bind_rule (fails e) k = fails e
    bind_rule (ends p) k = k _ _ p

  module _ {B : Type 0} {Q : B → Worker → Type 0} where
    pub require_rule :
        (f : Unit {0} → M B) (test : Bool) (message : String) (v : Worker)
        → (test ≡ true → Outcome Q v (f tt v))
        → Outcome Q v (and_then (require test message v) f)
    unfolding require and_then
    require_rule f true message v k = k refl
    require_rule f false message v k = fails _

    pub revision_rule :
        (f : Unit {0} → M B) (n : ℕ) (v : Worker)
        → (v.runtime_state.revision ≡ n → Outcome Q v (f tt v))
        → Outcome Q v (and_then (check_revision n v) f)
    unfolding check_revision and_then
    revision_rule f n v k = elim (Bool-cases (v.runtime_state.revision == n)) [
      | inl same ↦ rw same (k ((==_iff _ n).0 same))
      | inr differs ↦ rw differs (fails _)
    ]

    pub lift_rule :
        {A : Type 0} (f : A → M B) (r : Result EngineWorkerError A) (v : Worker)
        → ((a : A) → r ≡ ok a → Outcome Q v (f a v))
        → Outcome Q v (and_then (r, v) f)
    unfolding and_then
    lift_rule f (ok a) v k = k a refl
    lift_rule f (err e) v k = fails e

  pub lift-Outcome :
      {A : Type 0} (r : Result EngineWorkerError A) (v : Worker) → Outcome (λ _ w. w ≡ v) v (r, v)
  lift-Outcome (ok a) v = ends refl
  lift-Outcome (err e) v = fails e

  build_engine-Outcome :
      (map_id : String) (v : Worker) → Outcome (λ _ w. w ≡ v) v (build_engine map_id v)
  unfolding build_engine and_then
  build_engine-Outcome map_id v = lift_rule _ (validate_map_id map_id) v λ _ _.
      lift_rule _ (map_err EngineWorkerError.invalid_argument (api.resolve_track_glb_path map_id)) v
        λ track _. lift_rule _ (map_err EngineWorkerError.engine api.initialize_runtime) v λ _ _.
          lift_rule _ (map_err EngineWorkerError.engine api.load_vehicle_mesh) v
            λ mesh _. lift-Outcome (map_err EngineWorkerError.engine (api.build track mesh)) v

  build_slot-Outcome :
      (map_id : String) (ghost : Ghost) (v : Worker)
      → Outcome (λ _ w. w ≡ v) v (build_slot map_id ghost v)
  unfolding build_slot and_then
  build_slot-Outcome map_id ghost v = bind_rule (build_engine-Outcome map_id v) λ engine w same.
      rw same (
        lift_rule _ (map_err EngineWorkerError.engine (api.set_ghost_mode_settings ghost engine).0)
          v λ _ _. ends refl)

  -- Building a world reads nothing and writes nothing of the worker.
  pub build_rule :
      {B : Type 0} {Q : B → Worker → Type 0} (f : EngineWorldSlot → M B) (map_id : String)
      (ghost : Ghost) (v : Worker)
      → ((slot : EngineWorldSlot) → Outcome Q v (f slot v))
      → Outcome Q v (and_then (build_slot map_id ghost v) f)
  build_rule f map_id ghost v k =
      bind_rule (build_slot-Outcome map_id ghost v) λ slot w same. rw same (k slot)

  pub require-Outcome :
      (test : Bool) (message : String) (v : Worker)
      → Outcome (λ _ w. (w ≡ v) × (test ≡ true)) v (require test message v)
  unfolding require
  require-Outcome true message v = ends (refl, refl)
  require-Outcome false message v = fails _

  pub map_Outcome :
      {A : Type 0} {P Q : A → Worker → Type 0} {v : Worker}
      {r : Result EngineWorkerError A × Worker}
      → ((a : A) (w : Worker) → P a w → Q a w)
      → Outcome P v r
      → Outcome Q v r
  map_Outcome f (fails e) = fails e
  map_Outcome f (ends p) = ends (f _ _ p)

  -- An operation with the expected revision `n` as its caller sees it: it answers with the state
  -- that it left, one revision further.
  abbrev pub Moved : ℕ → Worker → EngineRuntimeState → Worker → Type 0
  Moved n v s w =
      Step v w
      × (s ≡ w.runtime_state)
      × (v.runtime_state.revision ≡ n)
      × (w.runtime_state.revision ≡ saturating_add v.runtime_state.revision 1)
