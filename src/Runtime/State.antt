-- ===== src/Runtime/State.antt =====
-- game-server/src/runtime/engine_worker.rs: the small steps that the worker's operations are made
-- of: the revision check, the tables of active sandboxes and step tasks, and `build_engine`.
use hack_arena3_0_backend.Common.Action.{Action, ◌>>=◌, ◌>>◌, lift, modify, gets}
use hack_arena3_0_backend.Common.Dict
use hack_arena3_0_backend.Common.Dict.{Dict, string_eq}
use hack_arena3_0_backend.Common.{
  ℕ, suc, Bool, true, false, not, ◌||◌, List, [], ◌∷◌, Option, none, some, String, Result, ok, err,
  map_err, if◌then◌else◌, ◌==◌, ◌=ₛ◌, is_blank, codes, all_codes, is_ascii_alphanumeric,
  saturating_add,
}
use hack_arena3_0_backend.Runtime.Model.{
  EngineRuntimeTimeOfDayPreset, BuildFeature, EngineApi, Ghost, EnginePendingSandboxActivation,
  EngineActiveSandboxState, EngineWorldSlot, SandboxEngineHandle, EngineRuntimeState,
  EngineWorkerError, Worker,
}

module _ ⦃api : EngineApi⦄ where
  -- An operation of the worker.
  abbrev pub M : Type 0 → Type 0
  M = Action Worker EngineWorkerError

  abbrev pub invalid : {A : Type 0} → String → Result EngineWorkerError A
  invalid message = err (EngineWorkerError.invalid_argument message)

  unfoldable pub require : Bool → String → M (Unit {0})
  require test message w = if test then (ok tt, w) else (invalid message, w)

  abbrev pub update_state : (EngineRuntimeState → EngineRuntimeState) → M (Unit {0})
  update_state f = modify (λ w. record w { runtime_state = f w.runtime_state })

  abbrev pub runtime_state : M EngineRuntimeState
  runtime_state = gets (λ w. w.runtime_state)

  unfoldable pub default_ghost_mode_settings : Ghost
  default_ghost_mode_settings = record {
    enabled = false;
    enter_speed_max_mps = api.f32_zero;
    exit_speed_min_mps = api.f32_zero;
    enter_delay_ms = 0;
    exit_delay_ms = 0;
    until_completed_laps = 0;
    vehicle_overlap_exit_delay_ms = 0;
  }

  -- The compare-and-swap test that each operation starts with.
  unfoldable pub check_revision : ℕ → M (Unit {0})
  check_revision expected w =
      if w.runtime_state.revision == expected
      then (ok tt, w)
      else (err (EngineWorkerError.revision_mismatch expected w.runtime_state.revision), w)

  unfoldable pub bump : EngineRuntimeState → EngineRuntimeState
  bump s = record s { revision = saturating_add s.revision 1 }

  unfoldable pub is_unspecified : EngineRuntimeTimeOfDayPreset → Bool
  is_unspecified EngineRuntimeTimeOfDayPreset.unspecified = true
  is_unspecified _ = false

  unfoldable pub is_map_id_code : BuildFeature → ℕ → Bool
  is_map_id_code BuildFeature.local c = is_ascii_alphanumeric c || c == b'-' || c == b'_'
  is_map_id_code _ c = is_ascii_alphanumeric c

  unfoldable pub map_id_message : BuildFeature → String
  map_id_message BuildFeature.local = "map_id contains invalid characters"
  map_id_message _ = "map_id(storage_key) must be alphanumeric"

  unfoldable pub validate_map_id : String → Result EngineWorkerError (Unit {0})
  validate_map_id map_id =
      if is_blank map_id
      then invalid "map_id must be non-empty"
      else if not (all_codes (is_map_id_code api.feature) (codes map_id))
      then invalid (map_id_message api.feature)
      else ok tt

  unfoldable pub build_engine : String → M api.Engine
  build_engine map_id = do
    lift (validate_map_id map_id)
    track_glb ←
        lift (map_err EngineWorkerError.invalid_argument (api.resolve_track_glb_path map_id))
    lift (map_err EngineWorkerError.engine api.initialize_runtime)
    mesh ← lift (map_err EngineWorkerError.engine api.load_vehicle_mesh)
    lift (map_err EngineWorkerError.engine (api.build track_glb mesh))

  -- A new world with its ghost mode set: the two fallible calls that every activation makes.
  unfoldable pub build_slot : String → Ghost → M EngineWorldSlot
  build_slot map_id ghost = do
    engine ← build_engine map_id
    let configured = api.set_ghost_mode_settings ghost engine
    lift (map_err EngineWorkerError.engine configured.0)
    lift (ok (record { engine = configured.1; ghost_mode_settings = ghost }))

  -- `spawn_local` of a step loop: the task gets a name of its own.
  unfoldable pub spawn_step_task : M ℕ
  spawn_step_task w =
      (ok w.next_task, record w { running = w.next_task ∷ w.running; next_task = suc w.next_task })

  unfoldable pub abort : ℕ → List ℕ → List ℕ
  abort task [] = []
  abort task (t ∷ ts) = if t == task then ts else t ∷ abort task ts

  -- Aborts the task of the entry that a key had.
  unfoldable pub abort_entry : Option SandboxEngineHandle → List ℕ → List ℕ
  unfolding abort
  abort_entry none running = running
  abort_entry (some handle) running = abort handle.step_task running

  unfoldable pub abort_all : Dict String SandboxEngineHandle → List ℕ → List ℕ
  abort_all [] running = running
  abort_all ((k, handle) ∷ d) running = abort_all d (abort handle.step_task running)

  -- `sandbox_engines.drain()`.
  unfoldable pub drain_sandbox_engines : Worker → Worker
  drain_sandbox_engines w = record w {
    sandbox_engines = [];
    running = abort_all w.sandbox_engines w.running;
  }

  -- `if let Some(previous) = sandbox_engines.insert(..) { previous.step_task.abort() }`.
  unfoldable pub insert_sandbox_engine : String → SandboxEngineHandle → Worker → Worker
  insert_sandbox_engine id handle w = record w {
    sandbox_engines = Dict.insert id handle w.sandbox_engines;
    running = abort_entry (Dict.get id w.sandbox_engines) w.running;
  }

  unfoldable pub insert_local_race_engine : String → SandboxEngineHandle → Worker → Worker
  insert_local_race_engine id handle w = record w {
    local_race_engines = Dict.insert id handle w.local_race_engines;
    running = abort_entry (Dict.get id w.local_race_engines) w.running;
  }

  unfoldable pub remove_sandbox_engine : String → Worker → Worker
  remove_sandbox_engine id w = record w {
    sandbox_engines = Dict.remove id w.sandbox_engines;
    running = abort_entry (Dict.get id w.sandbox_engines) w.running;
  }

  unfoldable pub remove_local_race_engine : String → Worker → Worker
  remove_local_race_engine id w = record w {
    local_race_engines = Dict.remove id w.local_race_engines;
    running = abort_entry (Dict.get id w.local_race_engines) w.running;
  }

  unfoldable pub upsert_active_sandbox :
      List EngineActiveSandboxState → EngineActiveSandboxState → List EngineActiveSandboxState
  upsert_active_sandbox [] next = next ∷ []
  upsert_active_sandbox (entry ∷ entries) next =
      if entry.sandbox_id =ₛ next.sandbox_id
      then next ∷ entries
      else entry ∷ upsert_active_sandbox entries next

  unfoldable pub is_active_in : String → List EngineActiveSandboxState → Bool
  is_active_in id [] = false
  is_active_in id (entry ∷ entries) = entry.sandbox_id =ₛ id || is_active_in id entries

  unfoldable pub is_sandbox_active : EngineRuntimeState → String → Bool
  is_sandbox_active s id = is_active_in id s.active_sandboxes

  -- `position` and `remove`: the first entry of the id goes.
  unfoldable pub remove_active :
      String → List EngineActiveSandboxState → List EngineActiveSandboxState
  remove_active id [] = []
  remove_active id (entry ∷ entries) =
      if entry.sandbox_id =ₛ id then entries else entry ∷ remove_active id entries

  -- `pending_sandbox_activations.retain(|pending| pending.sandbox_id != id)`.
  unfoldable pub drop_pending :
      String → List EnginePendingSandboxActivation → List EnginePendingSandboxActivation
  drop_pending id [] = []
  drop_pending id (p ∷ ps) =
      if not (p.sandbox_id =ₛ id) then p ∷ drop_pending id ps else drop_pending id ps

  unfoldable pub forget_pending : String → EngineRuntimeState → EngineRuntimeState
  forget_pending id s = record s {
    pending_sandbox_activations = drop_pending id s.pending_sandbox_activations;
  }
