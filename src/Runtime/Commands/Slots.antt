-- ===== src/Runtime/Commands/Slots.antt =====
-- game-server/src/runtime/commands.rs, and what engine_worker.rs does with them on one world:
-- `with_target_slot_mut` and the calls of the engine.
use hack_arena3_0_backend.Common.Action.{Action, ◌>>=◌, ◌>>◌, lift, gets}
use hack_arena3_0_backend.Common.Dict
use hack_arena3_0_backend.Common.Dict.{Dict, string_eq}
use hack_arena3_0_backend.Common.{
  ℕ, Bool, not, List, [], ◌∷◌, Option, none, some, String, Result, ok, err, if◌then◌else◌, ◌=ₛ◌,
  is_blank,
}
use hack_arena3_0_backend.Runtime.Model.{
  EngineActivityKind, EngineCommandTarget, EngineRuntimeTimeOfDayPreset, EngineRuntimeWeatherNow,
  BuildFeature, TyreType, EngineApi, Ghost, EnginePendingSandboxActivation,
  EngineActiveSandboxState, EngineWorldSlot, SandboxEngineHandle, EngineRuntimeState,
  EngineWorkerError, Worker,
}
use hack_arena3_0_backend.Runtime.State.{M, invalid, require, update_state, is_sandbox_active}
use hack_arena3_0_backend.Runtime.LocalRace.{is_official_kind, is_race}

module _ ⦃api : EngineApi⦄ where
  pub data EngineCommand : Type 0 where
    spawn_car : EngineCommandTarget → EngineCommand
    set_controls : EngineCommandTarget → ℕ → api.Controls → EngineCommand
    read_car_state : EngineCommandTarget → ℕ → EngineCommand
    read_car_race_metrics : EngineCommandTarget → ℕ → EngineCommand
    read_car_dimensions : EngineCommandTarget → ℕ → EngineCommand
    set_car_back_to_track : EngineCommandTarget → ℕ → EngineCommand
    set_car_before_finish_line : EngineCommandTarget → ℕ → EngineCommand
    set_car_random_on_track : EngineCommandTarget → ℕ → EngineCommand
    set_car_at_start_pos : EngineCommandTarget → ℕ → ℕ → EngineCommand
    set_car_to_pitstop : EngineCommandTarget → ℕ → EngineCommand
    set_car_tyre_type : EngineCommandTarget → ℕ → TyreType → EngineCommand
    force_set_car_tyre_type : EngineCommandTarget → ℕ → TyreType → EngineCommand
    get_number_of_start_pos : EngineCommandTarget → EngineCommand
    get_track_data : EngineCommandTarget → EngineCommand
    get_race_duration : EngineCommandTarget → EngineCommand
    get_runtime_state : EngineCommand
    switches_runtime :
        ℕ
        → EngineActivityKind
        → String
        → Option String
        → Option EngineRuntimeTimeOfDayPreset
        → Option Ghost
        → EngineCommand
    sets_runtime_time_of_day : ℕ → Option String → EngineRuntimeTimeOfDayPreset → EngineCommand
    sets_pending_sandbox_activation : ℕ → EnginePendingSandboxActivation → EngineCommand
    cancels_pending_sandbox_activation : ℕ → String → EngineCommand
    deactivates_sandbox : ℕ → String → EngineCommand
    activates_local_race :
        ℕ → String → String → EngineRuntimeTimeOfDayPreset → Option Ghost → EngineCommand
    deactivates_local_race : ℕ → String → EngineCommand
    bumps_revision : ℕ → EngineCommand
    set_ghost_mode_settings : EngineCommandTarget → Ghost → EngineCommand
    set_weather : String → api.WeatherParams → EngineRuntimeWeatherNow → EngineCommand
    despawn_car : EngineCommandTarget → ℕ → EngineCommand

  -- What goes back through `reply_tx` on success.
  pub data Reply : Type 0 where
    done : Reply
    count : ℕ → Reply
    accepted_controls : api.AcceptedControls → Reply
    vehicle_state : api.VehicleState → Reply
    vehicle_race_metrics : api.VehicleRaceMetrics → Reply
    dimensions : api.F32 × api.F32 → Reply
    tracks : api.TrackData → Reply
    seconds : api.F32 → Reply
    runtime : EngineRuntimeState → Reply
    canceled : EngineRuntimeState × Bool → Reply

  -- An operation on one world.
  abbrev pub SlotOp : Type 0 → Type 0
  SlotOp = Action EngineWorldSlot EngineWorkerError

  abbrev pub inactive_official : String
  inactive_official = "official race runtime is not active"

  unfoldable pub put_local_slot : String → SandboxEngineHandle → EngineWorldSlot → Worker → Worker
  put_local_slot id handle slot w = record w {
    local_race_engines = Dict.insert id (record handle { slot = slot }) w.local_race_engines;
  }

  unfoldable pub put_sandbox_slot : String → SandboxEngineHandle → EngineWorldSlot → Worker → Worker
  put_sandbox_slot id handle slot w = record w {
    sandbox_engines = Dict.insert id (record handle { slot = slot }) w.sandbox_engines;
  }

  -- Runs the operation under the lock of a handle's slot, and stores the slot.
  unfoldable pub on_handle :
      {A : Type 0}
      → (SandboxEngineHandle → EngineWorldSlot → Worker → Worker)
      → String
      → Option SandboxEngineHandle
      → SlotOp A
      → M A
  on_handle put message none op w = (invalid message, w)
  on_handle put message (some handle) op w =
      let (r, slot) = op handle.slot in (r, put handle slot w)

  unfoldable pub on_official : {A : Type 0} → Option EngineWorldSlot → SlotOp A → M A
  on_official none op w = (invalid inactive_official, w)
  on_official (some slot) op w =
      let (r, slot') = op slot in (r, record w { official_engine = some slot' })

  unfoldable pub with_target_slot_mut : {A : Type 0} → EngineCommandTarget → SlotOp A → M A
  with_target_slot_mut EngineCommandTarget.official_race op = do
    kind ← gets (λ w. w.runtime_state.activity_kind)
    require (is_official_kind kind) inactive_official
    official ← gets (λ w. w.official_engine)
    on_official official op
  with_target_slot_mut (EngineCommandTarget.local_race race_id) op = do
    require (not (is_blank race_id)) "race_id must be non-empty"
    matches ← gets (λ w. is_race race_id w.runtime_state.active_local_race)
    require matches "race_id does not match active local race session"
    handle ← gets (λ w. Dict.get race_id w.local_race_engines)
    on_handle (put_local_slot race_id) "local race runtime is not active" handle op
  with_target_slot_mut (EngineCommandTarget.sandbox id) op = do
    require (not (is_blank id)) "sandbox_id must be non-empty"
    handle ← gets (λ w. Dict.get id w.sandbox_engines)
    on_handle (put_sandbox_slot id) "sandbox_id does not match active sandbox session" handle op

  -- A call of the engine as an operation on the slot that holds it.
  unfoldable pub engine_call :
      {A B : Type 0} → (B → A) → (api.Engine → Result api.BoinkError B × api.Engine) → SlotOp A
  engine_call f call slot =
      let (r, engine) = call slot.engine in
      elim r [
        | ok b ↦ (ok (f b), record slot { engine = engine })
        | err e ↦ (err (EngineWorkerError.engine e), record slot { engine = engine })
      ]

  abbrev pub unit_call : (api.Engine → Result api.BoinkError (Unit {0}) × api.Engine) → SlotOp Reply
  unit_call = engine_call (λ _. Reply.done)

  -- In the official build a new car gets hard tyres; a failure of that is only logged.
  unfoldable pub default_tyre : BuildFeature → ℕ → EngineWorldSlot → EngineWorldSlot
  default_tyre BuildFeature.official car_id slot = record slot {
    engine = (api.force_set_vehicle_tyre_type car_id TyreType.hard slot.engine).1;
  }
  default_tyre _ car_id slot = slot

  unfoldable pub spawn_op : SlotOp Reply
  unfolding default_tyre
  spawn_op slot =
      let (r, engine) = api.spawn_vehicle slot.engine in
      elim r [
        | ok car_id ↦ (
          ok (Reply.count car_id),
          default_tyre api.feature car_id (record slot { engine = engine }),
        )
        | err e ↦ (err (EngineWorkerError.engine e), record slot { engine = engine })
      ]

  unfoldable pub ghost_op : Ghost → SlotOp Reply
  ghost_op settings slot =
      let (r, engine) = api.set_ghost_mode_settings settings slot.engine in
      elim r [
        | ok _ ↦ (ok Reply.done, record { engine = engine; ghost_mode_settings = settings })
        | err e ↦ (err (EngineWorkerError.engine e), record slot { engine = engine })
      ]

  unfoldable pub set_weather_now :
      String
      → EngineRuntimeWeatherNow
      → List EngineActiveSandboxState
      → List EngineActiveSandboxState
  set_weather_now id now [] = []
  set_weather_now id now (entry ∷ entries) =
      if entry.sandbox_id =ₛ id
      then record entry { weather_now = some now } ∷ entries
      else entry ∷ set_weather_now id now entries

  unfoldable pub apply_weather : String → api.WeatherParams → EngineRuntimeWeatherNow → M Reply
  apply_weather id weather now = do
    applied ←
        with_target_slot_mut (EngineCommandTarget.sandbox id) (unit_call (api.set_weather weather))
    active ← gets (λ w. is_sandbox_active w.runtime_state id)
    require active "sandbox_id does not match active sandbox session"
    update_state (λ s. record s { active_sandboxes = set_weather_now id now s.active_sandboxes })
    lift (ok Reply.done)
