-- ===== src/Runtime/Loop.antt =====
-- game-server/src/runtime/engine_worker.rs: `maybe_execute_due_pending_sandbox_activation`, the
-- events of `run_worker`, and the steps that the spawned loops make on their own worlds.
use hack_arena3_0_backend.Common.Action.{◌>>=◌, ◌>>◌, lift, gets}
use hack_arena3_0_backend.Common.Dict
use hack_arena3_0_backend.Common.Dict.{Dict, string_eq}
use hack_arena3_0_backend.Common.Int.{ℤ, ltb_ℤ}
use hack_arena3_0_backend.Common.{
  Bool, false, not, List, [], ◌∷◌, Option, none, some, String, ok, ok_or, if◌then◌else◌,
}
use hack_arena3_0_backend.Runtime.Model.{
  EngineActivityKind, EngineRuntimeTimeOfDayPreset, EngineApi, EnginePendingSandboxActivation,
  EngineWorldSlot, SandboxEngineHandle, EngineWorkerError, Worker,
}
use hack_arena3_0_backend.Runtime.State.{
  M, update_state, is_sandbox_active, forget_pending, abort_all, drain_sandbox_engines,
}
use hack_arena3_0_backend.Runtime.Switch.{switch_runtime}
use hack_arena3_0_backend.Runtime.Sandbox.{deactivate_sandbox}
use hack_arena3_0_backend.Runtime.Commands.{
  EngineCommand, handle_command, put_local_slot, put_sandbox_slot,
}

module _ ⦃api : EngineApi⦄ where
  -- The entries whose time has come.
  unfoldable pub due_entries :
      ℤ → List EnginePendingSandboxActivation → List EnginePendingSandboxActivation
  due_entries now [] = []
  due_entries now (p ∷ ps) =
      if not (ltb_ℤ now p.execute_at_unix_ms) then p ∷ due_entries now ps else due_entries now ps

  -- `sort_by_key`, which is stable: an entry goes behind those of the same time.
  unfoldable pub insert_by_time :
      EnginePendingSandboxActivation
      → List EnginePendingSandboxActivation
      → List EnginePendingSandboxActivation
  insert_by_time p [] = p ∷ []
  insert_by_time p (q ∷ qs) =
      if ltb_ℤ q.execute_at_unix_ms p.execute_at_unix_ms
      then q ∷ insert_by_time p qs
      else p ∷ q ∷ qs

  unfoldable pub sort_by_time :
      List EnginePendingSandboxActivation → List EnginePendingSandboxActivation
  unfolding insert_by_time
  sort_by_time [] = []
  sort_by_time (p ∷ ps) = insert_by_time p (sort_by_time ps)

  abbrev pub missing : {A : Type 0} → Option A → String → M A
  missing o message = lift (ok_or o (EngineWorkerError.invalid_argument message))

  unfoldable pub execute_activation : EnginePendingSandboxActivation → M (Unit {0})
  execute_activation pending = do
    map_id ← missing pending.map_id "scheduled activation is missing map_id"
    preset ← missing pending.time_of_day_preset "scheduled activation is missing time_of_day_preset"
    ghost ←
        missing pending.ghost_mode_settings "scheduled activation is missing ghost_mode_settings"
    revision ← gets (λ w. w.runtime_state.revision)
    switched ←
        switch_runtime revision EngineActivityKind.sandbox map_id (some pending.sandbox_id) preset
          (some ghost)
    update_state (forget_pending pending.sandbox_id)

  unfoldable pub execute_deactivation : EnginePendingSandboxActivation → M (Unit {0})
  execute_deactivation pending = do
    revision ← gets (λ w. w.runtime_state.revision)
    deactivated ← deactivate_sandbox revision pending.sandbox_id
    update_state (forget_pending pending.sandbox_id)

  -- One round of the loop over the due entries.
  unfoldable pub execute_pending : EnginePendingSandboxActivation → M (Unit {0})
  execute_pending pending w =
      if pending.activate
      then (if is_sandbox_active w.runtime_state pending.sandbox_id
          then update_state (forget_pending pending.sandbox_id) w
          else execute_activation pending w)
      else execute_deactivation pending w

  -- The loop stops at the first round that fails.
  unfoldable pub execute_all : List EnginePendingSandboxActivation → M (Unit {0})
  execute_all [] = lift (ok tt)
  execute_all (p ∷ ps) = execute_pending p >> execute_all ps

  unfoldable pub maybe_execute_due_pending_sandbox_activation : ℤ → M (Unit {0})
  maybe_execute_due_pending_sandbox_activation now w =
      execute_all (sort_by_time (due_entries now w.runtime_state.pending_sandbox_activations)) w

  -- `slot.engine.step(dt)`, and the scheduled weather, whose failures are only logged.
  unfoldable pub step_slot : EngineWorldSlot → EngineWorldSlot
  step_slot slot = record slot { engine = (api.step slot.engine).1 }

  unfoldable pub weather_slot : EngineWorldSlot → EngineWorldSlot
  weather_slot slot = record slot { engine = (api.apply_weather_from_schedule slot.engine).1 }

  -- The official world in its turn, when the official race is the activity.
  unfoldable pub on_official_race :
      EngineActivityKind
      → (EngineWorldSlot → EngineWorldSlot)
      → Option EngineWorldSlot
      → Option EngineWorldSlot
  on_official_race EngineActivityKind.official_race f (some slot) = some (f slot)
  on_official_race _ f slot = slot

  unfoldable pub closes : EngineActivityKind → Option EngineWorldSlot → Bool
  closes EngineActivityKind.official_race (some slot) = api.should_close_debug slot.engine
  closes _ _ = false

  unfoldable pub tick_official : (EngineWorldSlot → EngineWorldSlot) → Worker → Worker
  unfolding on_official_race
  tick_official f w = record w {
    official_engine = on_official_race w.runtime_state.activity_kind f w.official_engine;
  }

  -- A turn of `run_sandbox_loop`, the loop of a step task.
  pub data Turn : Type 0 where
    ticker_turn weather_turn : Turn

  unfoldable pub turn_slot : Turn → EngineWorldSlot → EngineWorldSlot
  turn_slot ticker_turn slot = step_slot slot
  turn_slot weather_turn slot = weather_slot slot

  -- One turn of the `select!` of `run_worker`, or of the loop of a step task. `now` is what the
  -- clock shows.
  pub data Event : Type 0 where
    ticker : ℤ → Event
    weather_tick : Event
    command : ℤ → EngineCommand → Event
    sandbox_turn : String → Turn → Event
    local_race_turn : String → Turn → Event
    shutdown : Event

  unfoldable pub turn_handle :
      (SandboxEngineHandle → EngineWorldSlot → Worker → Worker)
      → Turn
      → Option SandboxEngineHandle
      → Worker
      → Worker
  turn_handle put turn none w = w
  turn_handle put turn (some handle) w = put handle (turn_slot turn handle.slot) w

  -- The tasks of both tables are aborted when the worker stops.
  unfoldable pub stop : Worker → Worker
  unfolding drain_sandbox_engines
  stop w = record (drain_sandbox_engines w) {
    local_race_engines = [];
    running = abort_all w.local_race_engines (drain_sandbox_engines w).running;
  }

  -- Whether the `select!` loop goes round again.
  pub data Next : Type 0 where
    goes_on : Worker → Next
    breaks : Worker → Next

  unfoldable pub tick : ℤ → Worker → Next
  unfolding tick_official
  tick now w =
      let w' = tick_official step_slot w in
      if closes w'.runtime_state.activity_kind w'.official_engine
      then breaks w'
      else goes_on (maybe_execute_due_pending_sandbox_activation now w').1

  -- Errors of a command have gone to its caller, and those of the schedule are only logged.
  unfoldable pub on_event : Event → Worker → Next
  on_event (ticker now) w = tick now w
  on_event weather_tick w = goes_on (tick_official weather_slot w)
  on_event (command now c) w =
      goes_on (maybe_execute_due_pending_sandbox_activation now (handle_command c w).1).1
  on_event (sandbox_turn id turn) w =
      goes_on (turn_handle (put_sandbox_slot id) turn (Dict.get id w.sandbox_engines) w)
  on_event (local_race_turn id turn) w =
      goes_on (turn_handle (put_local_slot id) turn (Dict.get id w.local_race_engines) w)
  on_event shutdown w = breaks w

  -- The worker that `spawn` starts.
  unfoldable pub init : Worker
  init = record {
    official_engine = none;
    local_race_engines = [];
    sandbox_engines = [];
    runtime_state = record {
      revision = 0;
      activity_kind = EngineActivityKind.none;
      map_id = "test";
      active_local_race = none;
      active_sandboxes = [];
      time_of_day_preset = EngineRuntimeTimeOfDayPreset.unspecified;
      pending_sandbox_activations = [];
    };
    running = [];
    next_task = 0;
  }

  unfoldable pub continue : (Worker → Next) → Next → Next
  unfolding stop
  continue rest (goes_on w) = rest w
  continue rest (breaks w) = breaks (stop w)

  -- The loop over what happens, with the aborts behind it.
  unfoldable pub run : List Event → Worker → Next
  run [] w = goes_on w
  run (e ∷ es) w = continue (run es) (on_event e w)
