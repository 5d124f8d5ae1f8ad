-- ===== src/Runtime/Steps.antt =====
-- The transitions that game-server/src/runtime/engine_worker.rs makes, as a relation between the
-- worker before and after: what the operations may do, with the guards under which they do it.
use hack_arena3_0_backend.Common.Dict
use hack_arena3_0_backend.Common.Dict.{Dict, string_eq}
use hack_arena3_0_backend.Common.{
  ℕ, ◌≡◌, Bool, true, false, ◌∷◌, Option, none, some, String, is_blank, is_some,
}
use hack_arena3_0_backend.Runtime.Model.{
  EngineActivityKind, EngineRuntimeTimeOfDayPreset, EngineRuntimeWeatherNow, EngineApi,
  EnginePendingSandboxActivation, EngineWorldSlot, SandboxEngineHandle, EngineRuntimeState, Worker,
}
use hack_arena3_0_backend.Runtime.State.{
  bump, is_unspecified, drain_sandbox_engines, insert_sandbox_engine, insert_local_race_engine,
  remove_sandbox_engine, remove_local_race_engine, is_sandbox_active, remove_active, forget_pending,
}
use hack_arena3_0_backend.Runtime.Switch.{enter_kind, enter_sandbox}
use hack_arena3_0_backend.Runtime.Sandbox.{
  leave_sandbox_runtime, set_preset, has_payload, upsert_pending,
}
use hack_arena3_0_backend.Runtime.LocalRace.{is_race, enter_local_race, leave_local_race}
use hack_arena3_0_backend.Runtime.Commands.{put_local_slot, put_sandbox_slot, set_weather_now}

module _ ⦃api : EngineApi⦄ where
  abbrev pub with_state : (EngineRuntimeState → EngineRuntimeState) → Worker → Worker
  with_state f w = record w { runtime_state = f w.runtime_state }

  -- The two switches that end all sandboxes.
  unfoldable pub switched :
      EngineActivityKind
      → Option EngineWorldSlot
      → String
      → EngineRuntimeTimeOfDayPreset
      → Worker
      → Worker
  switched kind official map_id preset w =
      with_state (λ s. bump (enter_kind kind map_id preset s))
        (drain_sandbox_engines (record w { official_engine = official }))

  -- A step task that holds the next name.
  unfoldable pub with_task : Worker → Worker
  with_task w = record w { running = w.next_task ∷ w.running; next_task = ℕ.suc w.next_task }

  unfoldable pub sandbox_started :
      String → String → EngineRuntimeTimeOfDayPreset → EngineWorldSlot → Worker → Worker
  unfolding with_task
  sandbox_started id map_id preset slot w =
      with_state (λ s. bump (forget_pending id (enter_sandbox id map_id preset s)))
        (insert_sandbox_engine id (record { slot = slot; step_task = w.next_task }) (with_task w))

  unfoldable pub sandbox_stopped : String → Worker → Worker
  sandbox_stopped id w = with_state bump (
      leave_sandbox_runtime (
        with_state (forget_pending id) (
          remove_sandbox_engine id (
            with_state (λ s. record s { active_sandboxes = remove_active id s.active_sandboxes })
              w))))

  unfoldable pub preset_changed : String → EngineRuntimeTimeOfDayPreset → Worker → Worker
  preset_changed id preset w =
      with_state
        (λ s. bump (record s {
          active_sandboxes = set_preset id preset s.active_sandboxes;
          time_of_day_preset = preset;
        }))
        w

  unfoldable pub scheduled : EnginePendingSandboxActivation → Worker → Worker
  scheduled pending w =
      with_state
        (λ s. record (bump s) {
          pending_sandbox_activations = upsert_pending pending s.pending_sandbox_activations;
        })
        w

  unfoldable pub weather_changed : String → EngineRuntimeWeatherNow → Worker → Worker
  weather_changed id now w =
      with_state (λ s. record s { active_sandboxes = set_weather_now id now s.active_sandboxes }) w

  unfoldable pub race_started :
      String → String → EngineRuntimeTimeOfDayPreset → EngineWorldSlot → Worker → Worker
  unfolding with_task
  race_started race_id map_id preset slot w =
      with_state (λ s. bump (enter_local_race race_id map_id preset s))
        (insert_local_race_engine race_id (record { slot = slot; step_task = w.next_task })
          (with_task w))

  unfoldable pub race_stopped : String → Worker → Worker
  race_stopped race_id w =
      with_state (λ s. bump (leave_local_race s))
        (remove_local_race_engine race_id
          (with_state (λ s. record s { active_local_race = none }) w))

  -- The payload of a scheduled activation, or of a scheduled deactivation.
  abbrev pub HasPreset : Option EngineRuntimeTimeOfDayPreset → Type 0
  HasPreset none = ⊥
  HasPreset (some preset) = is_unspecified preset ≡ false

  abbrev pub HasMap : Option String → Type 0
  HasMap none = ⊥
  HasMap (some map_id) = is_blank map_id ≡ false

  abbrev pub Payload : Bool → EnginePendingSandboxActivation → Type 0
  Payload true p =
      HasMap p.map_id × HasPreset p.time_of_day_preset × (is_some p.ghost_mode_settings ≡ true)
  Payload false p = has_payload p ≡ false

  abbrev pub IsPayload : EnginePendingSandboxActivation → Type 0
  IsPayload p = (is_blank p.sandbox_id ≡ false) × Payload p.activate p

  pub data Step (v w : Worker) : Type 0 where
    to_none :
        (map_id : String) (preset : EngineRuntimeTimeOfDayPreset)
        → w ≡ switched EngineActivityKind.none none map_id preset v
        → Step v w
    to_official :
        (map_id : String) (preset : EngineRuntimeTimeOfDayPreset) (slot : EngineWorldSlot)
        → w ≡ switched EngineActivityKind.official_race (some slot) map_id preset v
        → Step v w
    start_sandbox :
        (id map_id : String) (preset : EngineRuntimeTimeOfDayPreset) (slot : EngineWorldSlot)
        → is_blank id ≡ false
        → is_unspecified preset ≡ false
        → is_sandbox_active v.runtime_state id ≡ false
        → w ≡ sandbox_started id map_id preset slot v
        → Step v w
    stop_sandbox : (id : String) → w ≡ sandbox_stopped id v → Step v w
    change_preset :
        (id : String) (preset : EngineRuntimeTimeOfDayPreset)
        → is_unspecified preset ≡ false
        → is_sandbox_active v.runtime_state id ≡ true
        → w ≡ preset_changed id preset v
        → Step v w
    change_weather :
        (id : String) (now : EngineRuntimeWeatherNow) → w ≡ weather_changed id now v → Step v w
    schedule : (p : EnginePendingSandboxActivation) → IsPayload p → w ≡ scheduled p v → Step v w
    forget : (id : String) → w ≡ with_state (forget_pending id) v → Step v w
    start_race :
        (race_id map_id : String) (preset : EngineRuntimeTimeOfDayPreset) (slot : EngineWorldSlot)
        → is_blank race_id ≡ false
        → is_unspecified preset ≡ false
        → v.runtime_state.active_local_race ≡ none
        → w ≡ race_started race_id map_id preset slot v
        → Step v w
    stop_race :
        (race_id : String)
        → is_race race_id v.runtime_state.active_local_race ≡ true
        → w ≡ race_stopped race_id v
        → Step v w
    bump_state : w ≡ with_state bump v → Step v w
    use_official :
        (old slot : EngineWorldSlot)
        → v.official_engine ≡ some old
        → w ≡ record v { official_engine = some slot }
        → Step v w
    use_sandbox :
        (id : String) (handle : SandboxEngineHandle) (slot : EngineWorldSlot)
        → Dict.get id v.sandbox_engines ≡ some handle
        → w ≡ put_sandbox_slot id handle slot v
        → Step v w
    use_race :
        (id : String) (handle : SandboxEngineHandle) (slot : EngineWorldSlot)
        → Dict.get id v.local_race_engines ≡ some handle
        → w ≡ put_local_slot id handle slot v
        → Step v w

  -- Zero or more transitions.
  pub data Steps (v : Worker) : Worker → Type 0 where
    here : Steps v v
    next : {u w : Worker} → Steps v u → Step u w → Steps v w

  pub Steps-trans : {u v w : Worker} → Steps u v → Steps v w → Steps u w
  Steps-trans r here = r
  Steps-trans r (next s st) = next (Steps-trans r s) st

  pub one : {v w : Worker} → Step v w → Steps v w
  one s = next here s
