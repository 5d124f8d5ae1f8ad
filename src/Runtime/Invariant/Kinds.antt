-- ===== src/Runtime/Invariant/Kinds.antt =====
-- The activity kind of game-server/src/runtime/engine_worker.rs says what is there: it is Sandbox
-- exactly while sandboxes are active, and an official or local race has its world or its record.
use hack_arena3_0_backend.Common.{
  ◌≡◌, refl, true, false, not, List, [], ◌∷◌, none, String, arith, is_empty, is_some,
}
use hack_arena3_0_backend.Runtime.Model.{
  EngineApi, EngineRuntimeTimeOfDayPreset, EngineRuntimeWeatherNow, EngineActiveSandboxState,
  Worker,
}
use hack_arena3_0_backend.Runtime.State.{
  bump, drain_sandbox_engines, insert_sandbox_engine, insert_local_race_engine,
  remove_sandbox_engine, remove_local_race_engine, is_sandbox_active, forget_pending, remove_active,
  upsert_active_sandbox,
}
use hack_arena3_0_backend.Runtime.Switch.{enter_kind, enter_sandbox}
use hack_arena3_0_backend.Runtime.Sandbox.{
  is_sandbox_kind, leave_sandbox_runtime, fall_back, set_preset,
}
use hack_arena3_0_backend.Runtime.LocalRace.{
  is_official_kind, is_local_race_kind, is_race, enter_local_race, leave_local_race,
}
use hack_arena3_0_backend.Runtime.Commands.{put_local_slot, put_sandbox_slot, set_weather_now}
use hack_arena3_0_backend.Runtime.Steps.{
  switched, sandbox_started, sandbox_stopped, preset_changed, scheduled, weather_changed,
  race_started, race_stopped, Step,
}

module _ ⦃api : EngineApi⦄ where
  pub record Kinds (w : Worker) : Type 0 where
    pub sandbox_kind :
        is_sandbox_kind w.runtime_state.activity_kind
        ≡ not (is_empty w.runtime_state.active_sandboxes)
    pub official_kind :
        is_official_kind w.runtime_state.activity_kind ≡ true → is_some w.official_engine ≡ true
    pub local_race_kind :
        is_local_race_kind w.runtime_state.activity_kind ≡ true
        → is_some w.runtime_state.active_local_race ≡ true

  filled-upsert :
      (es : List EngineActiveSandboxState) (e : EngineActiveSandboxState)
      → is_empty (upsert_active_sandbox es e) ≡ false
  unfolding upsert_active_sandbox
  filled-upsert [] e = refl
  filled-upsert (x ∷ es) e = ground arith

  filled-set_preset :
      (id : String) (preset : EngineRuntimeTimeOfDayPreset) (es : List EngineActiveSandboxState)
      → is_empty (set_preset id preset es) ≡ is_empty es
  unfolding set_preset
  filled-set_preset id preset [] = refl
  filled-set_preset id preset (x ∷ es) = ground arith

  filled-set_weather_now :
      (id : String) (now : EngineRuntimeWeatherNow) (es : List EngineActiveSandboxState)
      → is_empty (set_weather_now id now es) ≡ is_empty es
  unfolding set_weather_now
  filled-set_weather_now id now [] = refl
  filled-set_weather_now id now (x ∷ es) = ground arith

  empty-remove :
      (id : String) (es : List EngineActiveSandboxState)
      → is_empty es ≡ true
      → is_empty (remove_active id es) ≡ true
  unfolding remove_active
  empty-remove id [] h = refl
  empty-remove id (x ∷ es) h = ground arith

  pub Step-Kinds : (v w : Worker) → Step v w → Kinds v → Kinds w
  unfolding switched sandbox_started sandbox_stopped preset_changed scheduled weather_changed
      race_started race_stopped bump drain_sandbox_engines insert_sandbox_engine
      insert_local_race_engine remove_sandbox_engine remove_local_race_engine is_sandbox_active
      forget_pending enter_kind enter_sandbox leave_sandbox_runtime fall_back is_race
      enter_local_race leave_local_race put_local_slot put_sandbox_slot is_sandbox_kind
      is_official_kind is_local_race_kind
  Step-Kinds v w (Step.to_none map_id preset e) t = ground arith
  Step-Kinds v w (Step.to_official map_id preset slot e) t = ground arith
  Step-Kinds v w (Step.start_sandbox id map_id preset slot filled given fresh e) t =
      let entry : EngineActiveSandboxState = record {
        sandbox_id = id;
        map_id = map_id;
        time_of_day_preset = preset;
        weather_now = none;
      } in
      ground (arith, filled-upsert v.runtime_state.active_sandboxes entry)
  Step-Kinds v w (Step.stop_sandbox id e) t =
      ground (arith, empty-remove id v.runtime_state.active_sandboxes)
  Step-Kinds v w (Step.change_preset id preset given active e) t =
      ground (arith, filled-set_preset id preset v.runtime_state.active_sandboxes)
  Step-Kinds v w (Step.change_weather id now e) t =
      ground (arith, filled-set_weather_now id now v.runtime_state.active_sandboxes)
  Step-Kinds v w (Step.schedule p payload e) t = ground arith
  Step-Kinds v w (Step.forget id e) t = ground arith
  Step-Kinds v w (Step.start_race race_id map_id preset slot filled given idle e) t = ground arith
  Step-Kinds v w (Step.stop_race race_id matches e) t = ground arith
  Step-Kinds v w (Step.bump_state e) t = ground arith
  Step-Kinds v w (Step.use_official old slot o e) t = ground arith
  Step-Kinds v w (Step.use_sandbox id handle slot g e) t = ground arith
  Step-Kinds v w (Step.use_race id handle slot g e) t = ground arith
