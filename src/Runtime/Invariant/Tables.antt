-- ===== src/Runtime/Invariant/Tables.antt =====
-- The worlds that exist are those that the runtime state of
-- game-server/src/runtime/engine_worker.rs names: one for each active sandbox, and one for the
-- active local race.
use hack_arena3_0_backend.Common.Dict.{string_eq}
use hack_arena3_0_backend.Common.{◌≡◌, sym, ap, ◌∙◌, true, none, String, arith}
use hack_arena3_0_backend.Runtime.Model.{
  EngineApi, EngineRuntimeTimeOfDayPreset, EngineWorldSlot, SandboxEngineHandle, Worker,
}
use hack_arena3_0_backend.Runtime.State.{
  bump, drain_sandbox_engines, insert_sandbox_engine, insert_local_race_engine,
  remove_sandbox_engine, remove_local_race_engine, forget_pending, remove_active,
}
use hack_arena3_0_backend.Runtime.Switch.{enter_kind, enter_sandbox}
use hack_arena3_0_backend.Runtime.Sandbox.{leave_sandbox_runtime, fall_back}
use hack_arena3_0_backend.Runtime.LocalRace.{is_race, enter_local_race, leave_local_race}
use hack_arena3_0_backend.Runtime.Commands.{put_local_slot, put_sandbox_slot}
use hack_arena3_0_backend.Runtime.Steps
use hack_arena3_0_backend.Runtime.Steps.{
  switched, sandbox_started, sandbox_stopped, preset_changed, scheduled, weather_changed,
  race_started, race_stopped, Step,
}
use hack_arena3_0_backend.Runtime.Names.{
  keys, add, del, Distinct, add-same, add-Distinct, del-Distinct, keys-insert, keys-remove,
  member-keys, ids, race_ids, ids-upsert, ids-remove, ids-set_preset, ids-set_weather_now,
}

module _ ⦃api : EngineApi⦄ where
  pub record Tables (w : Worker) : Type 0 where
    pub sandboxes : keys w.sandbox_engines ≡ ids w.runtime_state.active_sandboxes
    pub races : keys w.local_race_engines ≡ race_ids w.runtime_state.active_local_race
    pub distinct : Distinct (keys w.sandbox_engines)

  sandbox_started-Tables :
      (id map_id : String) (preset : EngineRuntimeTimeOfDayPreset) (slot : EngineWorldSlot)
      (v : Worker)
      → Tables v
      → Tables (sandbox_started id map_id preset slot v)
  unfolding sandbox_started enter_sandbox forget_pending bump insert_sandbox_engine
  sandbox_started-Tables id map_id preset slot v t = record {
    sandboxes =
        keys-insert id _ v.sandbox_engines
        ∙ ap (add id) t.sandboxes
        ∙ sym (ids-upsert v.runtime_state.active_sandboxes _);
    races = t.races;
    distinct =
        rw (keys-insert id _ v.sandbox_engines)
          (add-Distinct id (keys v.sandbox_engines) t.distinct);
  }

  left_sandbox-Tables : (v : Worker) → Tables v → Tables (leave_sandbox_runtime v)
  unfolding leave_sandbox_runtime fall_back
  left_sandbox-Tables v t = ground arith

  sandbox_stopped-Tables : (id : String) (v : Worker) → Tables v → Tables (sandbox_stopped id v)
  unfolding sandbox_stopped forget_pending bump remove_sandbox_engine
  sandbox_stopped-Tables id v t = ground (arith, left_sandbox-Tables _ removed)
    where
      removed : Tables (
          Steps.with_state (forget_pending id) (
            remove_sandbox_engine id (
              Steps.with_state
                (λ s. record s { active_sandboxes = remove_active id s.active_sandboxes })
                v)))
      removed = record {
        sandboxes =
            keys-remove id v.sandbox_engines
            ∙ ap (del id) t.sandboxes
            ∙ sym (ids-remove id v.runtime_state.active_sandboxes);
        races = t.races;
        distinct =
            rw (keys-remove id v.sandbox_engines)
              (del-Distinct id (keys v.sandbox_engines) t.distinct);
      }

  race_started-Tables :
      (race_id map_id : String) (preset : EngineRuntimeTimeOfDayPreset) (slot : EngineWorldSlot)
      (v : Worker)
      → v.runtime_state.active_local_race ≡ none
      → Tables v
      → Tables (race_started race_id map_id preset slot v)
  unfolding race_started enter_local_race bump insert_local_race_engine add
  race_started-Tables race_id map_id preset slot v idle t =
      let handle : SandboxEngineHandle = record { slot = slot; step_task = v.next_task } in
      ground (arith, keys-insert race_id handle v.local_race_engines)

  race_stopped-Tables :
      (race_id : String) (v : Worker)
      → is_race race_id v.runtime_state.active_local_race ≡ true
      → Tables v
      → Tables (race_stopped race_id v)
  unfolding race_stopped leave_local_race bump remove_local_race_engine is_race del
  race_stopped-Tables race_id v matches t = ground (arith, keys-remove race_id v.local_race_engines)

  pub Step-Tables : (v w : Worker) → Step v w → Tables v → Tables w
  unfolding switched preset_changed scheduled weather_changed bump drain_sandbox_engines
      forget_pending enter_kind put_local_slot put_sandbox_slot
  Step-Tables v w (Step.to_none map_id preset e) t = ground arith
  Step-Tables v w (Step.to_official map_id preset slot e) t = ground arith
  Step-Tables v w (Step.start_sandbox id map_id preset slot filled given fresh e) t =
      rw e (sandbox_started-Tables id map_id preset slot v t)
  Step-Tables v w (Step.stop_sandbox id e) t = rw e (sandbox_stopped-Tables id v t)
  Step-Tables v w (Step.change_preset id preset given active e) t =
      ground (arith, ids-set_preset id preset v.runtime_state.active_sandboxes)
  Step-Tables v w (Step.change_weather id now e) t =
      ground (arith, ids-set_weather_now id now v.runtime_state.active_sandboxes)
  Step-Tables v w (Step.schedule p payload e) t = ground arith
  Step-Tables v w (Step.forget id e) t = ground arith
  Step-Tables v w (Step.start_race race_id map_id preset slot filled given idle e) t =
      rw e (race_started-Tables race_id map_id preset slot v idle t)
  Step-Tables v w (Step.stop_race race_id matches e) t =
      rw e (race_stopped-Tables race_id v matches t)
  Step-Tables v w (Step.bump_state e) t = ground arith
  Step-Tables v w (Step.use_official old slot o e) t = ground arith
  Step-Tables v w (Step.use_sandbox id handle slot g e) t = ground (
    arith,
    keys-insert id (record handle { slot = slot }) v.sandbox_engines,
    add-same id (keys v.sandbox_engines),
    member-keys id v.sandbox_engines,
  )
  Step-Tables v w (Step.use_race id handle slot g e) t = ground (
    arith,
    keys-insert id (record handle { slot = slot }) v.local_race_engines,
    add-same id (keys v.local_race_engines),
    member-keys id v.local_race_engines,
  )
