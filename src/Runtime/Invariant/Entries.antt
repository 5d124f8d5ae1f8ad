-- ===== src/Runtime/Invariant/Entries.antt =====
-- What the entries of the runtime state of game-server/src/runtime/engine_worker.rs carry: names
-- that are not blank, times of day that are specified, and whole payloads in the schedule.
use hack_arena3_0_backend.Common.{
  ◌≡◌, refl, false, List, [], ◌∷◌, Option, none, some, String, arith, is_blank, ◌=ₛ◌, =ₛ_iff, All,
  Bool-cases, inl, inr,
}
use hack_arena3_0_backend.Runtime.Model.{
  EngineApi, EngineRuntimeTimeOfDayPreset, EngineRuntimeWeatherNow, EngineActiveSandboxState,
  EnginePendingSandboxActivation, EngineActiveLocalRaceState, Worker,
}
use hack_arena3_0_backend.Runtime.State.{
  bump, drain_sandbox_engines, insert_sandbox_engine, insert_local_race_engine,
  remove_sandbox_engine, remove_local_race_engine, drop_pending, forget_pending, remove_active,
  is_unspecified, upsert_active_sandbox,
}
use hack_arena3_0_backend.Runtime.Switch.{enter_kind, enter_sandbox}
use hack_arena3_0_backend.Runtime.Sandbox.{
  leave_sandbox_runtime, fall_back, set_preset, upsert_pending,
}
use hack_arena3_0_backend.Runtime.LocalRace.{enter_local_race, leave_local_race}
use hack_arena3_0_backend.Runtime.Commands.{put_local_slot, put_sandbox_slot, set_weather_now}
use hack_arena3_0_backend.Runtime.Steps.{
  switched, sandbox_started, sandbox_stopped, preset_changed, scheduled, weather_changed,
  race_started, race_stopped, Step, IsPayload,
}
use hack_arena3_0_backend.Runtime.Names.{member, Distinct, add, add-Distinct}

module _ ⦃api : EngineApi⦄ where
  abbrev pub IsActiveEntry : EngineActiveSandboxState → Type 0
  IsActiveEntry e = (is_blank e.sandbox_id ≡ false) × (is_unspecified e.time_of_day_preset ≡ false)

  abbrev pub IsRaceEntry : Option EngineActiveLocalRaceState → Type 0
  IsRaceEntry none = Unit
  IsRaceEntry (some race) =
      (is_blank race.race_id ≡ false) × (is_unspecified race.time_of_day_preset ≡ false)

  abbrev pub pending_ids : List EnginePendingSandboxActivation → List String
  pending_ids [] = []
  pending_ids (p ∷ ps) = p.sandbox_id ∷ pending_ids ps

  pub record Entries (w : Worker) : Type 0 where
    pub active : All IsActiveEntry w.runtime_state.active_sandboxes
    pub race : IsRaceEntry w.runtime_state.active_local_race
    pub pending : All IsPayload w.runtime_state.pending_sandbox_activations
    pub distinct : Distinct (pending_ids w.runtime_state.pending_sandbox_activations)

  All-upsert_active :
      (es : List EngineActiveSandboxState) (e : EngineActiveSandboxState)
      → IsActiveEntry e
      → All IsActiveEntry es
      → All IsActiveEntry (upsert_active_sandbox es e)
  unfolding upsert_active_sandbox
  All-upsert_active [] e h a = (h, tt)
  All-upsert_active (x ∷ es) e h a = ground (arith, All-upsert_active es e h a.1)

  All-remove_active :
      (id : String) (es : List EngineActiveSandboxState)
      → All IsActiveEntry es
      → All IsActiveEntry (remove_active id es)
  unfolding remove_active
  All-remove_active id [] a = tt
  All-remove_active id (x ∷ es) a = ground (arith, All-remove_active id es a.1)

  All-set_preset :
      (id : String) (preset : EngineRuntimeTimeOfDayPreset) (es : List EngineActiveSandboxState)
      → is_unspecified preset ≡ false
      → All IsActiveEntry es
      → All IsActiveEntry (set_preset id preset es)
  unfolding set_preset
  All-set_preset id preset [] h a = tt
  All-set_preset id preset (x ∷ es) h a = ground (arith, All-set_preset id preset es h a.1)

  All-set_weather_now :
      (id : String) (now : EngineRuntimeWeatherNow) (es : List EngineActiveSandboxState)
      → All IsActiveEntry es
      → All IsActiveEntry (set_weather_now id now es)
  unfolding set_weather_now
  All-set_weather_now id now [] a = tt
  All-set_weather_now id now (x ∷ es) a = ground (arith, All-set_weather_now id now es a.1)

  All-drop_pending :
      (id : String) (ps : List EnginePendingSandboxActivation)
      → All IsPayload ps
      → All IsPayload (drop_pending id ps)
  unfolding drop_pending
  All-drop_pending id [] a = tt
  All-drop_pending id (p ∷ ps) a = ground (arith, All-drop_pending id ps a.1)

  All-upsert_pending :
      (p : EnginePendingSandboxActivation) (ps : List EnginePendingSandboxActivation)
      → IsPayload p
      → All IsPayload ps
      → All IsPayload (upsert_pending p ps)
  unfolding upsert_pending
  All-upsert_pending p [] h a = (h, tt)
  All-upsert_pending p (q ∷ ps) h a = elim (Bool-cases (q.sandbox_id =ₛ p.sandbox_id)) [
    | inl e ↦ rw e (h, a.1)
    | inr e ↦ rw e (a.0, All-upsert_pending p ps h a.1)
  ]

  member-drop_pending :
      (id j : String) (ps : List EnginePendingSandboxActivation)
      → member j (pending_ids ps) ≡ false
      → member j (pending_ids (drop_pending id ps)) ≡ false
  unfolding drop_pending
  member-drop_pending id j [] h = refl
  member-drop_pending id j (p ∷ ps) h = ground (arith, member-drop_pending id j ps)

  Distinct-drop_pending :
      (id : String) (ps : List EnginePendingSandboxActivation)
      → Distinct (pending_ids ps)
      → Distinct (pending_ids (drop_pending id ps))
  unfolding drop_pending
  Distinct-drop_pending id [] d = tt
  Distinct-drop_pending id (p ∷ ps) d =
      ground (arith, Distinct-drop_pending id ps d.1, member-drop_pending id p.sandbox_id ps d.0)

  pending_ids-upsert :
      (p : EnginePendingSandboxActivation) (ps : List EnginePendingSandboxActivation)
      → pending_ids (upsert_pending p ps) ≡ add p.sandbox_id (pending_ids ps)
  unfolding upsert_pending add
  pending_ids-upsert p [] = refl
  pending_ids-upsert p (q ∷ ps) =
      ground (arith, pending_ids-upsert p ps, =ₛ_iff q.sandbox_id p.sandbox_id)

  Distinct-upsert_pending :
      (p : EnginePendingSandboxActivation) (ps : List EnginePendingSandboxActivation)
      → Distinct (pending_ids ps)
      → Distinct (pending_ids (upsert_pending p ps))
  Distinct-upsert_pending p ps d = rw (pending_ids-upsert p ps) (add-Distinct p.sandbox_id _ d)

  pub Step-Entries : (v w : Worker) → Step v w → Entries v → Entries w
  unfolding switched sandbox_started sandbox_stopped preset_changed scheduled weather_changed
      race_started race_stopped bump drain_sandbox_engines insert_sandbox_engine
      insert_local_race_engine remove_sandbox_engine remove_local_race_engine forget_pending
      enter_kind enter_sandbox leave_sandbox_runtime fall_back enter_local_race leave_local_race
      put_local_slot put_sandbox_slot
  Step-Entries v w (Step.to_none map_id preset e) t = ground arith
  Step-Entries v w (Step.to_official map_id preset slot e) t = ground arith
  Step-Entries v w (Step.start_sandbox id map_id preset slot filled given fresh e) t =
      rw e (record {
        active = All-upsert_active v.runtime_state.active_sandboxes _ (filled, given) t.active;
        race = t.race;
        pending = All-drop_pending id v.runtime_state.pending_sandbox_activations t.pending;
        distinct = Distinct-drop_pending id v.runtime_state.pending_sandbox_activations t.distinct;
      })
  Step-Entries v w (Step.stop_sandbox id e) t = ground (
    arith,
    All-remove_active id v.runtime_state.active_sandboxes t.active,
    All-drop_pending id v.runtime_state.pending_sandbox_activations t.pending,
    Distinct-drop_pending id v.runtime_state.pending_sandbox_activations t.distinct,
  )
  Step-Entries v w (Step.change_preset id preset given active e) t =
      ground (arith, All-set_preset id preset v.runtime_state.active_sandboxes given t.active)
  Step-Entries v w (Step.change_weather id now e) t =
      ground (arith, All-set_weather_now id now v.runtime_state.active_sandboxes t.active)
  Step-Entries v w (Step.schedule p payload e) t = rw e (record {
    active = t.active;
    race = t.race;
    pending = All-upsert_pending p v.runtime_state.pending_sandbox_activations payload t.pending;
    distinct = Distinct-upsert_pending p v.runtime_state.pending_sandbox_activations t.distinct;
  })
  Step-Entries v w (Step.forget id e) t = rw e (record {
    active = t.active;
    race = t.race;
    pending = All-drop_pending id v.runtime_state.pending_sandbox_activations t.pending;
    distinct = Distinct-drop_pending id v.runtime_state.pending_sandbox_activations t.distinct;
  })
  Step-Entries v w (Step.start_race race_id map_id preset slot filled given idle e) t = ground arith
  Step-Entries v w (Step.stop_race race_id matches e) t = ground arith
  Step-Entries v w (Step.bump_state e) t = ground arith
  Step-Entries v w (Step.use_official old slot o e) t = ground arith
  Step-Entries v w (Step.use_sandbox id handle slot g e) t = ground arith
  Step-Entries v w (Step.use_race id handle slot g e) t = ground arith
