-- ===== src/Runtime/Events.antt =====
-- Every event of the loop of game-server/src/runtime/engine_worker.rs takes the worker along a
-- sequence of transitions, and what holds under transitions holds in every run.
use hack_arena3_0_backend.Common.Action.{and_then}
use hack_arena3_0_backend.Common.Dict
use hack_arena3_0_backend.Common.Dict.{string_eq}
use hack_arena3_0_backend.Common.Int.{ℤ}
use hack_arena3_0_backend.Common.{
  ◌≡◌, refl, subst, inl, inr, List, [], ◌∷◌, Option, none, some, String, Bool-cases,
}
use hack_arena3_0_backend.Runtime.Model.{
  EngineActivityKind, EngineApi, EnginePendingSandboxActivation, EngineWorldSlot,
  SandboxEngineHandle, Worker,
}
use hack_arena3_0_backend.Runtime.State.{M, is_sandbox_active}
use hack_arena3_0_backend.Runtime.Commands.{put_local_slot, put_sandbox_slot}
use hack_arena3_0_backend.Runtime.Loop.{
  execute_activation, execute_deactivation, execute_pending, execute_all,
  maybe_execute_due_pending_sandbox_activation, Event, Next, missing, Turn, goes_on, breaks,
  step_slot, weather_slot, turn_slot, tick_official, on_official_race, turn_handle, continue, tick,
  on_event, closes, run,
}
use hack_arena3_0_backend.Runtime.Steps
use hack_arena3_0_backend.Runtime.Steps.{
  Step, Steps, here, next, one, Steps-trans, with_state, weather_changed,
}
use hack_arena3_0_backend.Runtime.Outcomes.Switching.{switch_runtime-Outcome}
use hack_arena3_0_backend.Runtime.Outcomes.Sandboxes.{deactivate_sandbox-Outcome}
use hack_arena3_0_backend.Runtime.Trace.{Moved-Steps, then-Steps, handle_command-Steps}

module _ ⦃api : EngineApi⦄ where
  missing-Steps :
      {A B : Type 0} {v : Worker} (f : A → M B) (o : Option A) (message : String)
      → ((a : A) → Steps v (f a v).1)
      → Steps v (and_then (missing o message v) f).1
  unfolding and_then
  missing-Steps f none message k = here
  missing-Steps f (some a) message k = k a

  activation-Steps :
      (p : EnginePendingSandboxActivation) (v : Worker) → Steps v (execute_activation p v).1
  unfolding execute_activation and_then
  activation-Steps p v = missing-Steps _ p.map_id _ λ map_id.
      missing-Steps _ p.time_of_day_preset _ λ preset.
        missing-Steps _ p.ghost_mode_settings _ λ ghost.
          then-Steps _ _ (Moved-Steps (switch_runtime-Outcome _ _ map_id _ preset (some ghost) v))
            λ _ w. one (Steps.forget p.sandbox_id refl)

  deactivation-Steps :
      (p : EnginePendingSandboxActivation) (v : Worker) → Steps v (execute_deactivation p v).1
  unfolding execute_deactivation and_then
  deactivation-Steps p v =
      then-Steps _ _ (Moved-Steps (deactivate_sandbox-Outcome _ p.sandbox_id v))
        λ _ w. one (Steps.forget p.sandbox_id refl)

  execute_pending-Steps :
      (p : EnginePendingSandboxActivation) (v : Worker) → Steps v (execute_pending p v).1
  unfolding execute_pending
  execute_pending-Steps p v = elim (Bool-cases p.activate) [
    | inl e ↦ simp e (elim (Bool-cases (is_sandbox_active v.runtime_state p.sandbox_id)) [
      | inl active ↦ simp active (one (Steps.forget p.sandbox_id refl))
      | inr idle ↦ simp idle (activation-Steps p v)
    ])
    | inr e ↦ simp e (deactivation-Steps p v)
  ]

  execute_all-Steps :
      (ps : List EnginePendingSandboxActivation) (v : Worker) → Steps v (execute_all ps v).1
  unfolding execute_all
  execute_all-Steps [] v = here
  execute_all-Steps (p ∷ ps) v =
      then-Steps _ _ (execute_pending-Steps p v) λ _ w. execute_all-Steps ps w

  pub schedule-Steps :
      (now : ℤ) (v : Worker) → Steps v (maybe_execute_due_pending_sandbox_activation now v).1
  unfolding maybe_execute_due_pending_sandbox_activation
  schedule-Steps now v = execute_all-Steps _ v

  abbrev pub worker_of : Next → Worker
  worker_of (goes_on w) = w
  worker_of (breaks w) = w

  tick_official-Steps :
      (f : EngineWorldSlot → EngineWorldSlot) (kind : EngineActivityKind)
      (o : Option EngineWorldSlot) (v : Worker)
      → v.official_engine ≡ o
      → Steps v (record v { official_engine = on_official_race kind f o })
  unfolding on_official_race
  tick_official-Steps f EngineActivityKind.official_race (some slot) v e =
      one (Steps.use_official slot (f slot) e refl)
  tick_official-Steps f EngineActivityKind.official_race none v e = rw (← e) here
  tick_official-Steps f EngineActivityKind.none o v e = rw (← e) here
  tick_official-Steps f EngineActivityKind.local_race o v e = rw (← e) here
  tick_official-Steps f EngineActivityKind.sandbox o v e = rw (← e) here

  tick-Steps : (now : ℤ) (v : Worker) → Steps v (worker_of (tick now v))
  unfolding tick tick_official
  tick-Steps now v =
      elim (Bool-cases (
        closes v.runtime_state.activity_kind
          (on_official_race v.runtime_state.activity_kind step_slot v.official_engine))) [
            | inl e ↦ rw e official
            | inr e ↦ rw e (Steps-trans official (schedule-Steps now _))
          ]
    where
      official : Steps v (tick_official step_slot v)
      official =
          tick_official-Steps step_slot v.runtime_state.activity_kind v.official_engine v refl

  turn_sandbox-Steps :
      (id : String) (turn : Turn) (o : Option SandboxEngineHandle) (v : Worker)
      → Dict.get id v.sandbox_engines ≡ o
      → Steps v (turn_handle (put_sandbox_slot id) turn o v)
  unfolding turn_handle
  turn_sandbox-Steps id turn none v e = here
  turn_sandbox-Steps id turn (some handle) v e =
      one (Steps.use_sandbox id handle (turn_slot turn handle.slot) e refl)

  turn_race-Steps :
      (id : String) (turn : Turn) (o : Option SandboxEngineHandle) (v : Worker)
      → Dict.get id v.local_race_engines ≡ o
      → Steps v (turn_handle (put_local_slot id) turn o v)
  unfolding turn_handle
  turn_race-Steps id turn none v e = here
  turn_race-Steps id turn (some handle) v e =
      one (Steps.use_race id handle (turn_slot turn handle.slot) e refl)

  pub on_event-Steps : (e : Event) (v : Worker) → Steps v (worker_of (on_event e v))
  unfolding on_event
  on_event-Steps (Event.ticker now) v = tick-Steps now v
  on_event-Steps Event.weather_tick v =
      unfold tick_official in
      tick_official-Steps weather_slot v.runtime_state.activity_kind v.official_engine v refl
  on_event-Steps (Event.command now c) v =
      Steps-trans (handle_command-Steps c v) (schedule-Steps now _)
  on_event-Steps (Event.sandbox_turn id turn) v = turn_sandbox-Steps id turn _ v refl
  on_event-Steps (Event.local_race_turn id turn) v = turn_race-Steps id turn _ v refl
  on_event-Steps Event.shutdown v = here

  -- What every transition keeps holds of the worker in every run that goes on.
  pub Steps-keep :
      (P : Worker → Type 0)
      → ((v w : Worker) → Step v w → P v → P w)
      → {v w : Worker} → Steps v w
      → P v
      → P w
  Steps-keep P keep here p = p
  Steps-keep P keep (next s st) p = keep _ _ st (Steps-keep P keep s p)

  continue-keep :
      (P : Worker → Type 0) (rest : Worker → Next) (n : Next) {w : Worker}
      → ((u : Worker) → rest u ≡ goes_on w → P u → P w)
      → P (worker_of n)
      → continue rest n ≡ goes_on w
      → P w
  unfolding continue
  continue-keep P rest (goes_on u) k p e = k u e p
  continue-keep P rest (breaks u) k p e = cc

  pub run-keep :
      (P : Worker → Type 0)
      → ((v w : Worker) → Step v w → P v → P w)
      → (es : List Event) (v : Worker) {w : Worker} → P v
      → run es v ≡ goes_on w
      → P w
  unfolding run
  run-keep P keep [] v p e = subst P (cc) p
  run-keep P keep (x ∷ es) v p e =
      continue-keep P (run es) (on_event x v) (λ u e' p'. run-keep P keep es u p' e')
        (Steps-keep P keep (on_event-Steps x v) p) e
