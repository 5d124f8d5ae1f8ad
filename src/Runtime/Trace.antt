-- ===== src/Runtime/Trace.antt =====
-- Every command and every scheduled entry of game-server/src/runtime/engine_worker.rs takes the
-- worker along a sequence of transitions, also when it fails on the way.
use hack_arena3_0_backend.Common.Action.{and_then, lift}
use hack_arena3_0_backend.Common.Dict
use hack_arena3_0_backend.Common.Dict.{string_eq}
use hack_arena3_0_backend.Common.{
  ℕ, ◌≡◌, refl, Bool, true, false, not, Option, none, some, String, Result, ok, err, is_blank,
}
use hack_arena3_0_backend.Runtime.Model.{
  EngineCommandTarget, EngineRuntimeWeatherNow, EngineApi, EngineWorldSlot, SandboxEngineHandle,
  EngineRuntimeState, EngineWorkerError, Worker,
}
use hack_arena3_0_backend.Runtime.State.{M, require, is_sandbox_active, forget_pending}
use hack_arena3_0_backend.Runtime.Sandbox.{bump_if, cancel_pending_sandbox_activation}
use hack_arena3_0_backend.Runtime.LocalRace.{is_official_kind, is_race}
use hack_arena3_0_backend.Runtime.Commands.{
  EngineCommand, Reply, SlotOp, put_local_slot, put_sandbox_slot, on_handle, on_official,
  with_target_slot_mut, spawn_op, apply_weather, handle_command,
}
use hack_arena3_0_backend.Runtime.Steps
use hack_arena3_0_backend.Runtime.Steps.{
  Step, Steps, here, next, one, Steps-trans, with_state, weather_changed,
}
use hack_arena3_0_backend.Runtime.Outcomes.{
  Outcome, fails, ends, require_rule, revision_rule, Moved,
}
use hack_arena3_0_backend.Runtime.Outcomes.Switching.{switch_runtime-Outcome}
use hack_arena3_0_backend.Runtime.Outcomes.Sandboxes.{
  deactivate_sandbox-Outcome, set_runtime_time_of_day-Outcome,
  set_pending_sandbox_activation-Outcome,
}
use hack_arena3_0_backend.Runtime.Outcomes.LocalRaces.{
  activate_local_race-Outcome, deactivate_local_race-Outcome, bump_revision-Outcome,
}

module _ ⦃api : EngineApi⦄ where
  pub Moved-Steps :
      {n : ℕ} {v : Worker} {r : Result EngineWorkerError EngineRuntimeState × Worker}
      → Outcome (Moved n v) v r
      → Steps v r.1
  Moved-Steps (fails e) = here
  Moved-Steps (ends p) = one p.0

  -- What is sent back does not matter to the worker.
  reply-Steps :
      {A B : Type 0} {v : Worker} (f : A → B) (r : Result EngineWorkerError A × Worker)
      → Steps v r.1
      → Steps v (and_then r (λ a. lift (ok (f a)))).1
  unfolding and_then
  reply-Steps f (ok a, w) s = s
  reply-Steps f (err e, w) s = s

  cancel-Steps :
      (n : ℕ) (id : String) (v : Worker)
      → Outcome (λ _ w. Steps v w) v (cancel_pending_sandbox_activation n id v)
  unfolding cancel_pending_sandbox_activation and_then bump_if forget_pending
  cancel-Steps n id v =
      revision_rule _ n v λ _. require_rule _ (not (is_blank id)) _ v λ _. ends (canceled _)
    where
      canceled : (b : Bool) → Steps v (with_state (λ s. bump_if b (forget_pending id s)) v)
      canceled true = next (one (Steps.forget id refl)) (Steps.bump_state refl)
      canceled false = one (Steps.forget id refl)

  Outcome-Steps :
      {A : Type 0} {v : Worker} {r : Result EngineWorkerError A × Worker}
      → Outcome (λ _ w. Steps v w) v r
      → Steps v r.1
  Outcome-Steps (fails e) = here
  Outcome-Steps (ends s) = s

  on_official-Steps :
      {A : Type 0} (o : Option EngineWorldSlot) (op : SlotOp A) (v : Worker)
      → v.official_engine ≡ o
      → Steps v (on_official o op v).1
  unfolding on_official
  on_official-Steps none op v e = here
  on_official-Steps (some slot) op v e = one (Steps.use_official slot (op slot).1 e refl)

  on_sandbox-Steps :
      {A : Type 0} (id message : String) (o : Option SandboxEngineHandle) (op : SlotOp A)
      (v : Worker)
      → Dict.get id v.sandbox_engines ≡ o
      → Steps v (on_handle (put_sandbox_slot id) message o op v).1
  unfolding on_handle
  on_sandbox-Steps id message none op v e = here
  on_sandbox-Steps id message (some handle) op v e =
      one (Steps.use_sandbox id handle (op handle.slot).1 e refl)

  on_race-Steps :
      {A : Type 0} (id message : String) (o : Option SandboxEngineHandle) (op : SlotOp A)
      (v : Worker)
      → Dict.get id v.local_race_engines ≡ o
      → Steps v (on_handle (put_local_slot id) message o op v).1
  unfolding on_handle
  on_race-Steps id message none op v e = here
  on_race-Steps id message (some handle) op v e =
      one (Steps.use_race id handle (op handle.slot).1 e refl)

  required-Steps :
      {A : Type 0} {v : Worker} (f : Unit {0} → M A) (test : Bool) (message : String)
      → (test ≡ true → Steps v (f tt v).1)
      → Steps v (and_then (require test message v) f).1
  unfolding and_then require
  required-Steps f true message k = k refl
  required-Steps f false message k = here

  pub with_target-Steps :
      {A : Type 0} (target : EngineCommandTarget) (op : SlotOp A) (v : Worker)
      → Steps v (with_target_slot_mut target op v).1
  unfolding with_target_slot_mut and_then
  with_target-Steps EngineCommandTarget.official_race op v =
      required-Steps _ (is_official_kind v.runtime_state.activity_kind) _
        λ _. on_official-Steps v.official_engine op v refl
  with_target-Steps (EngineCommandTarget.local_race id) op v =
      required-Steps _ (not (is_blank id)) _ λ _.
        required-Steps _ (is_race id v.runtime_state.active_local_race) _
          λ _. on_race-Steps id _ (Dict.get id v.local_race_engines) op v refl
  with_target-Steps (EngineCommandTarget.sandbox id) op v =
      required-Steps _ (not (is_blank id)) _
        λ _. on_sandbox-Steps id _ (Dict.get id v.sandbox_engines) op v refl

  -- What follows a call takes the worker further, from where the call left it.
  pub then-Steps :
      {A B : Type 0} {v : Worker} (f : A → M B) (r : Result EngineWorkerError A × Worker)
      → Steps v r.1
      → ((a : A) (w : Worker) → Steps w (f a w).1)
      → Steps v (and_then r f).1
  unfolding and_then
  then-Steps f (ok a, w) s k = Steps-trans s (k a w)
  then-Steps f (err e, w) s k = s

  apply_weather-Steps :
      (id : String) (weather : api.WeatherParams) (now : EngineRuntimeWeatherNow) (v : Worker)
      → Steps v (apply_weather id weather now v).1
  unfolding apply_weather weather_changed
  apply_weather-Steps id weather now v =
      then-Steps _ _ (with_target-Steps (EngineCommandTarget.sandbox id) _ v) λ _ w.
        unfold and_then in
        required-Steps _ (is_sandbox_active w.runtime_state id) _
          λ _. one (Steps.change_weather id now refl)

  pub handle_command-Steps : (c : EngineCommand) (v : Worker) → Steps v (handle_command c v).1
  unfolding handle_command
  handle_command-Steps (EngineCommand.spawn_car t) v = with_target-Steps t spawn_op v
  handle_command-Steps (EngineCommand.set_controls t n c) v = with_target-Steps t _ v
  handle_command-Steps (EngineCommand.read_car_state t n) v = with_target-Steps t _ v
  handle_command-Steps (EngineCommand.read_car_race_metrics t n) v = with_target-Steps t _ v
  handle_command-Steps (EngineCommand.read_car_dimensions t n) v = with_target-Steps t _ v
  handle_command-Steps (EngineCommand.set_car_back_to_track t n) v = with_target-Steps t _ v
  handle_command-Steps (EngineCommand.set_car_before_finish_line t n) v = with_target-Steps t _ v
  handle_command-Steps (EngineCommand.set_car_random_on_track t n) v = with_target-Steps t _ v
  handle_command-Steps (EngineCommand.set_car_at_start_pos t n i) v = with_target-Steps t _ v
  handle_command-Steps (EngineCommand.set_car_to_pitstop t n) v = with_target-Steps t _ v
  handle_command-Steps (EngineCommand.set_car_tyre_type t n y) v = with_target-Steps t _ v
  handle_command-Steps (EngineCommand.force_set_car_tyre_type t n y) v = with_target-Steps t _ v
  handle_command-Steps (EngineCommand.get_number_of_start_pos t) v = with_target-Steps t _ v
  handle_command-Steps (EngineCommand.get_track_data t) v = with_target-Steps t _ v
  handle_command-Steps (EngineCommand.get_race_duration t) v = with_target-Steps t _ v
  handle_command-Steps EngineCommand.get_runtime_state v = here
  handle_command-Steps (EngineCommand.switches_runtime n kind map_id id preset ghost) v =
      unfold and_then in
      (reply-Steps Reply.runtime _
        (Moved-Steps (switch_runtime-Outcome n kind map_id id _ ghost v)))
  handle_command-Steps (EngineCommand.sets_runtime_time_of_day n id preset) v =
      reply-Steps Reply.runtime _ (Moved-Steps (set_runtime_time_of_day-Outcome n id preset v))
  handle_command-Steps (EngineCommand.sets_pending_sandbox_activation n p) v =
      reply-Steps Reply.runtime _ (Moved-Steps (set_pending_sandbox_activation-Outcome n p v))
  handle_command-Steps (EngineCommand.cancels_pending_sandbox_activation n id) v =
      reply-Steps Reply.canceled _ (Outcome-Steps (cancel-Steps n id v))
  handle_command-Steps (EngineCommand.deactivates_sandbox n id) v =
      reply-Steps Reply.runtime _ (Moved-Steps (deactivate_sandbox-Outcome n id v))
  handle_command-Steps (EngineCommand.activates_local_race n id map_id preset ghost) v =
      reply-Steps Reply.runtime _
        (Moved-Steps (activate_local_race-Outcome n id map_id preset ghost v))
  handle_command-Steps (EngineCommand.deactivates_local_race n id) v =
      reply-Steps Reply.runtime _ (Moved-Steps (deactivate_local_race-Outcome n id v))
  handle_command-Steps (EngineCommand.bumps_revision n) v =
      reply-Steps Reply.runtime _ (Moved-Steps (bump_revision-Outcome n v))
  handle_command-Steps (EngineCommand.set_ghost_mode_settings t g) v = with_target-Steps t _ v
  handle_command-Steps (EngineCommand.set_weather id weather now) v =
      apply_weather-Steps id weather now v
  handle_command-Steps (EngineCommand.despawn_car t n) v = with_target-Steps t _ v
