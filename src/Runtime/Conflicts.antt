-- ===== src/Runtime/Conflicts.antt =====
-- Conflicts on the revision of game-server/src/runtime/engine_worker.rs: stale commands, two
-- commands for one revision, and the revision over a whole run.
use hack_arena3_0_backend.Runtime.LocalRace.{bump_revision}
use hack_arena3_0_backend.Runtime.LocalRace.{deactivate_local_race}
use hack_arena3_0_backend.Runtime.LocalRace.{activate_local_race}
use hack_arena3_0_backend.Runtime.Sandbox.{deactivate_sandbox}
use hack_arena3_0_backend.Runtime.Sandbox.{set_pending_sandbox_activation}
use hack_arena3_0_backend.Runtime.Sandbox.{set_runtime_time_of_day}
use hack_arena3_0_backend.Runtime.Switch.{switch_runtime}
use hack_arena3_0_backend.Common.Action.{and_then}
use hack_arena3_0_backend.Common.{
  ℕ, ◌+◌, ◌<◌, ◌≤◌, ◌≡◌, ◌≢◌, List, some, Result, ok, err, arith, u64_max,
}
use hack_arena3_0_backend.Runtime.Model.{EngineApi, EngineWorkerError, Worker}
use hack_arena3_0_backend.Runtime.State.{check_revision, bump, forget_pending}
use hack_arena3_0_backend.Runtime.Sandbox.{cancel_pending_sandbox_activation}
use hack_arena3_0_backend.Runtime.Commands.{EngineCommand, Reply, handle_command}
use hack_arena3_0_backend.Runtime.Outcomes.{Outcome, fails, ends}
use hack_arena3_0_backend.Runtime.Revisions.{
  expected_revision, Applied, handle_command-compare_and_swap,
}
use hack_arena3_0_backend.Runtime.Loop.{Event, goes_on, run}
use hack_arena3_0_backend.Runtime.Events.{run-keep}
use hack_arena3_0_backend.Runtime.Steps.{
  Step, switched, with_task, sandbox_started, sandbox_stopped, preset_changed, scheduled,
  weather_changed, race_started, race_stopped,
}
use hack_arena3_0_backend.Runtime.State.{
  drain_sandbox_engines, insert_sandbox_engine, insert_local_race_engine, remove_sandbox_engine,
  remove_local_race_engine,
}
use hack_arena3_0_backend.Runtime.Switch.{enter_kind, enter_sandbox}
use hack_arena3_0_backend.Runtime.Sandbox.{leave_sandbox_runtime, fall_back}
use hack_arena3_0_backend.Runtime.LocalRace.{enter_local_race, leave_local_race}
use hack_arena3_0_backend.Runtime.Commands.{put_local_slot, put_sandbox_slot}

module _ ⦃api : EngineApi⦄ where
  check-stale :
      (n : ℕ) (v : Worker)
      → v.runtime_state.revision ≢ n
      → check_revision n v
        ≡ (err (EngineWorkerError.revision_mismatch n v.runtime_state.revision), v)
  unfolding check_revision
  check-stale n v differs = ground arith

  -- A command whose expected revision is not the one that stands is refused with both revisions,
  -- before anything else is looked at, and the worker stays as it was.
  pub handle_command-stale :
      (c : EngineCommand) (n : ℕ) (v : Worker)
      → expected_revision c ≡ some n
      → v.runtime_state.revision ≢ n
      → handle_command c v
        ≡ (err (EngineWorkerError.revision_mismatch n v.runtime_state.revision), v)
  unfolding handle_command expected_revision and_then switch_runtime set_runtime_time_of_day
      set_pending_sandbox_activation cancel_pending_sandbox_activation deactivate_sandbox
      activate_local_race deactivate_local_race bump_revision
  handle_command-stale (EngineCommand.switches_runtime n kind map_id id preset ghost) m v e
        differs =
      rw (check-stale n v (λ same. differs (ground arith))) (ground arith)
  handle_command-stale (EngineCommand.sets_runtime_time_of_day n id preset) m v e differs =
      rw (check-stale n v (λ same. differs (ground arith))) (ground arith)
  handle_command-stale (EngineCommand.sets_pending_sandbox_activation n p) m v e differs =
      rw (check-stale n v (λ same. differs (ground arith))) (ground arith)
  handle_command-stale (EngineCommand.cancels_pending_sandbox_activation n id) m v e differs =
      rw (check-stale n v (λ same. differs (ground arith))) (ground arith)
  handle_command-stale (EngineCommand.deactivates_sandbox n id) m v e differs =
      rw (check-stale n v (λ same. differs (ground arith))) (ground arith)
  handle_command-stale (EngineCommand.activates_local_race n id map_id preset ghost) m v e differs =
      rw (check-stale n v (λ same. differs (ground arith))) (ground arith)
  handle_command-stale (EngineCommand.deactivates_local_race n id) m v e differs =
      rw (check-stale n v (λ same. differs (ground arith))) (ground arith)
  handle_command-stale (EngineCommand.bumps_revision n) m v e differs =
      rw (check-stale n v (λ same. differs (ground arith))) (ground arith)
  handle_command-stale (EngineCommand.spawn_car t) m v e differs = cc
  handle_command-stale (EngineCommand.set_controls t i c) m v e differs = cc
  handle_command-stale (EngineCommand.read_car_state t i) m v e differs = cc
  handle_command-stale (EngineCommand.read_car_race_metrics t i) m v e differs = cc
  handle_command-stale (EngineCommand.read_car_dimensions t i) m v e differs = cc
  handle_command-stale (EngineCommand.set_car_back_to_track t i) m v e differs = cc
  handle_command-stale (EngineCommand.set_car_before_finish_line t i) m v e differs = cc
  handle_command-stale (EngineCommand.set_car_random_on_track t i) m v e differs = cc
  handle_command-stale (EngineCommand.set_car_at_start_pos t i j) m v e differs = cc
  handle_command-stale (EngineCommand.set_car_to_pitstop t i) m v e differs = cc
  handle_command-stale (EngineCommand.set_car_tyre_type t i y) m v e differs = cc
  handle_command-stale (EngineCommand.force_set_car_tyre_type t i y) m v e differs = cc
  handle_command-stale (EngineCommand.get_number_of_start_pos t) m v e differs = cc
  handle_command-stale (EngineCommand.get_track_data t) m v e differs = cc
  handle_command-stale (EngineCommand.get_race_duration t) m v e differs = cc
  handle_command-stale EngineCommand.get_runtime_state m v e differs = cc
  handle_command-stale (EngineCommand.set_ghost_mode_settings t g) m v e differs = cc
  handle_command-stale (EngineCommand.set_weather id weather now) m v e differs = cc
  handle_command-stale (EngineCommand.despawn_car t i) m v e differs = cc

  next_revision :
      (n : ℕ) (v w : Worker) {q : Result EngineWorkerError Reply × Worker} {r : Reply}
      → Outcome (Applied n v) v q
      → q ≡ (ok r, w)
      → w ≢ v
      → n < u64_max
      → w.runtime_state.revision ≡ n + 1
  next_revision n v w (fails e) same moved small = ground arith
  next_revision n v w (ends a) same moved small = ground arith

  -- Of two commands for the same revision, the second is refused when the first has changed
  -- anything, as long as the revision is below the bound of u64.
  pub handle_command-exclusive :
      (c d : EngineCommand) (n : ℕ) (v w : Worker) {r : Reply}
      → expected_revision c ≡ some n
      → expected_revision d ≡ some n
      → handle_command c v ≡ (ok r, w)
      → w ≢ v
      → n < u64_max
      → handle_command d w ≡ (err (EngineWorkerError.revision_mismatch n (n + 1)), w)
  handle_command-exclusive c d n v w ec ed same moved small =
      let next = next_revision n v w (handle_command-compare_and_swap c n v ec) same moved small in
      rw (← next) (handle_command-stale d n w ed (omega (arith, next)))

  abbrev Between : ℕ → Worker → Type 0
  Between n w = (n ≤ w.runtime_state.revision) × (w.runtime_state.revision ≤ u64_max)

  Step-Between : (n : ℕ) (v w : Worker) → Step v w → Between n v → Between n w
  unfolding switched sandbox_started sandbox_stopped preset_changed scheduled weather_changed
      race_started race_stopped bump drain_sandbox_engines enter_kind enter_sandbox forget_pending
      leave_sandbox_runtime fall_back enter_local_race leave_local_race insert_sandbox_engine
      insert_local_race_engine remove_sandbox_engine remove_local_race_engine put_local_slot
      put_sandbox_slot with_task
  Step-Between n v w (Step.to_none map_id preset e) b = ground arith
  Step-Between n v w (Step.to_official map_id preset slot e) b = ground arith
  Step-Between n v w (Step.start_sandbox id map_id preset slot filled given fresh e) b =
      ground arith
  Step-Between n v w (Step.stop_sandbox id e) b = ground arith
  Step-Between n v w (Step.change_preset id preset given active e) b = ground arith
  Step-Between n v w (Step.change_weather id now e) b = ground arith
  Step-Between n v w (Step.schedule p payload e) b = ground arith
  Step-Between n v w (Step.forget id e) b = ground arith
  Step-Between n v w (Step.start_race race_id map_id preset slot filled given idle e) b =
      ground arith
  Step-Between n v w (Step.stop_race race_id matches e) b = ground arith
  Step-Between n v w (Step.bump_state e) b = ground arith
  Step-Between n v w (Step.use_official old slot o e) b = ground arith
  Step-Between n v w (Step.use_sandbox id handle slot g e) b = ground arith
  Step-Between n v w (Step.use_race id handle slot g e) b = ground arith

  -- Over any run that goes on, from any worker whose revision fits u64, the revision never falls
  -- and still fits u64.
  pub run-revision :
      (es : List Event) (v : Worker) {w : Worker}
      → v.runtime_state.revision ≤ u64_max
      → run es v ≡ goes_on w
      → (v.runtime_state.revision ≤ w.runtime_state.revision) × (w.runtime_state.revision ≤ u64_max)
  run-revision es v small e =
      run-keep (Between v.runtime_state.revision) (Step-Between v.runtime_state.revision) es v
        (omega arith, small) e
