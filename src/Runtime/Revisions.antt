-- ===== src/Runtime/Revisions.antt =====
-- The revision of game-server/src/runtime/engine_worker.rs: the commands that carry an expected
-- revision are compare-and-swap operations on the worker.
use hack_arena3_0_backend.Common.Action.{and_then, lift}
use hack_arena3_0_backend.Common.{
  ℕ, ◌≤◌, ◌≡◌, ◌⊎◌, refl, subst, ap, inl, inr, not, List, [], ◌∷◌, Option, none, some, String,
  Result, ok, arith, ◌==◌, ==_iff, Bool-cases, is_blank, length, saturating_add,
}
use hack_arena3_0_backend.Runtime.Model.{
  EngineApi, EnginePendingSandboxActivation, EngineRuntimeState, EngineWorkerError, Worker,
}
use hack_arena3_0_backend.Runtime.State.{bump, drop_pending, forget_pending}
use hack_arena3_0_backend.Runtime.Sandbox.{bump_if, cancel_pending_sandbox_activation}
use hack_arena3_0_backend.Runtime.Commands.{EngineCommand, Reply, handle_command}
use hack_arena3_0_backend.Runtime.Steps.{with_state}
use hack_arena3_0_backend.Runtime.Outcomes.{
  Outcome, ends, bind_rule, require_rule, revision_rule, Moved,
}
use hack_arena3_0_backend.Runtime.Outcomes.Switching.{switch_runtime-Outcome}
use hack_arena3_0_backend.Runtime.Outcomes.Sandboxes.{
  deactivate_sandbox-Outcome, set_runtime_time_of_day-Outcome,
  set_pending_sandbox_activation-Outcome,
}
use hack_arena3_0_backend.Runtime.Outcomes.LocalRaces.{
  activate_local_race-Outcome, deactivate_local_race-Outcome, bump_revision-Outcome,
}

module _ ⦃api : EngineApi⦄ where
  -- The field `expected_revision` of the commands that have it.
  unfoldable pub expected_revision : EngineCommand → Option ℕ
  expected_revision (EngineCommand.switches_runtime n kind map_id id preset ghost) = some n
  expected_revision (EngineCommand.sets_runtime_time_of_day n id preset) = some n
  expected_revision (EngineCommand.sets_pending_sandbox_activation n p) = some n
  expected_revision (EngineCommand.cancels_pending_sandbox_activation n id) = some n
  expected_revision (EngineCommand.deactivates_sandbox n id) = some n
  expected_revision (EngineCommand.activates_local_race n id map_id preset ghost) = some n
  expected_revision (EngineCommand.deactivates_local_race n id) = some n
  expected_revision (EngineCommand.bumps_revision n) = some n
  expected_revision _ = none

  -- The runtime state that a reply carries.
  unfoldable pub replied_state : Reply → Option EngineRuntimeState
  replied_state (Reply.runtime s) = some s
  replied_state (Reply.canceled r) = some r.0
  replied_state _ = none

  -- The command was for the revision that stood, answers with the state it left, and either moved
  -- the revision by one or did nothing.
  abbrev pub Applied : ℕ → Worker → Reply → Worker → Type 0
  Applied n v r w =
      (v.runtime_state.revision ≡ n)
      × (replied_state r ≡ some w.runtime_state)
      × ((w.runtime_state.revision ≡ saturating_add v.runtime_state.revision 1) ⊎ (w ≡ v))

  reply-Applied :
      (n : ℕ) (v : Worker) {r : Result EngineWorkerError EngineRuntimeState × Worker}
      → Outcome (Moved n v) v r
      → Outcome (Applied n v) v (and_then r (λ s. lift (ok (Reply.runtime s))))
  unfolding replied_state
  reply-Applied n v o = bind_rule o λ s w moved. ends (moved.2, ap some moved.1, inl moved.3)

  drop_pending-same :
      (id : String) (ps : List EnginePendingSandboxActivation)
      → (length (drop_pending id ps) ≤ length ps)
        × (length (drop_pending id ps) ≡ length ps → drop_pending id ps ≡ ps)
  unfolding drop_pending
  drop_pending-same id [] = (omega arith, λ _. refl)
  drop_pending-same id (p ∷ ps) =
      (ground (arith, drop_pending-same id ps), λ h. ground (arith, drop_pending-same id ps))

  cancel_moved :
      (id : String) (v : Worker)
      → let ps = v.runtime_state.pending_sandbox_activations in
        let w =
          with_state
            (λ s. bump_if (not (length (drop_pending id ps) == length ps)) (forget_pending id s))
            v in
        (w.runtime_state.revision ≡ saturating_add v.runtime_state.revision 1) ⊎ (w ≡ v)
  unfolding bump_if forget_pending bump
  cancel_moved id v =
      let ps = v.runtime_state.pending_sandbox_activations in
      elim (Bool-cases (length (drop_pending id ps) == length ps)) [
        | inl same ↦ inr (
            rw same (
              ap (λ qs. with_state (λ s. record s { pending_sandbox_activations = qs }) v)
                ((drop_pending-same id ps).1 ((==_iff _ _).0 same))))
        | inr differs ↦ inl (rw differs refl)
      ]

  cancel-Applied :
      (n : ℕ) (id : String) (v : Worker)
      → Outcome
          (Applied n v)
          v
          (handle_command (EngineCommand.cancels_pending_sandbox_activation n id) v)
  unfolding handle_command cancel_pending_sandbox_activation and_then replied_state bump_if
      forget_pending bump
  cancel-Applied n id v =
      bind_rule
        (revision_rule {Q = λ r w. Applied n v (Reply.canceled r) w} _ n v
          λ e. require_rule _ (not (is_blank id)) _ v λ _. ends (e, refl, cancel_moved id v))
        λ r w a. ends a

  for_same :
      {n m : ℕ} {v : Worker} {r : Result EngineWorkerError Reply × Worker}
      → some n ≡ some m
      → Outcome (Applied n v) v r
      → Outcome (Applied m v) v r
  for_same {n} {m} {v} {r} e = subst (λ k. Outcome (Applied k v) v r) (cc)

  -- A command that carries an expected revision either fails and leaves the worker as it was, or
  -- was for the revision that stood, answers with the state that it leaves, and moves the revision
  -- on by one (up to the bound of u64) unless it changed nothing.
  pub handle_command-compare_and_swap :
      (c : EngineCommand) (n : ℕ) (v : Worker)
      → expected_revision c ≡ some n
      → Outcome (Applied n v) v (handle_command c v)
  unfolding handle_command expected_revision and_then
  handle_command-compare_and_swap (EngineCommand.switches_runtime n kind map_id id preset ghost) m v
        e =
      for_same e (reply-Applied n v (switch_runtime-Outcome n kind map_id id _ ghost v))
  handle_command-compare_and_swap (EngineCommand.sets_runtime_time_of_day n id preset) m v e =
      for_same e (reply-Applied n v (set_runtime_time_of_day-Outcome n id preset v))
  handle_command-compare_and_swap (EngineCommand.sets_pending_sandbox_activation n p) m v e =
      for_same e (reply-Applied n v (set_pending_sandbox_activation-Outcome n p v))
  handle_command-compare_and_swap (EngineCommand.cancels_pending_sandbox_activation n id) m v e =
      for_same e (cancel-Applied n id v)
  handle_command-compare_and_swap (EngineCommand.deactivates_sandbox n id) m v e =
      for_same e (reply-Applied n v (deactivate_sandbox-Outcome n id v))
  handle_command-compare_and_swap (EngineCommand.activates_local_race n id map_id preset ghost) m v
        e =
      for_same e (reply-Applied n v (activate_local_race-Outcome n id map_id preset ghost v))
  handle_command-compare_and_swap (EngineCommand.deactivates_local_race n id) m v e =
      for_same e (reply-Applied n v (deactivate_local_race-Outcome n id v))
  handle_command-compare_and_swap (EngineCommand.bumps_revision n) m v e =
      for_same e (reply-Applied n v (bump_revision-Outcome n v))
  handle_command-compare_and_swap (EngineCommand.spawn_car t) m v e = cc
  handle_command-compare_and_swap (EngineCommand.set_controls t i c) m v e = cc
  handle_command-compare_and_swap (EngineCommand.read_car_state t i) m v e = cc
  handle_command-compare_and_swap (EngineCommand.read_car_race_metrics t i) m v e = cc
  handle_command-compare_and_swap (EngineCommand.read_car_dimensions t i) m v e = cc
  handle_command-compare_and_swap (EngineCommand.set_car_back_to_track t i) m v e = cc
  handle_command-compare_and_swap (EngineCommand.set_car_before_finish_line t i) m v e = cc
  handle_command-compare_and_swap (EngineCommand.set_car_random_on_track t i) m v e = cc
  handle_command-compare_and_swap (EngineCommand.set_car_at_start_pos t i j) m v e = cc
  handle_command-compare_and_swap (EngineCommand.set_car_to_pitstop t i) m v e = cc
  handle_command-compare_and_swap (EngineCommand.set_car_tyre_type t i y) m v e = cc
  handle_command-compare_and_swap (EngineCommand.force_set_car_tyre_type t i y) m v e = cc
  handle_command-compare_and_swap (EngineCommand.get_number_of_start_pos t) m v e = cc
  handle_command-compare_and_swap (EngineCommand.get_track_data t) m v e = cc
  handle_command-compare_and_swap (EngineCommand.get_race_duration t) m v e = cc
  handle_command-compare_and_swap EngineCommand.get_runtime_state m v e = cc
  handle_command-compare_and_swap (EngineCommand.set_ghost_mode_settings t g) m v e = cc
  handle_command-compare_and_swap (EngineCommand.set_weather id weather now) m v e = cc
  handle_command-compare_and_swap (EngineCommand.despawn_car t i) m v e = cc
