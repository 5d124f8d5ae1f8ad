-- ===== src/Runtime/Delays.antt =====
-- The order of a round of the schedule of game-server/src/runtime/engine_worker.rs, an entry that
-- cannot be executed, and the cancellation of entries.
use hack_arena3_0_backend.Common.Action.{and_then}
use hack_arena3_0_backend.Common.Int.{ℤ, ltb_ℤ}
use hack_arena3_0_backend.Common.{
  ℕ, ◌+◌, subst, ◌≤◌, saturating_add, ◌≡◌, refl, ◌∙◌, inl, inr, Bool, true, false, not, ◌&&◌, List,
  [], ◌∷◌, Option, none, some, String, err, arith, if◌then◌else◌, ◌==◌, ==_iff, Bool-cases,
  is_blank, is_some, length, All,
}
use hack_arena3_0_backend.Runtime.Model.{
  EngineActivityKind, EngineRuntimeTimeOfDayPreset, EngineApi, Ghost,
  EnginePendingSandboxActivation, EngineRuntimeState, EngineWorkerError, Worker,
}
use hack_arena3_0_backend.Runtime.State.{
  require, check_revision, bump, drop_pending, forget_pending, is_sandbox_active, is_unspecified,
  validate_map_id,
}
use hack_arena3_0_backend.Runtime.Switch.{switch_runtime, switch_arm, switch_to_sandbox}
use hack_arena3_0_backend.Runtime.Sandbox.{cancel_pending_sandbox_activation, bump_if}
use hack_arena3_0_backend.Runtime.Loop.{
  execute_activation, execute_pending, execute_all, due_entries, insert_by_time, sort_by_time,
  maybe_execute_due_pending_sandbox_activation,
}
use hack_arena3_0_backend.Runtime.Steps.{IsPayload}
use hack_arena3_0_backend.Runtime.Names.{member}
use hack_arena3_0_backend.Runtime.Invariant.Entries.{pending_ids}
use hack_arena3_0_backend.Runtime.Outcomes.{Outcome, ends, require_rule, revision_rule}
use hack_arena3_0_backend.Runtime.Steps.{HasPreset, Payload}

module _ ⦃api : EngineApi⦄ where
  abbrev is_due : ℤ → EnginePendingSandboxActivation → Bool
  is_due now p = not (ltb_ℤ now p.execute_at_unix_ms)

  -- No entry has an earlier time than one in front of it.
  abbrev pub Ordered : List EnginePendingSandboxActivation → Type 0
  Ordered [] = Unit
  Ordered (p ∷ ps) =
      All (λ q. ltb_ℤ q.execute_at_unix_ms p.execute_at_unix_ms ≡ false) ps × Ordered ps

  -- How many entries pass a test.
  abbrev pub tally :
      (EnginePendingSandboxActivation → Bool) → List EnginePendingSandboxActivation → ℕ
  tally test [] = 0
  tally test (p ∷ ps) = (if test p then 1 else 0) + tally test ps

  later-All :
      (p q : EnginePendingSandboxActivation) (qs : List EnginePendingSandboxActivation)
      → ltb_ℤ q.execute_at_unix_ms p.execute_at_unix_ms ≡ false
      → All (λ r. ltb_ℤ r.execute_at_unix_ms q.execute_at_unix_ms ≡ false) qs
      → All (λ r. ltb_ℤ r.execute_at_unix_ms p.execute_at_unix_ms ≡ false) qs
  later-All p q [] h a = tt
  later-All p q (r ∷ qs) h a = (ground (arith, a.0), later-All p q qs h a.1)

  insert-All :
      (P : EnginePendingSandboxActivation → Type 0) (p : EnginePendingSandboxActivation)
      (qs : List EnginePendingSandboxActivation)
      → P p
      → All P qs
      → All P (insert_by_time p qs)
  unfolding insert_by_time
  insert-All P p [] h a = (h, tt)
  insert-All P p (q ∷ qs) h a = ground (arith, insert-All P p qs h a.1)

  insert-Ordered :
      (p : EnginePendingSandboxActivation) (qs : List EnginePendingSandboxActivation)
      → Ordered qs
      → Ordered (insert_by_time p qs)
  unfolding insert_by_time
  insert-Ordered p [] o = (tt, tt)
  insert-Ordered p (q ∷ qs) o =
      elim (Bool-cases (ltb_ℤ q.execute_at_unix_ms p.execute_at_unix_ms)) [
        | inl less ↦ rw less (
          insert-All (λ r. ltb_ℤ r.execute_at_unix_ms q.execute_at_unix_ms ≡ false) p qs
              (ground arith) o.0,
          insert-Ordered p qs o.1,
        )
        | inr more ↦ rw more ((more, later-All p q qs more o.0), o)
      ]

  sort-Ordered : (ps : List EnginePendingSandboxActivation) → Ordered (sort_by_time ps)
  unfolding sort_by_time
  sort-Ordered [] = tt
  sort-Ordered (p ∷ ps) = insert-Ordered p (sort_by_time ps) (sort-Ordered ps)

  tally-insert :
      (test : EnginePendingSandboxActivation → Bool) (p : EnginePendingSandboxActivation)
      (qs : List EnginePendingSandboxActivation)
      → tally test (insert_by_time p qs) ≡ tally test (p ∷ qs)
  unfolding insert_by_time
  tally-insert test p [] = refl
  tally-insert test p (q ∷ qs) = ground (arith, tally-insert test p qs)

  tally-sort :
      (test : EnginePendingSandboxActivation → Bool) (ps : List EnginePendingSandboxActivation)
      → tally test (sort_by_time ps) ≡ tally test ps
  unfolding sort_by_time
  tally-sort test [] = refl
  tally-sort test (p ∷ ps) =
      ground (arith, tally-sort test ps, tally-insert test p (sort_by_time ps))

  tally-due :
      (now : ℤ) (test : EnginePendingSandboxActivation → Bool)
      (ps : List EnginePendingSandboxActivation)
      → tally test (due_entries now ps) ≡ tally (λ p. is_due now p && test p) ps
  unfolding due_entries
  tally-due now test [] = refl
  tally-due now test (p ∷ ps) = ground (arith, tally-due now test ps)

  -- The list that a round works through holds the due entries of the schedule, each as often as it
  -- is scheduled, in the order of their times.
  pub due-in_order :
      (now : ℤ) (ps : List EnginePendingSandboxActivation)
      → Ordered (sort_by_time (due_entries now ps))
        × ((test : EnginePendingSandboxActivation → Bool)
            → tally test (sort_by_time (due_entries now ps))
              ≡ tally (λ p. not (ltb_ℤ now p.execute_at_unix_ms) && test p) ps)
  due-in_order now ps = (
    sort-Ordered (due_entries now ps),
    λ test. tally-sort test (due_entries now ps) ∙ tally-due now test ps,
  )

  given_preset :
      (o : Option EngineRuntimeTimeOfDayPreset)
      → HasPreset o
      → (t : EngineRuntimeTimeOfDayPreset) × (o ≡ some t) × (is_unspecified t ≡ false)
  given_preset none h = elim h [ ]
  given_preset (some t) h = (t, refl, h)

  given_ghost : (o : Option Ghost) → is_some o ≡ true → (g : Ghost) × (o ≡ some g)
  given_ghost none h = cc
  given_ghost (some g) h = (g, refl)

  switch-stuck :
      (map_id id : String) (preset : EngineRuntimeTimeOfDayPreset) (ghost : Option Ghost)
      (refused : EngineWorkerError) (v : Worker)
      → is_blank id ≡ false
      → is_unspecified preset ≡ false
      → validate_map_id map_id ≡ err refused
      → switch_runtime v.runtime_state.revision EngineActivityKind.sandbox map_id
          (some id)
          preset
          ghost
          v
        ≡ (err refused, v)
  unfolding switch_runtime switch_arm switch_to_sandbox check_revision and_then require
  switch-stuck map_id id preset ghost refused v filled given bad =
      simp ((==_iff v.runtime_state.revision v.runtime_state.revision).1 refl, filled, given, bad)
        refl

  activation-stuck :
      (p : EnginePendingSandboxActivation) (map_id : String) (refused : EngineWorkerError)
      (v : Worker)
      → is_blank p.sandbox_id ≡ false
      → HasPreset p.time_of_day_preset
      → is_some p.ghost_mode_settings ≡ true
      → p.map_id ≡ some map_id
      → validate_map_id map_id ≡ err refused
      → execute_activation p v ≡ (err refused, v)
  unfolding execute_activation and_then
  activation-stuck p map_id refused v filled preset ghost m bad =
      let (t, is_t, given) = given_preset p.time_of_day_preset preset in
      let (g, is_g) = given_ghost p.ghost_mode_settings ghost in
      simp (m, is_t, is_g, switch-stuck map_id p.sandbox_id t (some g) refused v filled given bad)
        refl

  -- When the first of the due entries activates a sandbox that is not active on a map id that the
  -- engine refuses, and its payload is whole, the round fails with that refusal and leaves the
  -- worker as it was: that entry and all due entries behind it stay in the schedule.
  pub round-stuck :
      (now : ℤ) (v : Worker) (p : EnginePendingSandboxActivation)
      (ps : List EnginePendingSandboxActivation) (map_id : String) (refused : EngineWorkerError)
      → sort_by_time (due_entries now v.runtime_state.pending_sandbox_activations) ≡ p ∷ ps
      → IsPayload p
      → p.activate ≡ true
      → is_sandbox_active v.runtime_state p.sandbox_id ≡ false
      → p.map_id ≡ some map_id
      → validate_map_id map_id ≡ err refused
      → maybe_execute_due_pending_sandbox_activation now v ≡ (err refused, v)
  unfolding maybe_execute_due_pending_sandbox_activation execute_all execute_pending and_then
  round-stuck now v p ps map_id refused first payload on idle m bad =
      let whole : Payload true p = subst (λ b. Payload b p) on payload.1 in
      rw first
        (simp (on, idle, activation-stuck p map_id refused v payload.0 whole.1 whole.2 m bad) refl)

  drop_pending-member :
      (id : String) (ps : List EnginePendingSandboxActivation)
      → (length (drop_pending id ps) ≤ length ps)
        × (not (length (drop_pending id ps) == length ps) ≡ member id (pending_ids ps))
  unfolding drop_pending
  drop_pending-member id [] = (omega arith, refl)
  drop_pending-member id (p ∷ ps) =
      (ground (arith, drop_pending-member id ps), ground (arith, drop_pending-member id ps))

  bumped_pending :
      (b : Bool) (s : EngineRuntimeState)
      → (bump_if b s).pending_sandbox_activations ≡ s.pending_sandbox_activations
  unfolding bump_if bump
  bumped_pending b s = ground arith

  bumped_revision :
      (b : Bool) (s : EngineRuntimeState)
      → (bump_if b s).revision ≡ (if b then saturating_add s.revision 1 else s.revision)
  unfolding bump_if bump
  bumped_revision b s = ground arith

  -- A cancellation reports whether the sandbox id was scheduled, and answers with the state it left.
  abbrev pub Cancelled : String → Worker → EngineRuntimeState × Bool → Worker → Type 0
  Cancelled id v r w =
      (r.0 ≡ w.runtime_state)
      × (r.1 ≡ member id (pending_ids v.runtime_state.pending_sandbox_activations))
      × (w.runtime_state.pending_sandbox_activations
          ≡ drop_pending id v.runtime_state.pending_sandbox_activations)
      × (w.runtime_state.revision
          ≡ (if r.1 then saturating_add v.runtime_state.revision 1 else v.runtime_state.revision))

  -- A cancellation fails and changes nothing, or it reports whether the sandbox id was scheduled,
  -- drops exactly the entries of that id, and moves the revision on only if there were any.
  pub cancel-Cancelled :
      (n : ℕ) (id : String) (v : Worker)
      → Outcome (Cancelled id v) v (cancel_pending_sandbox_activation n id v)
  unfolding cancel_pending_sandbox_activation and_then forget_pending
  cancel-Cancelled n id v = revision_rule _ n v λ _. require_rule _ (not (is_blank id)) _ v λ _.
      ends (
        refl,
        (drop_pending-member id v.runtime_state.pending_sandbox_activations).1,
        bumped_pending _ _,
        bumped_revision _ _,
      )
