-- ===== src/Runtime/Rounds.antt =====
-- A round of the schedule of game-server/src/runtime/engine_worker.rs: which entries it executes
-- and in which order, what it leaves when it succeeds, and what a failing entry holds up.
use hack_arena3_0_backend.Common.Action.{and_then}
use hack_arena3_0_backend.Common.Int.{ℤ, ltb_ℤ}
use hack_arena3_0_backend.Common.{
  subst, ◌≡◌, refl, sym, ap, ◌∙◌, inl, inr, Bool, true, false, not, ◌||◌, List, [], ◌∷◌, String,
  Result, ok, arith, Bool-cases, All, ◌=ₛ◌, =ₛ_iff,
}
use hack_arena3_0_backend.Runtime.Model.{
  EngineApi, EnginePendingSandboxActivation, EngineWorkerError, Worker,
}
use hack_arena3_0_backend.Runtime.State.{drop_pending}
use hack_arena3_0_backend.Runtime.Loop.{
  execute_all, due_entries, insert_by_time, sort_by_time,
  maybe_execute_due_pending_sandbox_activation,
}
use hack_arena3_0_backend.Runtime.Names.{member}
use hack_arena3_0_backend.Runtime.Invariant.Entries.{pending_ids}
use hack_arena3_0_backend.Runtime.Outcomes.{Outcome, fails, ends}
use hack_arena3_0_backend.Runtime.Schedule.{Dropped, execute_pending-Dropped}

module _ ⦃api : EngineApi⦄ where
  -- The entries left when those of a list of others are dropped, one id after another.
  abbrev drop_all :
      List EnginePendingSandboxActivation
      → List EnginePendingSandboxActivation
      → List EnginePendingSandboxActivation
  drop_all [] qs = qs
  drop_all (p ∷ ps) qs = drop_all ps (drop_pending p.sandbox_id qs)

  execute_all-drop :
      (ps : List EnginePendingSandboxActivation) (v w : Worker)
      → execute_all ps v ≡ (ok tt, w)
      → w.runtime_state.pending_sandbox_activations
        ≡ drop_all ps v.runtime_state.pending_sandbox_activations
  unfolding execute_all and_then
  execute_all-drop [] v w e = ground arith
  execute_all-drop (p ∷ ps) v w e =
      after (execute_pending-Dropped p v) (λ u. execute_all-drop ps u w) e
    where
      after :
          {q : Result EngineWorkerError (Unit {0}) × Worker}
          → Outcome (Dropped p.sandbox_id v) v q
          → ((u : Worker)
              → execute_all ps u ≡ (ok tt, w)
              → w.runtime_state.pending_sandbox_activations
                ≡ drop_all ps u.runtime_state.pending_sandbox_activations)
          → and_then q (λ _. execute_all ps) ≡ (ok tt, w)
          → w.runtime_state.pending_sandbox_activations
            ≡ drop_all (p ∷ ps) v.runtime_state.pending_sandbox_activations
      after (fails x) rest same = ground arith
      after (ends {w = u} d) rest same = rest u same ∙ ap (drop_all ps) d

  drop_pending-All :
      (P : EnginePendingSandboxActivation → Type 0) (id : String)
      (qs : List EnginePendingSandboxActivation)
      → All P qs
      → All P (drop_pending id qs)
  unfolding drop_pending
  drop_pending-All P id [] a = tt
  drop_pending-All P id (q ∷ qs) a = ground (arith, drop_pending-All P id qs a.1)

  drop_all-All :
      (P : EnginePendingSandboxActivation → Type 0) (ps qs : List EnginePendingSandboxActivation)
      → All P qs
      → All P (drop_all ps qs)
  drop_all-All P [] qs a = a
  drop_all-All P (p ∷ ps) qs a = drop_all-All P ps _ (drop_pending-All P p.sandbox_id qs a)

  abbrev Other : String → EnginePendingSandboxActivation → Type 0
  Other id q = (q.sandbox_id =ₛ id) ≡ false

  drop_pending-Other :
      (id : String) (qs : List EnginePendingSandboxActivation) → All (Other id) (drop_pending id qs)
  unfolding drop_pending
  drop_pending-Other id [] = tt
  drop_pending-Other id (q ∷ qs) = ground (arith, drop_pending-Other id qs)

  -- After a list of entries was dropped, nothing has one of their ids.
  abbrev Clear : List EnginePendingSandboxActivation → EnginePendingSandboxActivation → Type 0
  Clear ps q = member q.sandbox_id (pending_ids ps) ≡ false

  All-both :
      (P Q R : EnginePendingSandboxActivation → Type 0)
      → ((q : EnginePendingSandboxActivation) → P q → Q q → R q)
      → (qs : List EnginePendingSandboxActivation) → All P qs
      → All Q qs
      → All R qs
  All-both P Q R f [] a b = tt
  All-both P Q R f (q ∷ qs) a b = (f q a.0 b.0, All-both P Q R f qs a.1 b.1)

  drop_all-Clear : (ps qs : List EnginePendingSandboxActivation) → All (Clear ps) (drop_all ps qs)
  drop_all-Clear [] qs = no_ids qs
    where
      no_ids : (rs : List EnginePendingSandboxActivation) → All (Clear []) rs
      no_ids [] = tt
      no_ids (r ∷ rs) = (refl, no_ids rs)
  drop_all-Clear (p ∷ ps) qs =
      All-both (Other p.sandbox_id) (Clear ps) (Clear (p ∷ ps))
        (λ q o c.
          ground (arith, =ₛ_iff p.sandbox_id q.sandbox_id, =ₛ_iff q.sandbox_id p.sandbox_id, o, c))
        _ (drop_all-All (Other p.sandbox_id) ps _ (drop_pending-Other p.sandbox_id qs))
        (drop_all-Clear ps (drop_pending p.sandbox_id qs))

  -- Each due entry's id is among those of the due entries, sorted or not.
  abbrev is_due : ℤ → EnginePendingSandboxActivation → Bool
  is_due now p = not (ltb_ℤ now p.execute_at_unix_ms)

  member-insert :
      (id : String) (p : EnginePendingSandboxActivation) (ps : List EnginePendingSandboxActivation)
      → member id (pending_ids (insert_by_time p ps))
        ≡ (p.sandbox_id =ₛ id || member id (pending_ids ps))
  unfolding insert_by_time
  member-insert id p [] = refl
  member-insert id p (q ∷ qs) = ground (arith, member-insert id p qs)

  member-sort :
      (id : String) (ps : List EnginePendingSandboxActivation)
      → member id (pending_ids (sort_by_time ps)) ≡ member id (pending_ids ps)
  unfolding sort_by_time
  member-sort id [] = refl
  member-sort id (p ∷ ps) = ground (arith, member-sort id ps, member-insert id p (sort_by_time ps))

  abbrev Listed : ℤ → List String → EnginePendingSandboxActivation → Type 0
  Listed now ids q = is_due now q ≡ true → member q.sandbox_id ids ≡ true

  Listed-more :
      (now : ℤ) (id : String) (ids : List String) (qs : List EnginePendingSandboxActivation)
      → All (Listed now ids) qs
      → All (Listed now (id ∷ ids)) qs
  Listed-more now id ids [] a = tt
  Listed-more now id ids (q ∷ qs) a =
      (λ due. ground (arith, a.0 due), Listed-more now id ids qs a.1)

  due-Listed :
      (now : ℤ) (qs : List EnginePendingSandboxActivation)
      → All (Listed now (pending_ids (due_entries now qs))) qs
  unfolding due_entries
  due-Listed now [] = tt
  due-Listed now (q ∷ qs) = elim (Bool-cases (is_due now q)) [
    | inl due ↦
        subst (λ ds. All (Listed now (pending_ids ds)) (q ∷ qs)) (sym (due_first due))
          (
            λ _. ground (arith, =ₛ_iff q.sandbox_id q.sandbox_id),
            Listed-more now q.sandbox_id _ qs (due-Listed now qs),
          )
    | inr early ↦
        subst (λ ds. All (Listed now (pending_ids ds)) (q ∷ qs)) (sym (due_later early))
          ((λ due. ground arith), due-Listed now qs)
  ]
    where
      due_first : is_due now q ≡ true → due_entries now (q ∷ qs) ≡ q ∷ due_entries now qs
      due_first h = ground arith

      due_later : is_due now q ≡ false → due_entries now (q ∷ qs) ≡ due_entries now qs
      due_later h = ground arith

  none_due :
      (now : ℤ) (ids : List String) (qs : List EnginePendingSandboxActivation)
      → All (λ q. member q.sandbox_id ids ≡ false) qs
      → All (Listed now ids) qs
      → due_entries now qs ≡ []
  unfolding due_entries
  none_due now ids [] c a = refl
  none_due now ids (q ∷ qs) c a = ground (arith, none_due now ids qs c.1 a.1, a.0, c.0)

  -- When a round succeeds, no entry that is due at that time is left in the schedule.
  pub round-done :
      (now : ℤ) (v w : Worker)
      → maybe_execute_due_pending_sandbox_activation now v ≡ (ok tt, w)
      → due_entries now w.runtime_state.pending_sandbox_activations ≡ []
  unfolding maybe_execute_due_pending_sandbox_activation
  round-done now v w e =
      let ps = v.runtime_state.pending_sandbox_activations in
      let due = sort_by_time (due_entries now ps) in
      rw (execute_all-drop due v w e) (
        none_due now (pending_ids due) (drop_all due ps) (drop_all-Clear due ps)
          (drop_all-All (Listed now (pending_ids due)) due ps (sorted-Listed ps)))
    where
      weaken :
          (ids js : List String)
          → ((id : String) → member id js ≡ member id ids)
          → (qs : List EnginePendingSandboxActivation) → All (Listed now ids) qs
          → All (Listed now js) qs
      weaken ids js same [] a = tt
      weaken ids js same (q ∷ qs) a =
          (λ due. same q.sandbox_id ∙ a.0 due, weaken ids js same qs a.1)

      sorted-Listed :
          (ps : List EnginePendingSandboxActivation)
          → All (Listed now (pending_ids (sort_by_time (due_entries now ps)))) ps
      sorted-Listed ps =
          weaken _ _ (λ id. member-sort id (due_entries now ps)) ps (due-Listed now ps)
