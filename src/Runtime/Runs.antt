-- ===== src/Runtime/Runs.antt =====
-- Whole runs of `run_worker` in game-server/src/runtime/engine_worker.rs: any sequence of clock
-- ticks, commands and turns of the step loops, from the worker that `spawn` starts.
use hack_arena3_0_backend.Common.Dict
use hack_arena3_0_backend.Common.Dict.{string_eq}
use hack_arena3_0_backend.Common.{
  ℕ, ◌≡◌, refl, sym, ap, ◌∙◌, ◌+◌, ◌≤◌, true, not, List, [], ◌∷◌, String, arith, is_some, is_empty,
  All,
}
use hack_arena3_0_backend.Runtime.Model.{EngineApi, Worker}
use hack_arena3_0_backend.Runtime.State.{is_sandbox_active, drain_sandbox_engines, abort_all}
use hack_arena3_0_backend.Runtime.Sandbox.{is_sandbox_kind}
use hack_arena3_0_backend.Runtime.LocalRace.{is_official_kind, is_local_race_kind, is_race}
use hack_arena3_0_backend.Runtime.Loop.{
  Event, Next, goes_on, breaks, stop, continue, on_event, run, init,
}
use hack_arena3_0_backend.Runtime.Steps.{Step, IsPayload}
use hack_arena3_0_backend.Runtime.Names.{member, Distinct, member-keys, member-ids, race_ids, ids}
use hack_arena3_0_backend.Runtime.Counts.{count, tasks, count-abort_all}
use hack_arena3_0_backend.Runtime.Events.{worker_of, on_event-Steps, Steps-keep, run-keep}
use hack_arena3_0_backend.Runtime.Invariant.Tables.{Tables, Step-Tables}
use hack_arena3_0_backend.Runtime.Invariant.Kinds.{Kinds, Step-Kinds}
use hack_arena3_0_backend.Runtime.Invariant.Entries.{
  Entries, Step-Entries, IsActiveEntry, IsRaceEntry, pending_ids,
}
use hack_arena3_0_backend.Runtime.Invariant.Tasks.{Tasks, Step-Tasks}

module _ ⦃api : EngineApi⦄ where
  init-Tables : Tables init
  unfolding init
  init-Tables = record { sandboxes = refl; races = refl; distinct = tt }

  init-Kinds : Kinds init
  unfolding init is_sandbox_kind is_official_kind is_local_race_kind
  init-Kinds = record { sandbox_kind = refl; official_kind = λ h. cc; local_race_kind = λ h. cc }

  init-Entries : Entries init
  unfolding init
  init-Entries = record { active = tt; race = tt; pending = tt; distinct = tt }

  init-Tasks : Tasks init
  unfolding init
  init-Tasks = record { owned = λ t. refl; fresh = λ t h. refl; single = λ t. omega arith }

  -- In every run that goes on, a sandbox id has a world to step exactly when the runtime state
  -- lists the sandbox as active.
  pub run-sandbox_worlds :
      (es : List Event) {w : Worker}
      → run es init ≡ goes_on w
      → (id : String)
      → is_some (Dict.get id w.sandbox_engines) ≡ is_sandbox_active w.runtime_state id
  unfolding is_sandbox_active
  run-sandbox_worlds es {w} e id =
      let t = run-keep Tables Step-Tables es init init-Tables e in
      sym (member-keys id w.sandbox_engines)
      ∙ ap (member id) t.sandboxes
      ∙ member-ids id w.runtime_state.active_sandboxes

  race_ids-is_race :
      (id : String) (w : Worker)
      → member id (race_ids w.runtime_state.active_local_race)
        ≡ is_race id w.runtime_state.active_local_race
  unfolding is_race
  race_ids-is_race id w = ground arith

  -- In every run that goes on, a race id has a world to step exactly when it is the id of the
  -- active local race.
  pub run-local_race_world :
      (es : List Event) {w : Worker}
      → run es init ≡ goes_on w
      → (id : String)
      → is_some (Dict.get id w.local_race_engines) ≡ is_race id w.runtime_state.active_local_race
  run-local_race_world es {w} e id =
      let t = run-keep Tables Step-Tables es init init-Tables e in
      sym (member-keys id w.local_race_engines) ∙ ap (member id) t.races ∙ race_ids-is_race id w

  -- In every run that goes on, the activity kind tells what is there: it is Sandbox exactly when
  -- some sandbox is active, OfficialRace only with an official world, and LocalRace only with an
  -- active local race.
  pub run-activity_kind :
      (es : List Event) {w : Worker}
      → run es init ≡ goes_on w
      → (is_sandbox_kind w.runtime_state.activity_kind
          ≡ not (is_empty w.runtime_state.active_sandboxes))
        × (is_official_kind w.runtime_state.activity_kind ≡ true → is_some w.official_engine ≡ true)
        × (is_local_race_kind w.runtime_state.activity_kind ≡ true
            → is_some w.runtime_state.active_local_race ≡ true)
  run-activity_kind es e =
      let k = run-keep Kinds Step-Kinds es init init-Kinds e in
      (k.sandbox_kind, k.official_kind, k.local_race_kind)

  -- In every run that goes on, each scheduled entry has a sandbox id that is not blank and exactly
  -- the payload of its kind (a map id, a specified preset and a ghost mode for an activation,
  -- nothing for a deactivation), and no sandbox id is scheduled twice.
  pub run-pending :
      (es : List Event) {w : Worker}
      → run es init ≡ goes_on w
      → All IsPayload w.runtime_state.pending_sandbox_activations
        × Distinct (pending_ids w.runtime_state.pending_sandbox_activations)
  run-pending es e =
      let k = run-keep Entries Step-Entries es init init-Entries e in (k.pending, k.distinct)

  -- In every run that goes on, the active sandboxes and the active local race have ids that are
  -- not blank and specified times of day, and no sandbox is listed twice.
  pub run-active_entries :
      (es : List Event) {w : Worker}
      → run es init ≡ goes_on w
      → All IsActiveEntry w.runtime_state.active_sandboxes
        × IsRaceEntry w.runtime_state.active_local_race
        × Distinct (ids w.runtime_state.active_sandboxes)
  run-active_entries es e =
      let k = run-keep Entries Step-Entries es init init-Entries e in
      let t = run-keep Tables Step-Tables es init init-Tables e in
      (k.active, k.race, rw (← t.sandboxes) t.distinct)

  -- In every run that goes on, the step loops that run are those of the worlds in the two tables:
  -- no loop outlives its world, no world lacks its loop, and no world is stepped by two loops.
  pub run-step_tasks :
      (es : List Event) {w : Worker}
      → run es init ≡ goes_on w
      → (task : ℕ)
      → (count task w.running
          ≡ count task (tasks w.sandbox_engines) + count task (tasks w.local_race_engines))
        × (count task w.running ≤ 1)
  run-step_tasks es e task =
      let k = run-keep Tasks Step-Tasks es init init-Tasks e in (k.owned task, k.single task)

  -- A run that ends has stopped a worker that the transitions reach.
  continue-stop :
      (P : Worker → Type 0) (rest : Worker → Next) (n : Next) {w : Worker}
      → ((u : Worker) → P u → rest u ≡ breaks w → (u : Worker) × (P u) × (w ≡ stop u))
      → P (worker_of n)
      → continue rest n ≡ breaks w
      → (u : Worker) × (P u) × (w ≡ stop u)
  unfolding continue
  continue-stop P rest (goes_on u) k p e = k u p e
  continue-stop P rest (breaks u) k p e = (u, p, cc)

  run-stop :
      (P : Worker → Type 0)
      → ((v w : Worker) → Step v w → P v → P w)
      → (es : List Event) (v : Worker) {w : Worker} → P v
      → run es v ≡ breaks w
      → (u : Worker) × (P u) × (w ≡ stop u)
  unfolding run
  run-stop P keep [] v p e = cc
  run-stop P keep (x ∷ es) v p e =
      continue-stop P (run es) (on_event x v) (λ u p' e'. run-stop P keep es u p' e')
        (Steps-keep P keep (on_event-Steps x v) p) e

  none_left : (xs : List ℕ) → ((t : ℕ) → count t xs ≡ 0) → xs ≡ []
  none_left [] h = refl
  none_left (x ∷ xs) h = ground (arith, h x)

  stop-Tasks : (u : Worker) → Tasks u → (stop u).running ≡ []
  unfolding stop drain_sandbox_engines
  stop-Tasks u k = none_left _ λ t. omega (
    arith,
    count-abort_all t u.local_race_engines (abort_all u.sandbox_engines u.running),
    count-abort_all t u.sandbox_engines u.running,
    k.owned t,
  )

  -- When a run ends, by the shutdown signal or by the debug window of the official world, no step
  -- loop is left running and no world is left in the tables.
  pub run-shutdown :
      (es : List Event) {w : Worker}
      → run es init ≡ breaks w
      → (w.running ≡ []) × (w.sandbox_engines ≡ []) × (w.local_race_engines ≡ [])
  unfolding stop drain_sandbox_engines
  run-shutdown es e =
      let (u, k, same) = run-stop Tasks Step-Tasks es init init-Tasks e in
      rw same (stop-Tasks u k, refl, refl)
