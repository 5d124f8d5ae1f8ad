-- ===== src/Runtime/Tests/RunsAt.antt =====
-- The theorems on the runs and the commands of game-server/src/runtime/engine_worker.rs at the toy
-- engine.
use hack_arena3_0_backend.Common.Dict
use hack_arena3_0_backend.Common.Dict.{string_eq, Dict}
use hack_arena3_0_backend.Common.{
  ap, arith, u64_max, ◌≤◌, ◌<◌, ◌+◌, ◌≡◌, ◌≢◌, refl, true, not, [], some, err, is_some, is_empty,
  All,
}
use hack_arena3_0_backend.Runtime.Model.{EngineWorkerError}
use hack_arena3_0_backend.Runtime.State.{is_sandbox_active}
use hack_arena3_0_backend.Runtime.Sandbox.{is_sandbox_kind}
use hack_arena3_0_backend.Runtime.LocalRace.{is_official_kind, is_local_race_kind, is_race}
use hack_arena3_0_backend.Runtime.Commands.{EngineCommand, handle_command}
use hack_arena3_0_backend.Runtime.Loop.{init}
use hack_arena3_0_backend.Runtime.Counts.{count, tasks}
use hack_arena3_0_backend.Runtime.Names.{Distinct, ids}
use hack_arena3_0_backend.Runtime.Steps.{IsPayload}
use hack_arena3_0_backend.Runtime.Outcomes.{Outcome}
use hack_arena3_0_backend.Runtime.Invariant.Entries.{IsActiveEntry, IsRaceEntry, pending_ids}
use hack_arena3_0_backend.Runtime.Runs.{
  run-sandbox_worlds, run-local_race_world, run-step_tasks, run-activity_kind, run-active_entries,
  run-pending, run-shutdown,
}
use hack_arena3_0_backend.Runtime.Revisions.{
  expected_revision, Applied, handle_command-compare_and_swap,
}
use hack_arena3_0_backend.Runtime.Conflicts.{
  handle_command-stale, handle_command-exclusive, run-revision,
}
use hack_arena3_0_backend.Runtime.Tests.Toy.{
  toy_api, start_s1, events, after, ending, stopped, scheduling, waiting, started, runs_computed,
}

run-sandbox_worlds_example :
    is_some (Dict.get "s1" after.sandbox_engines) ≡ is_sandbox_active after.runtime_state "s1"
run-sandbox_worlds_example = run-sandbox_worlds events {w = after} runs_computed.0 "s1"

run-local_race_world_example :
    is_some (Dict.get "r1" after.local_race_engines)
    ≡ is_race "r1" after.runtime_state.active_local_race
run-local_race_world_example = run-local_race_world events {w = after} runs_computed.0 "r1"

run-step_tasks_example :
    (count 1 after.running
      ≡ count 1 (tasks after.sandbox_engines) + count 1 (tasks after.local_race_engines))
    × (count 1 after.running ≤ 1)
run-step_tasks_example = run-step_tasks events {w = after} runs_computed.0 1

run-activity_kind_example :
    (is_sandbox_kind after.runtime_state.activity_kind
      ≡ not (is_empty after.runtime_state.active_sandboxes))
    × (is_official_kind after.runtime_state.activity_kind ≡ true
        → is_some after.official_engine ≡ true)
    × (is_local_race_kind after.runtime_state.activity_kind ≡ true
        → is_some after.runtime_state.active_local_race ≡ true)
run-activity_kind_example = run-activity_kind events {w = after} runs_computed.0

run-active_entries_example :
    All IsActiveEntry after.runtime_state.active_sandboxes
    × IsRaceEntry after.runtime_state.active_local_race
    × Distinct (ids after.runtime_state.active_sandboxes)
run-active_entries_example = run-active_entries events {w = after} runs_computed.0

init-small : init.runtime_state.revision ≤ u64_max
unfolding init
init-small = omega arith

run-revision_example :
    (init.runtime_state.revision ≤ after.runtime_state.revision)
    × (after.runtime_state.revision ≤ u64_max)
run-revision_example = run-revision events init {w = after} init-small runs_computed.0

run-shutdown_example :
    (stopped.running ≡ []) × (stopped.sandbox_engines ≡ []) × (stopped.local_race_engines ≡ [])
run-shutdown_example = run-shutdown ending {w = stopped} runs_computed.1

run-pending_example :
    All IsPayload (waiting "map1").runtime_state.pending_sandbox_activations
    × Distinct (pending_ids (waiting "map1").runtime_state.pending_sandbox_activations)
run-pending_example = run-pending (scheduling "map1") {w = waiting "map1"} runs_computed.2

start_s1-expects : expected_revision start_s1 ≡ some 0
unfolding expected_revision
start_s1-expects = refl

after-later : after.runtime_state.revision ≢ 0
after-later e = omega (arith, e, runs_computed.3)

handle_command-compare_and_swap_example :
    Outcome (Applied 0 init) init (handle_command start_s1 init)
handle_command-compare_and_swap_example =
    handle_command-compare_and_swap start_s1 0 init start_s1-expects

handle_command-stale_example :
    handle_command start_s1 after
    ≡ (err (EngineWorkerError.revision_mismatch 0 after.runtime_state.revision), after)
handle_command-stale_example = handle_command-stale start_s1 0 after start_s1-expects after-later

bumps-expects : expected_revision (EngineCommand.bumps_revision 0) ≡ some 0
unfolding expected_revision
bumps-expects = refl

started-other : started ≢ init
unfolding init
started-other e = omega (arith, ap (λ w. w.runtime_state.revision) e, runs_computed.5)

zero-small : 0 < u64_max
zero-small = omega arith

handle_command-exclusive_example :
    handle_command (EngineCommand.bumps_revision 0) started
    ≡ (err (EngineWorkerError.revision_mismatch 0 1), started)
handle_command-exclusive_example =
    handle_command-exclusive start_s1 (EngineCommand.bumps_revision 0) 0 init started
      start_s1-expects bumps-expects runs_computed.4 started-other zero-small
