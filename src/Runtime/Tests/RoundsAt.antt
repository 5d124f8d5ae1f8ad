-- ===== src/Runtime/Tests/RoundsAt.antt =====
-- The theorems on the schedule and the targets of game-server/src/runtime/engine_worker.rs at the toy
-- engine.
use hack_arena3_0_backend.Common.Dict.{string_eq}
use hack_arena3_0_backend.Common.Int.{pos}
use hack_arena3_0_backend.Common.{
  ◌≡◌, refl, true, [], err, is_blank, is_whitespace, is_ascii_alphanumeric,
}
use hack_arena3_0_backend.Runtime.Model.{EngineCommandTarget, EngineWorkerError}
use hack_arena3_0_backend.Runtime.State.{
  validate_map_id, is_map_id_code, map_id_message, is_unspecified,
}
use hack_arena3_0_backend.Runtime.Sandbox.{cancel_pending_sandbox_activation}
use hack_arena3_0_backend.Runtime.Commands.{with_target_slot_mut, spawn_op}
use hack_arena3_0_backend.Runtime.Loop.{
  due_entries, execute_pending, maybe_execute_due_pending_sandbox_activation,
}
use hack_arena3_0_backend.Runtime.Steps.{IsPayload}
use hack_arena3_0_backend.Runtime.Outcomes.{Outcome}
use hack_arena3_0_backend.Runtime.Schedule.{Dropped, execute_pending-Dropped}
use hack_arena3_0_backend.Runtime.Rounds.{round-done}
use hack_arena3_0_backend.Runtime.Delays.{round-stuck, Cancelled, cancel-Cancelled}
use hack_arena3_0_backend.Runtime.Targets.{may_use, Runs, with_target-Runs}
use hack_arena3_0_backend.Runtime.Tests.Toy.{
  toy_api, activation, waiting, started, executed, fresh_slot, rounds_computed,
}

round-done_example : due_entries (pos 9) executed.runtime_state.pending_sandbox_activations ≡ []
round-done_example = round-done (pos 9) (waiting "map1") executed rounds_computed.0

stuck-IsPayload : IsPayload (activation "no map")
unfolding is_blank is_whitespace is_unspecified
stuck-IsPayload = (refl, (refl, refl, refl))

stuck-refused :
    validate_map_id "no map"
    ≡ err (EngineWorkerError.invalid_argument "map_id(storage_key) must be alphanumeric")
unfolding validate_map_id is_map_id_code map_id_message is_blank is_whitespace is_ascii_alphanumeric
stuck-refused = refl

round-stuck_example : maybe_execute_due_pending_sandbox_activation (pos 9) (waiting "no map") ≡ (
  err (EngineWorkerError.invalid_argument "map_id(storage_key) must be alphanumeric"),
  waiting "no map",
)
round-stuck_example =
    round-stuck (pos 9) (waiting "no map") (activation "no map") [] "no map" _ rounds_computed.1
      stuck-IsPayload refl rounds_computed.2 refl stuck-refused

execute_pending-Dropped_example :
    Outcome
      (Dropped "s2" (waiting "map1"))
      (waiting "map1")
      (execute_pending (activation "map1") (waiting "map1"))
execute_pending-Dropped_example = execute_pending-Dropped (activation "map1") (waiting "map1")

cancel-Cancelled_example :
    Outcome
      (Cancelled "s2" (waiting "map1"))
      (waiting "map1")
      (cancel_pending_sandbox_activation 1 "s2" (waiting "map1"))
cancel-Cancelled_example = cancel-Cancelled 1 "s2" (waiting "map1")

s1-usable : may_use (EngineCommandTarget.sandbox "s1") started ≡ true
unfolding may_use is_blank is_whitespace
s1-usable = refl

with_target-Runs_example :
    Runs
      (EngineCommandTarget.sandbox "s1")
      spawn_op
      fresh_slot
      started
      (with_target_slot_mut (EngineCommandTarget.sandbox "s1") spawn_op started)
with_target-Runs_example =
    with_target-Runs (EngineCommandTarget.sandbox "s1") spawn_op fresh_slot started s1-usable
      rounds_computed.3
