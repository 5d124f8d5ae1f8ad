-- ===== src/Race/StoreTests.antt =====
-- Cars on the track and in the pit, and the theorems on
-- game-server/src/services/race/runtime_store.rs at them.
use hack_arena3_0_backend.Common.Dict
use hack_arena3_0_backend.Common.Dict.{Dict, nat_eq, string_eq}
use hack_arena3_0_backend.Common.{
  false, none, true, ℕ, ◌+◌, ◌≡◌, refl, min, [], ◌∷◌, some, arith, ◌==◌, u32_max, ==_iff, =ₛ_iff,
  ◌↔◌, ◌≢◌, trim, ◌<◌, trim_start, trim_end, is_whitespace,
}
use hack_arena3_0_backend.Runtime.Model.{TyreType, EngineCommandTarget}
use hack_arena3_0_backend.Race.PitState.{FloatApi, default_pit_state}
use hack_arena3_0_backend.Race.PitUpdate.{VehicleState, update_official, update_local}
use hack_arena3_0_backend.Race.PitVisits.{Tracked, update-Tracked, default-Tracked}
use hack_arena3_0_backend.Race.PitHistory.{Frame}
use hack_arena3_0_backend.Race.RuntimeStore.{
  RaceRuntimeStore, new, allocate_local_bot_index, remove_car, RuntimeCarIdentity,
}
use hack_arena3_0_backend.Race.CarCounts.{count_of, cars_with, active_car_counts-exact}
use hack_arena3_0_backend.Race.JoinedSandboxes.{has, DrivesIn, joined_sandboxes-active}
use hack_arena3_0_backend.Race.StoreAccess.{
  joined_sandbox_ids_for_team, active_car_counts_by_sandbox, active_car_counts_by_local_race,
}
use hack_arena3_0_backend.Race.CarRemoval.{Linked, Gone, remove_car-Gone}
use hack_arena3_0_backend.Race.BotIndices.{count, allocations, bot_index-counts}

instance abbrev store_floats : FloatApi
store_floats = record { F32 = ℕ; is_zero = λ x. x == 0 }

-- A vehicle with a zone mask and a speed.
abbrev vehicle : ℕ → ℕ → VehicleState
vehicle zone_mask speed = record {
  zone_mask = zone_mask;
  wheels_in_pitstop = 4;
  speed = speed;
  tyre_type = TyreType.soft;
  tyre_health = (90, 91, 92, 93);
  tyre_temperature_celsius = (80, 80, 81, 81);
}

abbrev frame : ℕ → ℕ → ℕ → Frame
frame zone_mask speed now_ms = record {
  vehicle = vehicle zone_mask speed;
  laps = some 3;
  bot_slot = 1;
  now_ms = now_ms;
}

update-Tracked_example :
    Tracked (update_official (vehicle 2 0) (some 3) 1 1000 default_pit_state)
    × Tracked (update_local (vehicle 2 0) (some 3) 1000 default_pit_state)
update-Tracked_example =
    update-Tracked (vehicle 2 0) (some 3) 1 1000 default_pit_state default-Tracked

-- Car 7 of one instance.
abbrev one_car : RaceRuntimeStore
one_car = record new {
  known_cars = (7, tt) ∷ [];
  instance_cars = ("instance-1", 7) ∷ [];
  car_owners = (7, "instance-1") ∷ [];
  car_targets = (7, EngineCommandTarget.sandbox "sandbox-1") ∷ [];
}

one_car-Linked : Linked one_car
unfolding new Dict.get
one_car-Linked = record {
  known = (tt, tt);
  sequences = tt;
  instances = (tt, tt);
  owners = (tt, tt);
  engine_ids = tt;
  targets = (tt, tt);
  identities = tt;
  pit_states = tt;
  controls = tt;
  owned = λ instance_uuid car h. ground (arith, h, ==_iff 7 car, =ₛ_iff "instance-1" instance_uuid);
}

remove_car-Gone_example : Gone 7 one_car (remove_car 7 one_car) × Linked (remove_car 7 one_car)
remove_car-Gone_example = remove_car-Gone 7 one_car one_car-Linked

bot_index-counts_example :
    (allocate_local_bot_index "sandbox-1" "anna"
      (allocations (("sandbox-1", "anna") ∷ ("sandbox-2", "anna") ∷ []) new)).0
    ≡ min
        (count ("sandbox-1", "anna") (("sandbox-1", "anna") ∷ ("sandbox-2", "anna") ∷ []) + 1)
        u32_max
bot_index-counts_example =
    bot_index-counts (("sandbox-1", "anna") ∷ ("sandbox-2", "anna") ∷ []) "sandbox-1" "anna"

abbrev of_team : RuntimeCarIdentity
of_team = record {
  subject = none;
  team_id = some "team-1";
  instance_uuid = none;
  local_bot_index = none;
  local_race_display_name = none;
  local_race_participant_index = none;
  official_race_start_position_index = none;
  active_bot_slot = none;
  bot_switch_in_progress = false;
}

-- Two cars of team 1 in sandbox 1, and one in a local race.
abbrev three_cars : RaceRuntimeStore
three_cars = record new {
  car_identity = (7, of_team) ∷ (8, of_team) ∷ [];
  car_targets =
      (7, EngineCommandTarget.sandbox "sandbox-1")
      ∷ (8, EngineCommandTarget.sandbox "sandbox-1")
      ∷ (9, EngineCommandTarget.local_race "race-1")
      ∷ [];
}

joined_sandboxes-active_example :
    ((has "sandbox-1" (joined_sandbox_ids_for_team " team-1" three_cars) ≡ true) ↔ (
      (trim " team-1" ≢ [])
      × DrivesIn (trim " team-1") three_cars.car_identity "sandbox-1" three_cars.car_targets))
    × (has "sandbox-1" (joined_sandbox_ids_for_team " team-1" three_cars) ≡ true
        → 0 < count_of "sandbox-1" (active_car_counts_by_sandbox three_cars))
joined_sandboxes-active_example = joined_sandboxes-active " team-1" "sandbox-1" three_cars

active_car_counts-exact_example :
    (count_of "sandbox-1" (active_car_counts_by_sandbox three_cars)
      ≡ min (cars_with (EngineCommandTarget.sandbox "sandbox-1") three_cars.car_targets) u32_max)
    × (count_of "sandbox-1" (active_car_counts_by_local_race three_cars)
        ≡ min
            (cars_with (EngineCommandTarget.local_race "sandbox-1") three_cars.car_targets)
            u32_max)
active_car_counts-exact_example = active_car_counts-exact "sandbox-1" three_cars

team_in_sandbox : has "sandbox-1" (joined_sandbox_ids_for_team " team-1" three_cars) ≡ true
unfolding joined_sandbox_ids_for_team new Dict.get Dict.insert trim trim_start trim_end
    is_whitespace
team_in_sandbox = refl
