-- ===== src/Race/RuntimeStore.antt =====
-- game-server/src/services/race/runtime_store.rs: what the server keeps for the cars of all
-- players, and the session of the official race. A `DashMap` is a dictionary.
use hack_arena3_0_backend.Common.Dict
use hack_arena3_0_backend.Common.Dict.{Dict, Eq, nat_eq, string_eq, pair_eq}
use hack_arena3_0_backend.Common.Int.{ℤ}
use hack_arena3_0_backend.Common.{
  ℕ, ◌+◌, ◌-◌, ◌*◌, ◌%◌, ◌^◌, min, Bool, true, false, not, ◌||◌, [], Option, none, some, String,
  if◌then◌else◌, ◌==◌, saturating_add, u64_max, u32_max,
}
use hack_arena3_0_backend.Race.PitState.{FloatApi, RuntimePitState}
use hack_arena3_0_backend.Runtime.Model.{EngineCommandTarget}
use mathlib.Core.Option.{get_or}

pub record RuntimeCarIdentity : Type 0 where
  pub subject : Option String
  pub team_id : Option String
  pub instance_uuid : Option String
  pub local_bot_index : Option ℕ
  pub local_race_display_name : Option String
  pub local_race_participant_index : Option ℕ
  pub official_race_start_position_index : Option ℕ
  pub active_bot_slot : Option ℤ
  pub bot_switch_in_progress : Bool

pub record OfficialRacePublicStateSnapshot : Type 0 where
  pub race_name : String
  pub map_id : String
  pub prepared_at_ms : ℕ

pub record RuntimeControlInputSnapshot ⦃api : FloatApi⦄ : Type 0 where
  pub input_throttle : api.F32
  pub input_brake : api.F32
  pub current_brake_balancer : api.F32
  pub current_differential_lock : api.F32

-- The owner of a car is forgotten as an instance if it has this car.
unfoldable pub left_instances : ℕ → Option String → Dict String ℕ → Dict String ℕ
left_instances car_id none instances = instances
left_instances car_id (some owner) instances = elim (Dict.get owner instances) [
  | none ↦ instances
  | some car ↦ if car == car_id then Dict.remove owner instances else instances
]

module _ ⦃api : FloatApi⦄ where
  pub record RaceRuntimeStore : Type 0 where
    pub next_public_car_id : ℕ
    pub known_cars : Dict ℕ (Unit {0})
    pub last_client_seq : Dict ℕ ℕ
    pub instance_cars : Dict String ℕ
    pub car_owners : Dict ℕ String
    pub car_engine_ids : Dict ℕ ℕ
    pub car_targets : Dict ℕ EngineCommandTarget
    pub car_identity : Dict ℕ RuntimeCarIdentity
    pub car_pit_state : Dict ℕ RuntimePitState
    pub car_controls_input : Dict ℕ RuntimeControlInputSnapshot
    pub local_bot_next_index : Dict (String × String) ℕ
    pub official_race_started : Bool
    pub official_race_started_at_ms : ℕ
    pub official_race_duration_sec : ℕ
    pub official_race_public_state : Option OfficialRacePublicStateSnapshot

  unfoldable pub new : RaceRuntimeStore
  new = record {
    next_public_car_id = 1;
    known_cars = [];
    last_client_seq = [];
    instance_cars = [];
    car_owners = [];
    car_engine_ids = [];
    car_targets = [];
    car_identity = [];
    car_pit_state = [];
    car_controls_input = [];
    local_bot_next_index = [];
    official_race_started = false;
    official_race_started_at_ms = 0;
    official_race_duration_sec = 0;
    official_race_public_state = none;
  }

  -- `fetch_add` wraps around.
  unfoldable pub allocate_public_car_id : RaceRuntimeStore → ℕ × RaceRuntimeStore
  allocate_public_car_id s =
      (s.next_public_car_id, record s { next_public_car_id = (s.next_public_car_id + 1) % 2 ^ 64 })

  unfoldable pub next_index : String × String → RaceRuntimeStore → ℕ
  next_index key s = get_or (Dict.get key s.local_bot_next_index) 1

  unfoldable pub allocate_local_bot_index :
      String → String → RaceRuntimeStore → ℕ × RaceRuntimeStore
  unfolding next_index
  allocate_local_bot_index sandbox_id user_id s =
      let index = next_index (sandbox_id, user_id) s in
      let next = min (index + 1) u32_max in
      (
        index,
        record s {
          local_bot_next_index = Dict.insert (sandbox_id, user_id) next s.local_bot_next_index;
        },
      )

  unfoldable pub remove_car : ℕ → RaceRuntimeStore → RaceRuntimeStore
  unfolding left_instances
  remove_car car_id s = record s {
    known_cars = Dict.remove car_id s.known_cars;
    last_client_seq = Dict.remove car_id s.last_client_seq;
    car_engine_ids = Dict.remove car_id s.car_engine_ids;
    car_targets = Dict.remove car_id s.car_targets;
    car_identity = Dict.remove car_id s.car_identity;
    car_pit_state = Dict.remove car_id s.car_pit_state;
    car_controls_input = Dict.remove car_id s.car_controls_input;
    car_owners = Dict.remove car_id s.car_owners;
    instance_cars = left_instances car_id (Dict.get car_id s.car_owners) s.instance_cars;
  }

  unfoldable pub set_official_race_prepared :
      String → String → ℕ → ℕ → RaceRuntimeStore → RaceRuntimeStore
  set_official_race_prepared race_name map_id race_duration_sec prepared_at_ms s = record s {
    official_race_duration_sec = race_duration_sec;
    official_race_started_at_ms = 0;
    official_race_started = false;
    official_race_public_state =
        some (record { race_name = race_name; map_id = map_id; prepared_at_ms = prepared_at_ms });
  }

  unfoldable pub mark_official_race_started : ℕ → RaceRuntimeStore → RaceRuntimeStore
  mark_official_race_started started_at_ms s = record s {
    official_race_started_at_ms = started_at_ms;
    official_race_started = true;
  }

  unfoldable pub clear_official_race_session : RaceRuntimeStore → RaceRuntimeStore
  clear_official_race_session s = record s {
    official_race_started = false;
    official_race_started_at_ms = 0;
    official_race_duration_sec = 0;
    official_race_public_state = none;
  }

  -- `seconds` is the division of the remaining milliseconds by 1000 in `f32`.
  unfoldable pub official_race_remaining_sec : (ℕ → api.F32) → ℕ → RaceRuntimeStore → Option api.F32
  official_race_remaining_sec seconds now_ms s =
      if not s.official_race_started
      then none
      else if s.official_race_started_at_ms == 0 || s.official_race_duration_sec == 0
      then none
      else let duration_ms = min (s.official_race_duration_sec * 1000) u64_max in
        some (seconds (saturating_add s.official_race_started_at_ms duration_ms - now_ms))
