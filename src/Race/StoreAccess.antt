-- ===== src/Race/StoreAccess.antt =====
-- game-server/src/services/race/runtime_store.rs: what the server asks its store for, and the changes
-- to identities and inputs. A hash set is a dictionary to the unit type.
use hack_arena3_0_backend.Common.Dict
use hack_arena3_0_backend.Common.Dict.{Dict, Eq, nat_eq, string_eq}
use hack_arena3_0_backend.Common.Int.{ℤ}
use hack_arena3_0_backend.Common.{
  ℕ, ◌+◌, min, Bool, true, false, ◌&&◌, List, [], ◌∷◌, Option, none, some, String, if◌then◌else◌,
  leb, ◌==◌, u32_max, is_empty, trim,
}
use hack_arena3_0_backend.Race.PitState.{FloatApi}
use hack_arena3_0_backend.Race.RuntimeStore.{
  RaceRuntimeStore, RuntimeCarIdentity, RuntimeControlInputSnapshot,
}
use hack_arena3_0_backend.Runtime.Model.{EngineCommandTarget}
use mathlib.Core.Option.{get_or}

-- `sort_unstable` on numbers.
unfoldable pub insert_sorted : ℕ → List ℕ → List ℕ
insert_sorted a [] = a ∷ []
insert_sorted a (b ∷ bs) = let rest = insert_sorted a bs in if leb a b then a ∷ b ∷ bs else b ∷ rest

unfoldable pub sorted_ids : Dict ℕ (Unit {0}) → List ℕ
unfolding insert_sorted
sorted_ids [] = []
sorted_ids ((car_id, _) ∷ d) = insert_sorted car_id (sorted_ids d)

-- The sandbox, or the local race, of a target.
unfoldable pub sandbox_of : EngineCommandTarget → Option String
sandbox_of (EngineCommandTarget.sandbox sandbox_id) = some sandbox_id
sandbox_of EngineCommandTarget.official_race = none
sandbox_of (EngineCommandTarget.local_race _) = none

unfoldable pub local_race_of : EngineCommandTarget → Option String
local_race_of (EngineCommandTarget.local_race race_id) = some race_id
local_race_of EngineCommandTarget.official_race = none
local_race_of (EngineCommandTarget.sandbox _) = none

unfoldable pub add_one : Option String → Dict String ℕ → Dict String ℕ
add_one none counts = counts
add_one (some id) counts = Dict.insert id (min (get_or (Dict.get id counts) 0 + 1) u32_max) counts

-- One turn of the loop for each target.
unfoldable pub count_targets :
    (EngineCommandTarget → Option String)
    → Dict ℕ EngineCommandTarget
    → Dict String ℕ
    → Dict String ℕ
unfolding add_one
count_targets id_of [] counts = counts
count_targets id_of ((_, target) ∷ d) counts = count_targets id_of d (add_one (id_of target) counts)

unfoldable pub same_codes : List ℕ → List ℕ → Bool
same_codes [] [] = true
same_codes [] (_ ∷ _) = false
same_codes (_ ∷ _) [] = false
same_codes (a ∷ cs) (b ∷ ds) = a == b && same_codes cs ds

-- `team_matches`: the team of the identity, if it has one.
unfoldable pub team_matches : List ℕ → Option RuntimeCarIdentity → Bool
unfolding same_codes
team_matches team_id none = false
team_matches team_id (some identity) = elim identity.team_id [
  | none ↦ false
  | some value ↦ same_codes (trim value) team_id
]

unfoldable pub joined_sandboxes :
    List ℕ
    → Dict ℕ RuntimeCarIdentity
    → Dict ℕ EngineCommandTarget
    → Dict String (Unit {0})
    → Dict String (Unit {0})
unfolding sandbox_of team_matches
joined_sandboxes team_id identities [] sandboxes = sandboxes
joined_sandboxes team_id identities ((car_id, target) ∷ d) sandboxes =
    joined_sandboxes team_id identities d (elim (sandbox_of target) [
      | none ↦ sandboxes
      | some sandbox_id ↦
          if team_matches team_id (Dict.get car_id identities)
          then Dict.insert sandbox_id tt sandboxes
          else sandboxes
    ])

-- `get_mut`: the entry of the key, if there is one.
unfoldable pub at_identity :
    ℕ
    → (RuntimeCarIdentity → RuntimeCarIdentity)
    → Dict ℕ RuntimeCarIdentity
    → Dict ℕ RuntimeCarIdentity
at_identity car_id f identities = elim (Dict.get car_id identities) [
  | none ↦ identities
  | some identity ↦ Dict.insert car_id (f identity) identities
]

module _ ⦃api : FloatApi⦄ where
  unfoldable pub set_car_identity : ℕ → RuntimeCarIdentity → RaceRuntimeStore → RaceRuntimeStore
  set_car_identity car_id identity s = record s {
    car_identity = Dict.insert car_id identity s.car_identity;
  }

  unfoldable pub car_identity : ℕ → RaceRuntimeStore → Option RuntimeCarIdentity
  car_identity car_id s = Dict.get car_id s.car_identity

  unfoldable pub car_target : ℕ → RaceRuntimeStore → Option EngineCommandTarget
  car_target car_id s = Dict.get car_id s.car_targets

  unfoldable pub car_engine_id : ℕ → RaceRuntimeStore → Option ℕ
  car_engine_id car_id s = Dict.get car_id s.car_engine_ids

  unfoldable pub car_last_client_seq : ℕ → RaceRuntimeStore → ℕ
  car_last_client_seq car_id s = get_or (Dict.get car_id s.last_client_seq) 0

  unfoldable pub known_car_ids : RaceRuntimeStore → List ℕ
  unfolding sorted_ids
  known_car_ids s = sorted_ids s.known_cars

  unfoldable pub active_car_counts_by_sandbox : RaceRuntimeStore → Dict String ℕ
  unfolding count_targets
  active_car_counts_by_sandbox s = count_targets sandbox_of s.car_targets []

  unfoldable pub active_car_counts_by_local_race : RaceRuntimeStore → Dict String ℕ
  unfolding count_targets
  active_car_counts_by_local_race s = count_targets local_race_of s.car_targets []

  unfoldable pub joined_sandbox_ids_for_team : String → RaceRuntimeStore → Dict String (Unit {0})
  unfolding joined_sandboxes
  joined_sandbox_ids_for_team team_id s =
      if is_empty (trim team_id)
      then []
      else joined_sandboxes (trim team_id) s.car_identity s.car_targets []

  unfoldable pub set_controls_input :
      ℕ → api.F32 → api.F32 → api.F32 → api.F32 → RaceRuntimeStore → RaceRuntimeStore
  set_controls_input car_id throttle brake brake_balancer differential_lock s = record s {
    car_controls_input =
        Dict.insert car_id
          (record {
            input_throttle = throttle;
            input_brake = brake;
            current_brake_balancer = brake_balancer;
            current_differential_lock = differential_lock;
          })
          s.car_controls_input;
  }

  -- The argument is the default of the snapshot.
  unfoldable pub controls_input_snapshot :
      RuntimeControlInputSnapshot → ℕ → RaceRuntimeStore → RuntimeControlInputSnapshot
  controls_input_snapshot default car_id s = get_or (Dict.get car_id s.car_controls_input) default

  unfoldable pub set_active_bot_slot : ℕ → ℤ → RaceRuntimeStore → RaceRuntimeStore
  unfolding at_identity
  set_active_bot_slot car_id slot_index s = record s {
    car_identity =
        at_identity car_id (λ i. record i { active_bot_slot = some slot_index }) s.car_identity;
  }

  unfoldable pub active_bot_slot : ℕ → RaceRuntimeStore → Option ℤ
  active_bot_slot car_id s = elim (Dict.get car_id s.car_identity) [
    | none ↦ none
    | some identity ↦ identity.active_bot_slot
  ]

  unfoldable pub clear_active_bot_slot : ℕ → RaceRuntimeStore → RaceRuntimeStore
  unfolding at_identity
  clear_active_bot_slot car_id s = record s {
    car_identity = at_identity car_id (λ i. record i { active_bot_slot = none }) s.car_identity;
  }

  unfoldable pub set_bot_switch_in_progress : ℕ → Bool → RaceRuntimeStore → RaceRuntimeStore
  unfolding at_identity
  set_bot_switch_in_progress car_id in_progress s = record s {
    car_identity =
        at_identity car_id (λ i. record i { bot_switch_in_progress = in_progress }) s.car_identity;
  }

  unfoldable pub is_bot_switch_in_progress : ℕ → RaceRuntimeStore → Bool
  is_bot_switch_in_progress car_id s = elim (Dict.get car_id s.car_identity) [
    | none ↦ false
    | some identity ↦ identity.bot_switch_in_progress
  ]

  unfoldable pub is_in_stationary_fix : ℕ → RaceRuntimeStore → Bool
  is_in_stationary_fix car_id s = elim (Dict.get car_id s.car_pit_state) [
    | none ↦ false
    | some entry ↦ entry.in_stationary_fix
  ]

  unfoldable pub official_race_duration_sec : RaceRuntimeStore → Option ℕ
  official_race_duration_sec s =
      if s.official_race_duration_sec == 0
      then none
      else if leb s.official_race_duration_sec u32_max
      then some s.official_race_duration_sec
      else none

  unfoldable pub official_race_started_at_ms : RaceRuntimeStore → Option ℕ
  official_race_started_at_ms s =
      if s.official_race_started_at_ms == 0 then none else some s.official_race_started_at_ms
