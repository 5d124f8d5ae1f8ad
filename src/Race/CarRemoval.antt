-- ===== src/Race/CarRemoval.antt =====
-- The cars and the bot indices of game-server/src/services/race/runtime_store.rs.
use hack_arena3_0_backend.Common.Dict
use hack_arena3_0_backend.Common.Dict.{
  Dict, Eq, nat_eq, string_eq, pair_eq, pair_beq, IsDict, get-remove, get-insert, remove-IsDict,
}
use hack_arena3_0_backend.Common.{
  ℕ, ◌≡◌, ◌≢◌, refl, ◌∙◌, false, Option, none, some, String, arith, ◌==◌, ==_iff, =ₛ_iff,
}
use hack_arena3_0_backend.Race.PitState.{FloatApi}
use hack_arena3_0_backend.Race.RuntimeStore.{RaceRuntimeStore, left_instances, remove_car}

-- The key is gone and all else is as it was.
pub record Forgets {V : Type 0} (key : ℕ) (old new : Dict ℕ V) : Type 0 where
  pub gone : Dict.get key new ≡ none
  pub others : (j : ℕ) → (key == j) ≡ false → Dict.get j new ≡ Dict.get j old

remove-Forgets :
    {V : Type 0} (key : ℕ) (d : Dict ℕ V) → IsDict d → Forgets key d (Dict.remove key d)
remove-Forgets key d h = record {
  gone = get-remove key key d h ∙ ground arith;
  others = λ j n. get-remove key j d h ∙ ground (arith, n);
}

module _ ⦃api : FloatApi⦄ where
  -- No map has a key twice, and the car that an instance has is owned by it.
  pub record Linked (s : RaceRuntimeStore) : Type 0 where
    pub known : IsDict s.known_cars
    pub sequences : IsDict s.last_client_seq
    pub instances : IsDict s.instance_cars
    pub owners : IsDict s.car_owners
    pub engine_ids : IsDict s.car_engine_ids
    pub targets : IsDict s.car_targets
    pub identities : IsDict s.car_identity
    pub pit_states : IsDict s.car_pit_state
    pub controls : IsDict s.car_controls_input
    pub owned :
        (instance_uuid : String) (car : ℕ)
        → Dict.get instance_uuid s.instance_cars ≡ some car
        → Dict.get car s.car_owners ≡ some instance_uuid

  -- A car that was removed: no map has it, and the other cars are as they were.
  pub record Gone (car_id : ℕ) (s t : RaceRuntimeStore) : Type 0 where
    pub known : Forgets car_id s.known_cars t.known_cars
    pub sequences : Forgets car_id s.last_client_seq t.last_client_seq
    pub owners : Forgets car_id s.car_owners t.car_owners
    pub engine_ids : Forgets car_id s.car_engine_ids t.car_engine_ids
    pub targets : Forgets car_id s.car_targets t.car_targets
    pub identities : Forgets car_id s.car_identity t.car_identity
    pub pit_states : Forgets car_id s.car_pit_state t.car_pit_state
    pub controls : Forgets car_id s.car_controls_input t.car_controls_input
    pub instances : (instance_uuid : String) → Dict.get instance_uuid t.instance_cars ≢ some car_id

  -- The instances that are left had their car before, and it is another one.
  instance-left :
      (car_id : ℕ) (s : RaceRuntimeStore)
      → Linked s
      → (owner : Option String) → Dict.get car_id s.car_owners ≡ owner
      → (instance_uuid : String) (car : ℕ)
      → Dict.get instance_uuid (left_instances car_id owner s.instance_cars) ≡ some car
      → (Dict.get instance_uuid s.instance_cars ≡ some car) × ((car_id == car) ≡ false)
  unfolding left_instances
  instance-left car_id s l none o instance_uuid car h =
      ground (arith, h, o, ==_iff car_id car, l.owned instance_uuid car)
  instance-left car_id s l (some owner) o instance_uuid car h = ground (
    arith,
    h,
    o,
    ==_iff car_id car,
    =ₛ_iff owner instance_uuid,
    l.owned instance_uuid car,
    get-remove owner instance_uuid s.instance_cars l.instances,
  )

  left-IsDict :
      (car_id : ℕ) (owner : Option String) (d : Dict String ℕ)
      → IsDict d
      → IsDict (left_instances car_id owner d)
  unfolding left_instances
  left-IsDict car_id none d h = h
  left-IsDict car_id (some owner) d h = ground (arith, h, remove-IsDict owner d h)

  -- Removing a car from a store whose maps have no key twice, and whose instances own their cars,
  -- takes the car out of every map, leaves no instance that has it and the other cars as they were,
  -- and the store that is left is of the same kind.
  pub remove_car-Gone :
      (car_id : ℕ) (s : RaceRuntimeStore)
      → Linked s
      → Gone car_id s (remove_car car_id s) × Linked (remove_car car_id s)
  unfolding remove_car
  remove_car-Gone car_id s l =
      let left = instance-left car_id s l (Dict.get car_id s.car_owners) refl in
      (
        record {
          known = remove-Forgets car_id s.known_cars l.known;
          sequences = remove-Forgets car_id s.last_client_seq l.sequences;
          owners = remove-Forgets car_id s.car_owners l.owners;
          engine_ids = remove-Forgets car_id s.car_engine_ids l.engine_ids;
          targets = remove-Forgets car_id s.car_targets l.targets;
          identities = remove-Forgets car_id s.car_identity l.identities;
          pit_states = remove-Forgets car_id s.car_pit_state l.pit_states;
          controls = remove-Forgets car_id s.car_controls_input l.controls;
          instances =
              λ instance_uuid h. let other = left instance_uuid car_id h in ground (arith, other.1);
        },
        record {
          known = remove-IsDict car_id s.known_cars l.known;
          sequences = remove-IsDict car_id s.last_client_seq l.sequences;
          instances = left-IsDict car_id (Dict.get car_id s.car_owners) s.instance_cars l.instances;
          owners = remove-IsDict car_id s.car_owners l.owners;
          engine_ids = remove-IsDict car_id s.car_engine_ids l.engine_ids;
          targets = remove-IsDict car_id s.car_targets l.targets;
          identities = remove-IsDict car_id s.car_identity l.identities;
          pit_states = remove-IsDict car_id s.car_pit_state l.pit_states;
          controls = remove-IsDict car_id s.car_controls_input l.controls;
          owned = λ instance_uuid car h.
              let before = left instance_uuid car h in
              get-remove car_id car s.car_owners l.owners
              ∙ ground (arith, before.1, l.owned instance_uuid car before.0);
        },
      )
