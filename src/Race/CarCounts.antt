-- ===== src/Race/CarCounts.antt =====
-- The counts of cars in game-server/src/services/race/runtime_store.rs.
use hack_arena3_0_backend.Common.Dict
use hack_arena3_0_backend.Common.Dict.{Dict, nat_eq, string_eq, get-insert}
use hack_arena3_0_backend.Common.{
  true, refl, ℕ, ◌+◌, ◌≤◌, ◌≡◌, ap, ◌∙◌, min, Bool, false, [], ◌∷◌, Option, none, some, String,
  arith, if◌then◌else◌, ◌=ₛ◌, =ₛ_iff, u32_max,
}
use hack_arena3_0_backend.Race.PitState.{FloatApi}
use hack_arena3_0_backend.Race.RuntimeStore.{RaceRuntimeStore}
use hack_arena3_0_backend.Race.StoreAccess.{
  sandbox_of, local_race_of, add_one, count_targets, active_car_counts_by_sandbox,
  active_car_counts_by_local_race,
}
use hack_arena3_0_backend.Runtime.Model.{EngineCommandTarget}
use mathlib.Core.Option.{get_or}

-- Whether an optional name is this one.
abbrev is_name : String → Option String → Bool
is_name id none = false
is_name id (some other) = other =ₛ id

-- Whether two targets are one.
abbrev pub same_target : EngineCommandTarget → EngineCommandTarget → Bool
same_target EngineCommandTarget.official_race EngineCommandTarget.official_race = true
same_target (EngineCommandTarget.local_race a) (EngineCommandTarget.local_race b) = a =ₛ b
same_target (EngineCommandTarget.sandbox a) (EngineCommandTarget.sandbox b) = a =ₛ b
same_target _ _ = false

-- How many cars of the map have this target.
abbrev pub cars_with : EngineCommandTarget → Dict ℕ EngineCommandTarget → ℕ
cars_with target [] = 0
cars_with target ((_, other) ∷ d) = (if same_target other target then 1 else 0) + cars_with target d

-- The count of a name, 0 if it has none.
abbrev pub count_of : String → Dict String ℕ → ℕ
count_of id counts = get_or (Dict.get id counts) 0

count_of-add_one :
    (id : String) (name : Option String) (counts : Dict String ℕ)
    → count_of id counts ≤ u32_max
    → count_of id (add_one name counts)
      ≡ min (count_of id counts + (if is_name id name then 1 else 0)) u32_max
unfolding add_one
count_of-add_one id none counts h = omega (arith, h)
count_of-add_one id (some name) counts h =
    let added = get-insert name id (min (count_of name counts + 1) u32_max) counts in
    ground (arith, added, h, =ₛ_iff name id)

-- What is read off a target is a name exactly when it is the other target.
abbrev Reads : (EngineCommandTarget → Option String) → String → EngineCommandTarget → Type 0
Reads id_of id target =
    (other : EngineCommandTarget) → is_name id (id_of other) ≡ same_target other target

sandbox_of-Reads : (id : String) → Reads sandbox_of id (EngineCommandTarget.sandbox id)
unfolding sandbox_of
sandbox_of-Reads id EngineCommandTarget.official_race = refl
sandbox_of-Reads id (EngineCommandTarget.local_race _) = refl
sandbox_of-Reads id (EngineCommandTarget.sandbox _) = refl

local_race_of-Reads : (id : String) → Reads local_race_of id (EngineCommandTarget.local_race id)
unfolding local_race_of
local_race_of-Reads id EngineCommandTarget.official_race = refl
local_race_of-Reads id (EngineCommandTarget.local_race _) = refl
local_race_of-Reads id (EngineCommandTarget.sandbox _) = refl

count_of-count_targets :
    (id_of : EngineCommandTarget → Option String) (id : String) (target : EngineCommandTarget)
    → Reads id_of id target
    → (d : Dict ℕ EngineCommandTarget) (counts : Dict String ℕ) → count_of id counts ≤ u32_max
    → count_of id (count_targets id_of d counts)
      ≡ min (count_of id counts + cars_with target d) u32_max
unfolding count_targets
count_of-count_targets id_of id target reads [] counts h = omega (arith, h)
count_of-count_targets id_of id target reads ((car_id, other) ∷ d) counts h =
    let one = count_of-add_one id (id_of other) counts h in
    let rest =
      count_of-count_targets id_of id target reads d (add_one (id_of other) counts)
        (ground (arith, one)) in
    ground (arith, one, rest, h, reads other)

module _ ⦃api : FloatApi⦄ where
  -- The two counts of active cars have for each sandbox, and for each local race, the number of the
  -- cars whose target it is, as far as a u32 reaches.
  pub active_car_counts-exact :
      (id : String) (s : RaceRuntimeStore)
      → (count_of id (active_car_counts_by_sandbox s)
          ≡ min (cars_with (EngineCommandTarget.sandbox id) s.car_targets) u32_max)
        × (count_of id (active_car_counts_by_local_race s)
            ≡ min (cars_with (EngineCommandTarget.local_race id) s.car_targets) u32_max)
  unfolding active_car_counts_by_sandbox active_car_counts_by_local_race Dict.get
  active_car_counts-exact id s = (
    count_of-count_targets sandbox_of id _ (sandbox_of-Reads id) s.car_targets [] (omega arith)
        ∙ ap (λ n. min n u32_max) (omega arith),
    count_of-count_targets local_race_of id _ (local_race_of-Reads id) s.car_targets []
          (omega arith)
        ∙ ap (λ n. min n u32_max) (omega arith),
  )
