-- ===== src/Runtime/Names.antt =====
-- The tables of game-server/src/runtime/engine_worker.rs seen as lists of names.
use hack_arena3_0_backend.Common.Dict.{Dict, string_eq, insert, remove, get}
use hack_arena3_0_backend.Common.{
  ◌≡◌, refl, Bool, true, false, ◌||◌, List, [], ◌∷◌, Option, none, some, String, arith,
  if◌then◌else◌, ◌=ₛ◌, =ₛ_iff, is_some,
}
use hack_arena3_0_backend.Runtime.Model.{
  EngineRuntimeTimeOfDayPreset, EngineRuntimeWeatherNow, EngineApi, EngineActiveSandboxState,
  EngineActiveLocalRaceState,
}
use hack_arena3_0_backend.Runtime.State.{upsert_active_sandbox, is_active_in, remove_active}
use hack_arena3_0_backend.Runtime.Sandbox.{set_preset}
use hack_arena3_0_backend.Runtime.Commands.{set_weather_now}

abbrev pub keys : {V : Type 0} → Dict String V → List String
keys [] = []
keys ((k, v) ∷ d) = k ∷ keys d

abbrev pub member : String → List String → Bool
member k [] = false
member k (j ∷ js) = j =ₛ k || member k js

-- A name is added behind the others, once; the first of a name is deleted.
unfoldable pub add : String → List String → List String
add k [] = k ∷ []
add k (j ∷ js) = if j =ₛ k then j ∷ js else j ∷ add k js

unfoldable pub del : String → List String → List String
del k [] = []
del k (j ∷ js) = if j =ₛ k then js else j ∷ del k js

-- No name stands twice.
abbrev pub Distinct : List String → Type 0
Distinct [] = Unit
Distinct (j ∷ js) = (member j js ≡ false) × Distinct js

pub add-same : (k : String) (js : List String) → member k js ≡ true → add k js ≡ js
unfolding add
add-same k [] h = ground arith
add-same k (j ∷ js) h = ground (arith, add-same k js)

pub member-add : (k i : String) (js : List String) → member i (add k js) ≡ (k =ₛ i || member i js)
unfolding add
member-add k i [] = refl
member-add k i (j ∷ js) = ground (arith, member-add k i js, =ₛ_iff j k, =ₛ_iff k i, =ₛ_iff j i)

pub member-del_le :
    (k i : String) (js : List String) → member i js ≡ false → member i (del k js) ≡ false
unfolding del
member-del_le k i [] h = refl
member-del_le k i (j ∷ js) h = ground (arith, member-del_le k i js)

pub add-Distinct : (k : String) (js : List String) → Distinct js → Distinct (add k js)
unfolding add
add-Distinct k [] d = (refl, tt)
add-Distinct k (j ∷ js) d =
    ground (arith, add-Distinct k js d.1, member-add k j js, =ₛ_iff j k, =ₛ_iff k j)

pub del-Distinct : (k : String) (js : List String) → Distinct js → Distinct (del k js)
unfolding del
del-Distinct k [] d = tt
del-Distinct k (j ∷ js) d = ground (arith, del-Distinct k js d.1, member-del_le k j js d.0)

module _ {V : Type 0} where
  pub keys-insert : (k : String) (v : V) (d : Dict String V) → keys (insert k v d) ≡ add k (keys d)
  unfolding insert add
  keys-insert k v [] = refl
  keys-insert k v ((j, w) ∷ d) = ground (arith, keys-insert k v d)

  pub keys-remove : (k : String) (d : Dict String V) → keys (remove k d) ≡ del k (keys d)
  unfolding remove del
  keys-remove k [] = refl
  keys-remove k ((j, w) ∷ d) = ground (arith, keys-remove k d)

  pub member-keys : (k : String) (d : Dict String V) → member k (keys d) ≡ is_some (get k d)
  unfolding get
  member-keys k [] = refl
  member-keys k ((j, w) ∷ d) = ground (arith, member-keys k d)

module _ ⦃api : EngineApi⦄ where
  abbrev pub ids : List EngineActiveSandboxState → List String
  ids [] = []
  ids (e ∷ es) = e.sandbox_id ∷ ids es

  abbrev pub race_ids : Option EngineActiveLocalRaceState → List String
  race_ids none = []
  race_ids (some race) = race.race_id ∷ []

  pub ids-upsert :
      (es : List EngineActiveSandboxState) (e : EngineActiveSandboxState)
      → ids (upsert_active_sandbox es e) ≡ add e.sandbox_id (ids es)
  unfolding upsert_active_sandbox add
  ids-upsert [] e = refl
  ids-upsert (x ∷ es) e = ground (arith, ids-upsert es e, =ₛ_iff x.sandbox_id e.sandbox_id)

  pub ids-remove :
      (k : String) (es : List EngineActiveSandboxState) → ids (remove_active k es) ≡ del k (ids es)
  unfolding remove_active del
  ids-remove k [] = refl
  ids-remove k (x ∷ es) = ground (arith, ids-remove k es)

  pub member-ids :
      (k : String) (es : List EngineActiveSandboxState) → member k (ids es) ≡ is_active_in k es
  unfolding is_active_in
  member-ids k [] = refl
  member-ids k (x ∷ es) = ground (arith, member-ids k es)

  pub ids-set_preset :
      (k : String) (preset : EngineRuntimeTimeOfDayPreset) (es : List EngineActiveSandboxState)
      → ids (set_preset k preset es) ≡ ids es
  unfolding set_preset
  ids-set_preset k preset [] = refl
  ids-set_preset k preset (x ∷ es) = ground (arith, ids-set_preset k preset es)

  pub ids-set_weather_now :
      (k : String) (now : EngineRuntimeWeatherNow) (es : List EngineActiveSandboxState)
      → ids (set_weather_now k now es) ≡ ids es
  unfolding set_weather_now
  ids-set_weather_now k now [] = refl
  ids-set_weather_now k now (x ∷ es) = ground (arith, ids-set_weather_now k now es)
