-- ===== src/Race/JoinedSandboxes.antt =====
-- The sandboxes that game-server/src/services/race/runtime_store.rs finds for a team.
use hack_arena3_0_backend.Common.Dict
use hack_arena3_0_backend.Common.Dict.{Dict, nat_eq, string_eq, get-insert}
use hack_arena3_0_backend.Common.{
  ℕ, ◌<◌, ◌≡◌, Bool, true, false, [], ◌∷◌, none, some, String, arith, =ₛ_iff, trim, List, ◌⊎◌,
  Option, ◌↔◌, ◌≢◌, ◌∙◌, sym, ap, inl, inr, Option-cases,
}
use hack_arena3_0_backend.Race.CarCounts.{cars_with, count_of, active_car_counts-exact}
use hack_arena3_0_backend.Race.PitState.{FloatApi}
use hack_arena3_0_backend.Race.RuntimeStore.{RaceRuntimeStore, RuntimeCarIdentity}
use hack_arena3_0_backend.Race.StoreAccess.{
  sandbox_of, team_matches, same_codes, joined_sandboxes, joined_sandbox_ids_for_team,
  active_car_counts_by_sandbox,
}
use hack_arena3_0_backend.Runtime.Model.{EngineCommandTarget}
use mathlib.Core.Option.{some-injective}

-- Whether the set has the name.
abbrev pub has : String → Dict String (Unit {0}) → Bool
has id sandboxes = elim (Dict.get id sandboxes) [ none ↦ false | some _ ↦ true ]

-- A car whose identity has a team of this name, trimmed.
abbrev pub OfTeam : List ℕ → Option RuntimeCarIdentity → Type 0
OfTeam name none = ⊥
OfTeam name (some identity) = (team : String) × (identity.team_id ≡ some team) × (trim team ≡ name)

-- A car of the team is driven in the sandbox.
abbrev pub DrivesIn :
    List ℕ → Dict ℕ RuntimeCarIdentity → String → Dict ℕ EngineCommandTarget → Type 0
DrivesIn name identities id [] = ⊥
DrivesIn name identities id ((car_id, target) ∷ d) =
    ((target ≡ EngineCommandTarget.sandbox id) × OfTeam name (Dict.get car_id identities))
    ⊎ DrivesIn name identities id d

same_codes_iff : (a b : List ℕ) → (same_codes a b ≡ true) ↔ (a ≡ b)
unfolding same_codes
same_codes_iff [] [] = ground arith
same_codes_iff [] (b ∷ bs) = ground arith
same_codes_iff (a ∷ cs) [] = ground arith
same_codes_iff (a ∷ cs) (b ∷ bs) = ground (arith, same_codes_iff cs bs)

team_matches_iff :
    (name : List ℕ) (o : Option RuntimeCarIdentity) → (team_matches name o ≡ true) ↔ OfTeam name o
unfolding team_matches
team_matches_iff name none = ground arith
team_matches_iff name (some identity) = elim (Option-cases identity.team_id) [
  | inl e ↦ (λ h. ground (arith, e, h), λ t. ground (arith, e, t.1))
  | inr (team, e) ↦
      let same = same_codes_iff (trim team) name in
      (
        (λ h. (team, e, same.0 (ground (arith, e, h)))),
        (λ t. rw e (same.1 (ap trim (some-injective team t.0 (sym e ∙ t.1)) ∙ t.2))),
      )
]

has-joined_sandboxes :
    (name : List ℕ) (identities : Dict ℕ RuntimeCarIdentity) (id : String)
    (d : Dict ℕ EngineCommandTarget) (sandboxes : Dict String (Unit {0}))
    → (has id (joined_sandboxes name identities d sandboxes) ≡ true)
      ↔ ((has id sandboxes ≡ true) ⊎ DrivesIn name identities id d)
unfolding joined_sandboxes sandbox_of
has-joined_sandboxes name identities id [] sandboxes = ground arith
has-joined_sandboxes name identities id ((car_id, EngineCommandTarget.official_race) ∷ d)
      sandboxes =
    let rest = has-joined_sandboxes name identities id d sandboxes in ground (arith, rest)
has-joined_sandboxes name identities id ((car_id, EngineCommandTarget.local_race _) ∷ d) sandboxes =
    let rest = has-joined_sandboxes name identities id d sandboxes in ground (arith, rest)
has-joined_sandboxes name identities id ((car_id, EngineCommandTarget.sandbox other) ∷ d)
      sandboxes =
    let added = get-insert other id tt sandboxes in
    let more = has-joined_sandboxes name identities id d (Dict.insert other tt sandboxes) in
    let same = has-joined_sandboxes name identities id d sandboxes in
    let team = team_matches_iff name (Dict.get car_id identities) in
    ground (arith, added, more, same, team, =ₛ_iff other id)

DrivesIn-counted :
    (name : List ℕ) (identities : Dict ℕ RuntimeCarIdentity) (id : String)
    (d : Dict ℕ EngineCommandTarget)
    → DrivesIn name identities id d
    → 0 < cars_with (EngineCommandTarget.sandbox id) d
DrivesIn-counted name identities id [] x = elim x [ ]
DrivesIn-counted name identities id ((car_id, target) ∷ d) (inl (e, t)) =
    rw e (ground (arith, =ₛ_iff id id))
DrivesIn-counted name identities id ((car_id, target) ∷ d) (inr rest) =
    ground (arith, DrivesIn-counted name identities id d rest)

module _ ⦃api : FloatApi⦄ where
  -- The sandboxes of a team are those in which a car is driven whose identity has a team of that
  -- name, both trimmed, and none for a blank name; each of them is counted as active.
  pub joined_sandboxes-active :
      (team_id id : String) (s : RaceRuntimeStore)
      → ((has id (joined_sandbox_ids_for_team team_id s) ≡ true)
          ↔ ((trim team_id ≢ []) × DrivesIn (trim team_id) s.car_identity id s.car_targets))
        × (has id (joined_sandbox_ids_for_team team_id s) ≡ true
            → 0 < count_of id (active_car_counts_by_sandbox s))
  unfolding joined_sandbox_ids_for_team Dict.get
  joined_sandboxes-active team_id id s =
      let all = has-joined_sandboxes (trim team_id) s.car_identity id s.car_targets [] in
      let counted = DrivesIn-counted (trim team_id) s.car_identity id s.car_targets in
      let exact = (active_car_counts-exact id s).0 in
      (ground (arith, all), ground (arith, all, counted, exact))
