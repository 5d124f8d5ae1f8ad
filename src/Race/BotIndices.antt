-- ===== src/Race/BotIndices.antt =====
-- The numbers that game-server/src/services/race/runtime_store.rs gives to the bots of a user in a
-- sandbox.
use hack_arena3_0_backend.Common.Dict
use hack_arena3_0_backend.Common.Dict.{Dict, pair_eq, pair_beq, pair_beq_iff, get-insert}
use hack_arena3_0_backend.Common.{
  ℕ, ◌+◌, ◌≤◌, ◌≡◌, refl, ap, ◌∙◌, min, List, [], ◌∷◌, String, arith, if◌then◌else◌, u32_max, inl,
  inr, Bool-cases,
}
use hack_arena3_0_backend.Race.PitState.{FloatApi}
use hack_arena3_0_backend.Race.RuntimeStore.{
  RaceRuntimeStore, new, next_index, allocate_local_bot_index,
}
use mathlib.Core.Option.{get_or}

-- How often a key stands in a list.
abbrev pub count : String × String → List (String × String) → ℕ
count k [] = 0
count k (j ∷ js) = (if pair_beq j k then 1 else 0) + count k js

module _ ⦃api : FloatApi⦄ where
  -- The allocations for one pair of a sandbox and a user after the other.
  abbrev pub allocations : List (String × String) → RaceRuntimeStore → RaceRuntimeStore
  allocations [] s = s
  allocations (j ∷ js) s = allocations js (allocate_local_bot_index j.0 j.1 s).1

  after_one :
      (j k : String × String) (s : RaceRuntimeStore)
      → next_index k (allocate_local_bot_index j.0 j.1 s).1
        ≡ (if pair_beq j k then min (next_index k s + 1) u32_max else next_index k s)
  unfolding allocate_local_bot_index next_index
  after_one j k s = elim (Bool-cases (pair_beq j k)) [
    | inl h ↦
        let same = (pair_beq_iff j k).0 h in
        rw
          (
            get-insert j k (min (get_or (Dict.get j s.local_bot_next_index) 1 + 1) u32_max)
                s.local_bot_next_index,
            h,
          )
          (ap (λ t. min (get_or (Dict.get t s.local_bot_next_index) 1 + 1) u32_max) same)
    | inr n ↦
        rw
          (
            get-insert j k (min (get_or (Dict.get j s.local_bot_next_index) 1 + 1) u32_max)
                s.local_bot_next_index,
            n,
          )
          refl
  ]

  after_all :
      (js : List (String × String)) (k : String × String) (s : RaceRuntimeStore)
      → next_index k s ≤ u32_max
      → next_index k (allocations js s) ≡ min (next_index k s + count k js) u32_max
  after_all [] k s h = omega (arith, h)
  after_all (j ∷ js) k s h =
      let one = after_one j k s in
      let less : next_index k (allocate_local_bot_index j.0 j.1 s).1 ≤ u32_max =
        ground (arith, one, h) in
      let rest = after_all js k (allocate_local_bot_index j.0 j.1 s).1 less in
      ground (arith, one, rest, h)

  -- After any allocations in a new store, a user gets in a sandbox the number of the allocations for
  -- the two, the new one included, as far as a u32 reaches.
  pub bot_index-counts :
      (js : List (String × String)) (sandbox_id user_id : String)
      → (allocate_local_bot_index sandbox_id user_id (allocations js new)).0
        ≡ min (count (sandbox_id, user_id) js + 1) u32_max
  unfolding allocate_local_bot_index new next_index Dict.get
  bot_index-counts js sandbox_id user_id =
      after_all js (sandbox_id, user_id) new (omega arith) ∙ ap (λ n. min n u32_max) (omega arith)
