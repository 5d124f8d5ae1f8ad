-- ===== src/Local/SandboxHealth.antt =====
-- The invariant of the store of game-server/src/local/sandbox_config_store: its configurations
-- passed their validation, and no id stands twice.
use hack_arena3_0_backend.Common.{
  ◌≡◌, inl, inr, refl, true, false, List, [], ◌∷◌, ◌++◌, none, some, String, ok, arith, All, ◌=ₛ◌,
  =ₛ_iff, Bool-cases, Option-cases, subst,
}
use hack_arena3_0_backend.Local.SandboxConfig.{
  StoreApi, LocalTimeOfDaySettingsRecord, LocalWeatherSettingsRecord, LocalSandboxSpawnModeRecord,
  LocalSandboxConfigRecord, RuntimeTimeOfDayPresetRecord, is_specified,
  validate_local_sandbox_config_input, validate_local_weather_settings,
  validate_time_of_day_settings,
}
use hack_arena3_0_backend.Local.SandboxConfigStore.{change_first, has_id, without}
use hack_arena3_0_backend.Local.SandboxRequests.{lookup, lookup-append, lookup-without}

module _ ⦃api : StoreApi⦄ where
  abbrev pub Sound : LocalSandboxConfigRecord → Type 0
  Sound entry = validate_local_sandbox_config_input entry.config ≡ ok tt

  abbrev pub Distinct : List LocalSandboxConfigRecord → Type 0
  Distinct [] = Unit
  Distinct (entry ∷ entries) = (lookup entry.sandbox_id entries ≡ none) × Distinct entries

  pub record Healthy (entries : List LocalSandboxConfigRecord) : Type 0 where
    pub sound : All Sound entries
    pub distinct : Distinct entries

  specified : (p : RuntimeTimeOfDayPresetRecord) → is_specified p ≡ true
  unfolding is_specified
  specified RuntimeTimeOfDayPresetRecord.morning = refl
  specified RuntimeTimeOfDayPresetRecord.noon = refl
  specified RuntimeTimeOfDayPresetRecord.evening = refl
  specified RuntimeTimeOfDayPresetRecord.night = refl

  -- The presets are all specified ones, so that this check refuses nothing.
  time_of_day_passes : (t : LocalTimeOfDaySettingsRecord) → validate_time_of_day_settings t ≡ ok tt
  unfolding validate_time_of_day_settings
  time_of_day_passes t = ground (arith, specified t.fixed_preset)

  pub time_of_day-Sound :
      (entry : LocalSandboxConfigRecord) (t : LocalTimeOfDaySettingsRecord)
      → Sound entry
      → Sound (record entry { config = record entry.config { time_of_day = t } })
  unfolding validate_local_sandbox_config_input
  time_of_day-Sound entry t h = ground (arith, h, time_of_day_passes t)

  pub weather-Sound :
      (entry : LocalSandboxConfigRecord) (x : LocalWeatherSettingsRecord)
      → validate_local_weather_settings x ≡ ok tt
      → Sound entry
      → Sound (record entry { config = record entry.config { weather = x } })
  unfolding validate_local_sandbox_config_input
  weather-Sound entry x v h = ground (arith, h, v)

  pub spawn_mode-Sound :
      (entry : LocalSandboxConfigRecord) (m : LocalSandboxSpawnModeRecord)
      → Sound entry
      → Sound (record entry { config = record entry.config { spawn_mode = m } })
  unfolding validate_local_sandbox_config_input
  spawn_mode-Sound entry m h = h

  append_sound :
      (entries : List LocalSandboxConfigRecord) (sandbox : LocalSandboxConfigRecord)
      → Sound sandbox
      → All Sound entries
      → All Sound (entries ++ sandbox ∷ [])
  append_sound [] sandbox h a = (h, tt)
  append_sound (entry ∷ entries) sandbox h a = (a.0, append_sound entries sandbox h a.1)

  append-Distinct :
      (entries : List LocalSandboxConfigRecord) (sandbox : LocalSandboxConfigRecord)
      → lookup sandbox.sandbox_id entries ≡ none
      → Distinct entries
      → Distinct (entries ++ sandbox ∷ [])
  append-Distinct [] sandbox h d = (refl, tt)
  append-Distinct (entry ∷ entries) sandbox h d = (
    ground (
      arith,
      h,
      d.0,
      lookup-append entry.sandbox_id entries sandbox,
      =ₛ_iff entry.sandbox_id sandbox.sandbox_id,
      =ₛ_iff sandbox.sandbox_id entry.sandbox_id,
    ),
    append-Distinct entries sandbox (ground (arith, h)) d.1,
  )

  pub append-Healthy :
      (entries : List LocalSandboxConfigRecord) (sandbox : LocalSandboxConfigRecord)
      → Sound sandbox
      → lookup sandbox.sandbox_id entries ≡ none
      → Healthy entries
      → Healthy (entries ++ sandbox ∷ [])
  append-Healthy entries sandbox s h k = record {
    sound = append_sound entries sandbox s k.sound;
    distinct = append-Distinct entries sandbox h k.distinct;
  }

  without_sound :
      (id : String) (entries : List LocalSandboxConfigRecord)
      → All Sound entries
      → All Sound (without id entries)
  unfolding without
  without_sound id [] a = tt
  without_sound id (entry ∷ entries) a = ground (arith, a, without_sound id entries a.1)

  without-Distinct :
      (id : String) (entries : List LocalSandboxConfigRecord)
      → Distinct entries
      → Distinct (without id entries)
  unfolding without
  without-Distinct id [] d = tt
  without-Distinct id (entry ∷ entries) d =
      ground (arith, d, without-Distinct id entries d.1, lookup-without id entry.sandbox_id entries)

  pub without-Healthy :
      (id : String) (entries : List LocalSandboxConfigRecord)
      → Healthy entries
      → Healthy (without id entries)
  without-Healthy id entries k = record {
    sound = without_sound id entries k.sound;
    distinct = without-Distinct id entries k.distinct;
  }

  -- A change of the entry with the id that keeps the id and the soundness.
  pub record Keeps (id : String) (change : LocalSandboxConfigRecord → LocalSandboxConfigRecord)
      : Type 0 where
    pub same_id :
        (found : LocalSandboxConfigRecord) → found.sandbox_id ≡ id → (change found).sandbox_id ≡ id
    pub sound : (found : LocalSandboxConfigRecord) → Sound found → Sound (change found)

  -- What a change of one entry keeps.
  record Kept (id : String) (old new : List LocalSandboxConfigRecord) : Type 0 where
    absent : (j : String) → (id =ₛ j) ≡ false → lookup j old ≡ none → lookup j new ≡ none
    sound : All Sound old → All Sound new
    distinct : Distinct old → Distinct new

  head-Kept :
      (id : String) (change : LocalSandboxConfigRecord → LocalSandboxConfigRecord)
      → Keeps id change
      → (entry : LocalSandboxConfigRecord) (entries : List LocalSandboxConfigRecord)
      → (entry.sandbox_id =ₛ id) ≡ true
      → Kept id (entry ∷ entries) (change entry ∷ entries)
  head-Kept id change k entry entries h =
      let here = (=ₛ_iff entry.sandbox_id id).0 h in
      let there = k.same_id entry here in
      record {
        absent = λ j n a. ground (arith, n, a, there, here);
        sound = λ a. (k.sound entry a.0, a.1);
        distinct = λ d. (ground (arith, d.0, there, here), d.1);
      }

  tail-Kept :
      (id : String) (entry : LocalSandboxConfigRecord) (entries new : List LocalSandboxConfigRecord)
      → (entry.sandbox_id =ₛ id) ≡ false
      → Kept id entries new
      → Kept id (entry ∷ entries) (entry ∷ new)
  tail-Kept id entry entries new h k = record {
    absent = λ j n a. ground (arith, n, a, k.absent j n);
    sound = λ a. (a.0, k.sound a.1);
    distinct = λ d. (
      k.absent entry.sandbox_id
          (ground (arith, h, =ₛ_iff entry.sandbox_id id, =ₛ_iff id entry.sandbox_id)) d.0,
      k.distinct d.1,
    );
  }

  change-Kept :
      (id : String) (change : LocalSandboxConfigRecord → LocalSandboxConfigRecord)
      → Keeps id change
      → (entries new : List LocalSandboxConfigRecord)
      → change_first (has_id id) change entries ≡ some new
      → Kept id entries new
  unfolding change_first has_id
  change-Kept id change k [] new e = ground (arith, e)
  change-Kept id change k (entry ∷ entries) new e = elim (Bool-cases (entry.sandbox_id =ₛ id)) [
    | inl h ↦
        subst (Kept id (entry ∷ entries)) (ground (arith, h, e))
          (head-Kept id change k entry entries h)
    | inr n ↦ elim (Option-cases (change_first (has_id id) change entries)) [
      | inl none_left ↦ ground (arith, n, e, none_left)
      | inr (ys, r) ↦
          subst (Kept id (entry ∷ entries)) (ground (arith, n, e, r))
            (tail-Kept id entry entries ys n (change-Kept id change k entries ys r))
    ]
  ]

  pub change-Healthy :
      (id : String) (change : LocalSandboxConfigRecord → LocalSandboxConfigRecord)
      → Keeps id change
      → (entries new : List LocalSandboxConfigRecord)
      → change_first (has_id id) change entries ≡ some new
      → Healthy entries
      → Healthy new
  change-Healthy id change k entries new e h =
      let kept = change-Kept id change k entries new e in
      record { sound = kept.sound h.sound; distinct = kept.distinct h.distinct }
