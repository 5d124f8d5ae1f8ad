-- ===== src/Local/SandboxRequests.antt =====
-- The requests that game-server/src/local/sandbox_config_store/store.rs answers, and the map from
-- ids to sandboxes that they are meant to change.
use hack_arena3_0_backend.Common.{
  ℕ, ◌≡◌, inl, inr, refl, Bool, not, List, [], ◌∷◌, ◌++◌, Option, none, some, String, ok, arith,
  if◌then◌else◌, any, length, length-retain-le, is_some, ◌==◌, ◌=ₛ◌, =ₛ_iff, Bool-cases,
}
use hack_arena3_0_backend.Local.SandboxConfig.{
  StoreApi, LocalTimeOfDaySettingsRecord, LocalWeatherSettingsRecord, LocalSandboxSpawnModeRecord,
  LocalSandboxConfigRecord, LocalSandboxConfigStoreError, Checked,
  validate_local_sandbox_config_input, validate_local_weather_settings,
}
use hack_arena3_0_backend.Local.SandboxConfigStore.{
  FilesApi, M, change_first, has_id, without, create_config, update_config, delete_config,
  update_time_of_day, update_weather, update_spawn_mode,
}

module _ ⦃api : StoreApi⦄ where
  pub data Request : Type 0 where
    create : LocalSandboxConfigRecord → Request
    update : LocalSandboxConfigRecord → Request
    delete : String → Request
    time_of_day : String → LocalTimeOfDaySettingsRecord → Request
    weather : String → LocalWeatherSettingsRecord → Request
    spawn_mode : String → LocalSandboxSpawnModeRecord → Request

  abbrev pub id_of : Request → String
  id_of (Request.create sandbox) = sandbox.sandbox_id
  id_of (Request.update sandbox) = sandbox.sandbox_id
  id_of (Request.delete id) = id
  id_of (Request.time_of_day id t) = id
  id_of (Request.weather id x) = id
  id_of (Request.spawn_mode id m) = id

  -- What is checked before the store is looked at.
  abbrev pub check : Request → Checked
  check (Request.create sandbox) = validate_local_sandbox_config_input sandbox.config
  check (Request.update sandbox) = validate_local_sandbox_config_input sandbox.config
  check (Request.delete id) = ok tt
  check (Request.time_of_day id t) = ok tt
  check (Request.weather id x) = validate_local_weather_settings x
  check (Request.spawn_mode id m) = ok tt

  -- The sandbox of an id.
  abbrev pub lookup : String → List LocalSandboxConfigRecord → Option LocalSandboxConfigRecord
  lookup id [] = none
  lookup id (entry ∷ entries) = if entry.sandbox_id =ₛ id then some entry else lookup id entries

  -- What stands under the id of a request after it, given what stood there.
  abbrev pub after : Request → Option LocalSandboxConfigRecord → Option LocalSandboxConfigRecord
  after (Request.create sandbox) found = some sandbox
  after (Request.update sandbox) found = some sandbox
  after (Request.delete id) found = none
  after (Request.time_of_day id t) none = none
  after (Request.time_of_day id t) (some entry) =
      some (record entry { config = record entry.config { time_of_day = t } })
  after (Request.weather id x) none = none
  after (Request.weather id x) (some entry) =
      some (record entry { config = record entry.config { weather = x } })
  after (Request.spawn_mode id m) none = none
  after (Request.spawn_mode id m) (some entry) =
      some (record entry { config = record entry.config { spawn_mode = m } })

  -- A creation wants a free id, every other request one in use.
  abbrev pub applies : Request → Option LocalSandboxConfigRecord → Bool
  applies (Request.create sandbox) found = not (is_some found)
  applies (Request.update sandbox) found = is_some found
  applies (Request.delete id) found = is_some found
  applies (Request.time_of_day id t) found = is_some found
  applies (Request.weather id x) found = is_some found
  applies (Request.spawn_mode id m) found = is_some found

  abbrev pub refusal : Request → LocalSandboxConfigStoreError
  refusal (Request.create sandbox) = LocalSandboxConfigStoreError.already_exists sandbox.sandbox_id
  refusal (Request.update sandbox) = LocalSandboxConfigStoreError.not_found sandbox.sandbox_id
  refusal (Request.delete id) = LocalSandboxConfigStoreError.not_found id
  refusal (Request.time_of_day id t) = LocalSandboxConfigStoreError.not_found id
  refusal (Request.weather id x) = LocalSandboxConfigStoreError.not_found id
  refusal (Request.spawn_mode id m) = LocalSandboxConfigStoreError.not_found id

  -- The map after a request: only the id of the request is touched.
  abbrev pub Edited :
      Request → List LocalSandboxConfigRecord → List LocalSandboxConfigRecord → Type 0
  Edited request old new =
      (id : String)
      → lookup id new ≡ (
          if id_of request =ₛ id then after request (lookup (id_of request) old) else lookup id old)

module _ ⦃api : StoreApi⦄ ⦃files : FilesApi⦄ where
  -- The method that answers a request.
  unfoldable pub perform : Request → ℕ → M ℕ
  perform (Request.create sandbox) expected = create_config expected sandbox
  perform (Request.update sandbox) expected = update_config expected sandbox
  perform (Request.delete id) expected = delete_config expected id
  perform (Request.time_of_day id t) expected = update_time_of_day expected id t
  perform (Request.weather id x) expected = update_weather expected id x
  perform (Request.spawn_mode id m) expected = update_spawn_mode expected id m

module _ ⦃api : StoreApi⦄ where
  pub lookup-append :
      (id : String) (entries : List LocalSandboxConfigRecord) (sandbox : LocalSandboxConfigRecord)
      → lookup sandbox.sandbox_id entries ≡ none
      → lookup id (entries ++ sandbox ∷ [])
        ≡ (if sandbox.sandbox_id =ₛ id then some sandbox else lookup id entries)
  lookup-append id [] sandbox h = refl
  lookup-append id (entry ∷ entries) sandbox h = ground (
    arith,
    h,
    =ₛ_iff entry.sandbox_id sandbox.sandbox_id,
    =ₛ_iff entry.sandbox_id id,
    =ₛ_iff sandbox.sandbox_id id,
    lookup-append id entries sandbox,
  )

  pub any-lookup :
      (id : String) (entries : List LocalSandboxConfigRecord)
      → any (has_id id) entries ≡ is_some (lookup id entries)
  unfolding has_id
  any-lookup id [] = refl
  any-lookup id (entry ∷ entries) = ground (arith, any-lookup id entries)

  pub lookup-without :
      (id j : String) (entries : List LocalSandboxConfigRecord)
      → lookup j (without id entries) ≡ (if id =ₛ j then none else lookup j entries)
  unfolding without
  lookup-without id j [] = ground arith
  lookup-without id j (entry ∷ entries) = ground (
    arith,
    =ₛ_iff entry.sandbox_id id,
    =ₛ_iff entry.sandbox_id j,
    =ₛ_iff id j,
    lookup-without id j entries,
  )

  pub without_missing :
      (id : String) (entries : List LocalSandboxConfigRecord)
      → lookup id entries ≡ none
      → without id entries ≡ entries
  unfolding without
  without_missing id [] h = refl
  without_missing id (entry ∷ entries) h = ground (arith, h, without_missing id entries)

  pub length-without :
      (id : String) (entries : List LocalSandboxConfigRecord)
      → (length (without id entries) == length entries) ≡ not (is_some (lookup id entries))
  unfolding without
  length-without id [] = refl
  length-without id (entry ∷ entries) =
      ground (arith, length-without id entries, length-retain-le (λ e. not (has_id id e)) entries)

  pub change_missing :
      (id : String) (change : LocalSandboxConfigRecord → LocalSandboxConfigRecord)
      (entries : List LocalSandboxConfigRecord)
      → lookup id entries ≡ none
      → change_first (has_id id) change entries ≡ none
  unfolding change_first has_id
  change_missing id change [] h = refl
  change_missing id change (entry ∷ entries) h = ground (arith, h, change_missing id change entries)

  -- How the entries are after the one with the id was changed.
  abbrev pub Changed :
      String
      → (LocalSandboxConfigRecord → LocalSandboxConfigRecord)
      → List LocalSandboxConfigRecord
      → LocalSandboxConfigRecord
      → Type 0
  Changed id change entries found =
      (new : List LocalSandboxConfigRecord) × (change_first (has_id id) change entries ≡ some new)
      × ((j : String) → lookup j new ≡ (if id =ₛ j then some (change found) else lookup j entries))

  pub change_found :
      (id : String) (change : LocalSandboxConfigRecord → LocalSandboxConfigRecord)
      → ((e : LocalSandboxConfigRecord) → e.sandbox_id ≡ id → (change e).sandbox_id ≡ id)
      → (entries : List LocalSandboxConfigRecord) (found : LocalSandboxConfigRecord)
      → lookup id entries ≡ some found
      → Changed id change entries found
  unfolding change_first has_id
  change_found id change keeps [] found h = ground (arith, h)
  change_found id change keeps (entry ∷ entries) found h =
      elim (Bool-cases (entry.sandbox_id =ₛ id)) [
        | inl e ↦ (
          change entry ∷ entries,
          ground (arith, e),
          λ j. ground (
            arith,
            h,
            e,
            keeps entry,
            =ₛ_iff entry.sandbox_id id,
            =ₛ_iff entry.sandbox_id j,
            =ₛ_iff id j,
          ),
        )
        | inr n ↦
            let rest = change_found id change keeps entries found (ground (arith, h, n)) in
            (
              entry ∷ rest.0,
              ground (arith, n, rest.1),
              λ j. ground (
                arith,
                n,
                rest.2 j,
                =ₛ_iff entry.sandbox_id j,
                =ₛ_iff id j,
                =ₛ_iff entry.sandbox_id id,
              ),
            )
      ]
