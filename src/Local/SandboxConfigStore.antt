-- ===== src/Local/SandboxConfigStore.antt =====
-- game-server/src/local/sandbox_config_store/store.rs: the store of local sandboxes in memory and
-- in its file. What holds the lock is one part of an action; the write of the file comes after it.
use hack_arena3_0_backend.Common.Action.{Action, ◌>>=◌, ◌>>◌, lift, modify, gets, fail_when}
use hack_arena3_0_backend.Common.{
  ℕ, Bool, true, false, not, List, [], ◌∷◌, ◌++◌, Option, none, some, String, Result, ok, err,
  map_err, if◌then◌else◌, any, retain, length, ◌==◌, ◌=ₛ◌, saturating_add,
}
use hack_arena3_0_backend.Local.SandboxConfig.{
  StoreApi, LocalTimeOfDaySettingsRecord, LocalWeatherSettingsRecord, LocalSandboxSpawnModeRecord,
  LocalSandboxConfigRecord, LocalSandboxConfigStoreError, validate_local_sandbox_config_input,
  validate_local_weather_settings,
}

-- The first entry that passes the test is changed; without one there is no result.
unfoldable pub change_first {ℓ} : {A : Type ℓ} → (A → Bool) → (A → A) → List A → Option (List A)
change_first test change [] = none
change_first test change (x ∷ xs) =
    let rest = change_first test change xs in
    if test x then some (change x ∷ xs) else elim rest [ none ↦ none | some ys ↦ some (x ∷ ys) ]

module _ ⦃api : StoreApi⦄ where
  pub record LocalSandboxConfigState : Type 0 where
    pub revision : ℕ
    pub sandboxes : List LocalSandboxConfigRecord

  unfoldable pub has_id : String → LocalSandboxConfigRecord → Bool
  has_id sandbox_id entry = entry.sandbox_id =ₛ sandbox_id

  -- `retain` of the entries with another id.
  unfoldable pub without : String → List LocalSandboxConfigRecord → List LocalSandboxConfigRecord
  unfolding has_id
  without sandbox_id = retain (λ entry. not (has_id sandbox_id entry))

-- The file system and serde_json.
pub record FilesApi ⦃api : StoreApi⦄ : Type 1 where
  pub FilePath : Type 0
  pub Bytes : Type 0
  pub Disk : Type 0
  pub no_bytes : Bytes → Bool
  pub parent : FilePath → Option FilePath
  pub try_exists : FilePath → Disk → Result api.IoError Bool
  pub read : FilePath → Disk → Result api.IoError Bytes
  pub create_dir_all : FilePath → Disk → Result api.IoError (Unit {0}) × Disk
  pub write : FilePath → Bytes → Disk → Result api.IoError (Unit {0}) × Disk
  pub to_vec_pretty : LocalSandboxConfigState → Result api.SerdeError Bytes
  pub from_slice : Bytes → Result api.SerdeError LocalSandboxConfigState

module _ ⦃api : StoreApi⦄ ⦃files : FilesApi⦄ where
  pub record LocalSandboxConfigStore : Type 0 where
    pub path : files.FilePath
    pub state : LocalSandboxConfigState

  -- A store and the disk that holds its file.
  pub record World : Type 0 where
    pub store : LocalSandboxConfigStore
    pub disk : files.Disk

  abbrev pub M : Type 0 → Type 0
  M = Action World LocalSandboxConfigStoreError

  -- A call of the file system.
  unfoldable pub io : {A : Type 0} → (files.Disk → Result api.IoError A × files.Disk) → M A
  io call w =
      (map_err LocalSandboxConfigStoreError.io (call w.disk).0, record w { disk = (call w.disk).1 })

  unfoldable pub create_parent : Option files.FilePath → M (Unit {0})
  create_parent none w = (ok tt, w)
  create_parent (some dir) w = io (files.create_dir_all dir) w

  unfoldable pub persist : M (Unit {0})
  persist = do
    state ← gets (λ w. w.store.state)
    path ← gets (λ w. w.store.path)
    raw ← lift (map_err LocalSandboxConfigStoreError.serde (files.to_vec_pretty state))
    create_parent (files.parent path)
    io (files.write path raw)

  abbrev pub default_state : LocalSandboxConfigState
  default_state = record { revision = 0; sandboxes = [] }

  unfoldable pub parse : files.Bytes → Result LocalSandboxConfigStoreError LocalSandboxConfigState
  parse raw =
      if files.no_bytes raw
      then ok default_state
      else map_err LocalSandboxConfigStoreError.serde (files.from_slice raw)

  -- `tokio::fs::read` and what is made of the bytes.
  unfoldable pub load :
      files.FilePath → files.Disk → Result LocalSandboxConfigStoreError LocalSandboxConfigState
  load path disk = elim (files.read path disk) [
    | err e ↦ err (LocalSandboxConfigStoreError.io e)
    | ok raw ↦ parse raw
  ]

  abbrev pub make : files.FilePath → files.Disk → LocalSandboxConfigState → World
  make path disk state = record { store = record { path = path; state = state }; disk = disk }

  -- The store is handed out only if its file could be read or, when it is new, written.
  unfoldable pub load_or_create :
      files.FilePath → files.Disk → Result LocalSandboxConfigStoreError World
  load_or_create path disk = elim (files.try_exists path disk) [
    | err e ↦ err (LocalSandboxConfigStoreError.io e)
    | ok true ↦ elim (load path disk) [ err e ↦ err e | ok state ↦ ok (make path disk state) ]
    | ok false ↦
        let (r, w) = persist (make path disk default_state) in
        elim r [ err e ↦ err e | ok _ ↦ ok w ]
  ]

  unfoldable pub get_snapshot : World → LocalSandboxConfigState
  get_snapshot w = w.store.state

  unfoldable pub ensure_expected_revision : ℕ → M (Unit {0})
  ensure_expected_revision expected =
      fail_when (λ w. not (expected == w.store.state.revision))
        (λ w. LocalSandboxConfigStoreError.revision_mismatch expected w.store.state.revision)

  unfoldable pub put_sandboxes : List LocalSandboxConfigRecord → World → World
  put_sandboxes sandboxes w = record w {
    store = record w.store { state = record w.store.state { sandboxes = sandboxes } };
  }

  unfoldable pub bump_revision : World → World
  bump_revision w = record w {
    store = record w.store {
      state = record w.store.state { revision = saturating_add w.store.state.revision 1 };
    };
  }

  -- The entry of the id is changed where it stands.
  unfoldable pub change_entry :
      String → (LocalSandboxConfigRecord → LocalSandboxConfigRecord) → M (Unit {0})
  unfolding put_sandboxes
  change_entry sandbox_id change w =
      elim (change_first (has_id sandbox_id) change w.store.state.sandboxes) [
        | none ↦ (err (LocalSandboxConfigStoreError.not_found sandbox_id), w)
        | some sandboxes ↦ (ok tt, put_sandboxes sandboxes w)
      ]

  -- The revision is moved on under the lock; then the file is written.
  unfoldable pub commit : M ℕ
  commit = do
    modify bump_revision
    revision ← gets (λ w. w.store.state.revision)
    persist
    gets (λ w. revision)

  unfoldable pub create_entry : LocalSandboxConfigRecord → M ℕ
  create_entry sandbox = do
    fail_when (λ w. any (has_id sandbox.sandbox_id) w.store.state.sandboxes)
        (λ w. LocalSandboxConfigStoreError.already_exists sandbox.sandbox_id)
    modify (λ w. put_sandboxes (w.store.state.sandboxes ++ sandbox ∷ []) w)
    commit

  unfoldable pub create_config : ℕ → LocalSandboxConfigRecord → M ℕ
  create_config expected sandbox = do
    lift (validate_local_sandbox_config_input sandbox.config)
    ensure_expected_revision expected
    create_entry sandbox

  unfoldable pub update_config : ℕ → LocalSandboxConfigRecord → M ℕ
  update_config expected sandbox = do
    lift (validate_local_sandbox_config_input sandbox.config)
    ensure_expected_revision expected
    change_entry sandbox.sandbox_id (λ _. sandbox)
    commit

  unfoldable pub delete_entry : String → M ℕ
  delete_entry sandbox_id = do
    before ← gets (λ w. length w.store.state.sandboxes)
    modify (λ w. put_sandboxes (without sandbox_id w.store.state.sandboxes) w)
    fail_when (λ w. length w.store.state.sandboxes == before)
        (λ w. LocalSandboxConfigStoreError.not_found sandbox_id)
    commit

  unfoldable pub delete_config : ℕ → String → M ℕ
  delete_config expected sandbox_id = do ensure_expected_revision expected; delete_entry sandbox_id

  unfoldable pub update_time_of_day : ℕ → String → LocalTimeOfDaySettingsRecord → M ℕ
  update_time_of_day expected sandbox_id time_of_day = do
    ensure_expected_revision expected
    change_entry sandbox_id
        (λ entry. record entry { config = record entry.config { time_of_day = time_of_day } })
    commit

  unfoldable pub update_weather : ℕ → String → LocalWeatherSettingsRecord → M ℕ
  update_weather expected sandbox_id weather = do
    lift (validate_local_weather_settings weather)
    ensure_expected_revision expected
    change_entry sandbox_id
        (λ entry. record entry { config = record entry.config { weather = weather } })
    commit

  unfoldable pub update_spawn_mode : ℕ → String → LocalSandboxSpawnModeRecord → M ℕ
  update_spawn_mode expected sandbox_id spawn_mode = do
    ensure_expected_revision expected
    change_entry sandbox_id
        (λ entry. record entry { config = record entry.config { spawn_mode = spawn_mode } })
    commit
