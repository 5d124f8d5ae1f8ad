-- ===== src/Local/SandboxConfig.antt =====
-- game-server/src/local/sandbox_config_store/model.rs and error.rs: the records of local sandboxes
-- and their validation. The numbers of a `LocalGhostModeSettingsRecord` are `f32` values.
use hack_arena3_0_backend.Common.Int.{ℤ, pos, ltb_ℤ}
use hack_arena3_0_backend.Common.{
  ℕ, Bool, true, false, not, ◌&&◌, ◌||◌, Option, none, some, String, Result, ok, ◌>>◌, fail_if,
  if◌then◌else◌, length, is_empty, ltb, ◌==◌, all_codes, is_ascii_alphanumeric, trim,
}

-- `f32` with its tests, the cargo feature `standalone`, and the errors of the libraries.
pub record StoreApi : Type 1 where
  pub F32 : Type 0
  pub is_finite : F32 → Bool
  pub is_negative : F32 → Bool
  pub exceeds : F32 → F32 → Bool
  pub standalone : Bool
  pub IoError : Type 0
  pub SerdeError : Type 0

pub data LocalTimeOfDayModeRecord : Type 0 where
  fixed_preset auto_by_local_time : LocalTimeOfDayModeRecord

pub data RuntimeTimeOfDayPresetRecord : Type 0 where
  morning noon evening night : RuntimeTimeOfDayPresetRecord

pub data WeatherTypeRecord : Type 0 where
  clear partly_cloudy overcast light_rain medium_rain heavy_rain : WeatherTypeRecord

pub data LocalSandboxSpawnModeRecord : Type 0 where
  start_line random_on_track in_pit random_start_slot : LocalSandboxSpawnModeRecord

pub record LocalTimeOfDaySettingsRecord : Type 0 where
  pub mode : LocalTimeOfDayModeRecord
  pub fixed_preset : RuntimeTimeOfDayPresetRecord

pub record LocalWeatherSettingsRecord : Type 0 where
  pub weather_type : WeatherTypeRecord
  pub temperature_c : ℤ

module _ ⦃api : StoreApi⦄ where
  pub record LocalGhostModeSettingsRecord : Type 0 where
    pub enabled : Bool
    pub enter_speed_max_mps : api.F32
    pub exit_speed_min_mps : api.F32
    pub enter_delay_ms : ℕ
    pub exit_delay_ms : ℕ
    pub until_completed_laps : ℕ
    pub vehicle_overlap_exit_delay_ms : ℕ

  pub record LocalSandboxConfigInputRecord : Type 0 where
    pub sandbox_name : String
    pub map_id : String
    pub time_of_day : LocalTimeOfDaySettingsRecord
    pub ghost_mode : Option LocalGhostModeSettingsRecord
    pub weather : LocalWeatherSettingsRecord
    pub spawn_mode : LocalSandboxSpawnModeRecord

  pub record LocalSandboxConfigRecord : Type 0 where
    pub sandbox_id : String
    pub config : LocalSandboxConfigInputRecord

  pub data LocalSandboxConfigStoreError : Type 0 where
    io : api.IoError → LocalSandboxConfigStoreError
    serde : api.SerdeError → LocalSandboxConfigStoreError
    revision_mismatch : ℕ → ℕ → LocalSandboxConfigStoreError
    already_exists : String → LocalSandboxConfigStoreError
    not_found : String → LocalSandboxConfigStoreError
    invalid_config : String → LocalSandboxConfigStoreError

  abbrev pub Checked : Type 0
  Checked = Result LocalSandboxConfigStoreError (Unit {0})

  abbrev pub max_sandbox_name_len_chars : ℕ
  max_sandbox_name_len_chars = 64

  abbrev pub max_ghost_delay_ms : ℕ
  max_ghost_delay_ms = 600000

  abbrev pub max_ghost_until_completed_laps : ℕ
  max_ghost_until_completed_laps = 100000

  unfoldable pub is_map_id_code : ℕ → Bool
  is_map_id_code c =
      if api.standalone
      then is_ascii_alphanumeric c
      else is_ascii_alphanumeric c || c == b'-' || c == b'_'

  unfoldable pub is_specified : RuntimeTimeOfDayPresetRecord → Bool
  is_specified RuntimeTimeOfDayPresetRecord.morning = true
  is_specified RuntimeTimeOfDayPresetRecord.noon = true
  is_specified RuntimeTimeOfDayPresetRecord.evening = true
  is_specified RuntimeTimeOfDayPresetRecord.night = true

  unfoldable pub is_fixed : LocalTimeOfDayModeRecord → Bool
  is_fixed LocalTimeOfDayModeRecord.fixed_preset = true
  is_fixed LocalTimeOfDayModeRecord.auto_by_local_time = false

  unfoldable pub validate_time_of_day_settings : LocalTimeOfDaySettingsRecord → Checked
  validate_time_of_day_settings settings =
      fail_if (is_fixed settings.mode && not (is_specified settings.fixed_preset)) (
        LocalSandboxConfigStoreError.invalid_config
          "time_of_day.fixed_preset must be specified for fixed mode")

  unfoldable pub validate_local_weather_settings : LocalWeatherSettingsRecord → Checked
  validate_local_weather_settings settings =
      fail_if (ltb_ℤ settings.temperature_c (pos 1) || ltb_ℤ (pos 30) settings.temperature_c) (
        LocalSandboxConfigStoreError.invalid_config "weather.temperature_c must be in range 1..=30")

  unfoldable pub validate_ghost_mode : LocalGhostModeSettingsRecord → Checked
  validate_ghost_mode ghost =
      fail_if
        (not (api.is_finite ghost.enter_speed_max_mps) || api.is_negative ghost.enter_speed_max_mps)
        (LocalSandboxConfigStoreError.invalid_config
          "ghost_mode.enter_speed_max_mps must be finite and >= 0")
      >> fail_if
          (not (api.is_finite ghost.exit_speed_min_mps) || api.is_negative ghost.exit_speed_min_mps)
          (LocalSandboxConfigStoreError.invalid_config
            "ghost_mode.exit_speed_min_mps must be finite and >= 0")
      >> fail_if (api.exceeds ghost.enter_speed_max_mps ghost.exit_speed_min_mps) (
          LocalSandboxConfigStoreError.invalid_config
            "ghost_mode.enter_speed_max_mps must be <= ghost_mode.exit_speed_min_mps")
      >> fail_if (ltb max_ghost_delay_ms ghost.enter_delay_ms) (
          LocalSandboxConfigStoreError.invalid_config "ghost_mode.enter_delay_ms must be <= 600000")
      >> fail_if (ltb max_ghost_delay_ms ghost.exit_delay_ms)
          (LocalSandboxConfigStoreError.invalid_config "ghost_mode.exit_delay_ms must be <= 600000")
      >> fail_if (ltb max_ghost_delay_ms ghost.vehicle_overlap_exit_delay_ms) (
          LocalSandboxConfigStoreError.invalid_config
            "ghost_mode.vehicle_overlap_exit_delay_ms must be <= 600000")
      >> fail_if (ltb max_ghost_until_completed_laps ghost.until_completed_laps) (
          LocalSandboxConfigStoreError.invalid_config
            "ghost_mode.until_completed_laps must be <= 100000")

  unfoldable pub validate_optional_ghost : Option LocalGhostModeSettingsRecord → Checked
  validate_optional_ghost none = ok tt
  validate_optional_ghost (some ghost) = validate_ghost_mode ghost

  unfoldable pub validate_local_sandbox_config_input : LocalSandboxConfigInputRecord → Checked
  validate_local_sandbox_config_input input =
      fail_if (is_empty (trim input.sandbox_name))
        (LocalSandboxConfigStoreError.invalid_config "sandbox_name must be non-empty")
      >> fail_if (ltb max_sandbox_name_len_chars (length (trim input.sandbox_name)))
          (LocalSandboxConfigStoreError.invalid_config "sandbox_name must be at most 64 characters")
      >> fail_if (is_empty (trim input.map_id))
          (LocalSandboxConfigStoreError.invalid_config "map_id must be non-empty")
      >> fail_if (not (all_codes is_map_id_code (trim input.map_id)))
          (LocalSandboxConfigStoreError.invalid_config "map_id contains invalid characters")
      >> validate_time_of_day_settings input.time_of_day
      >> validate_local_weather_settings input.weather
      >> validate_optional_ghost input.ghost_mode
