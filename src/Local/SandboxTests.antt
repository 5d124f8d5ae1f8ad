-- ===== src/Local/SandboxTests.antt =====
-- A disk with one file and a store on it, and the theorems on
-- game-server/src/local/sandbox_config_store at them.
use hack_arena3_0_backend.Local.SandboxConfigStore.{
  put_sandboxes, bump_revision, commit, has_id, change_first, change_entry,
  ensure_expected_revision, update_weather, io, create_parent, persist, FilesApi,
  LocalSandboxConfigState, World, load_or_create, make, default_state,
}
use hack_arena3_0_backend.Common.Action.{and_then}
use hack_arena3_0_backend.Local.SandboxConfig.{
  validate_optional_ghost, validate_ghost_mode, validate_local_weather_settings, is_specified,
  is_fixed, validate_time_of_day_settings, is_map_id_code, validate_local_sandbox_config_input,
  StoreApi, LocalTimeOfDayModeRecord, RuntimeTimeOfDayPresetRecord, WeatherTypeRecord,
  LocalSandboxSpawnModeRecord, LocalSandboxConfigRecord, LocalSandboxConfigStoreError,
  LocalWeatherSettingsRecord,
}
use hack_arena3_0_backend.Common.{
  is_ascii_alphanumeric, is_whitespace, trim_start, trim_end, trim, ℕ, ◌≡◌, refl, Bool, true, false,
  [], ◌∷◌, Option, none, some, String, Result, ok, err, arith, is_some, ltb, if◌then◌else◌,
}
use hack_arena3_0_backend.Common.Int.{pos}
use hack_arena3_0_backend.Local.SandboxHealth.{Healthy}
use hack_arena3_0_backend.Local.SandboxRequests.{Request, perform}
use hack_arena3_0_backend.Local.SandboxEdits.{Refines, perform-Refines}
use hack_arena3_0_backend.Local.SandboxStore.{Unsaved, perform-Healthy, perform-Unsaved}
use hack_arena3_0_backend.Local.SandboxReload.{FilesLaws, perform-reload}

instance abbrev toy_store : StoreApi
toy_store = record {
  F32 = ℕ;
  is_finite = λ x. true;
  is_negative = λ x. false;
  exceeds = λ x y. ltb y x;
  standalone = false;
  IoError = String;
  SerdeError = String;
}

-- What a file may hold: nothing, the text of a state, or that of a number.
data Raw : Type 0 where
  blank : Raw
  document : LocalSandboxConfigState → Raw
  number : ℕ → Raw

abbrev is_blank_file : Raw → Bool
is_blank_file blank = true
is_blank_file _ = false

abbrev read_file : Option Raw → Result String Raw
read_file none = err "no such file"
read_file (some raw) = ok raw

abbrev parse_file : Raw → Result String LocalSandboxConfigState
parse_file (document s) = ok s
parse_file _ = err "expected value"

abbrev parse_number : Raw → Result String ℕ
parse_number (number n) = ok n
parse_number _ = err "expected f32"

-- A disk that is full, or not, and its one file.
instance abbrev toy_files : FilesApi
toy_files = record {
  FilePath = String;
  Bytes = Raw;
  Disk = Bool × Option Raw;
  no_bytes = is_blank_file;
  parent = λ path. none;
  try_exists = λ path disk. ok (is_some disk.1);
  read = λ path disk. read_file disk.1;
  create_dir_all = λ path disk. (ok tt, disk);
  write =
      λ path raw disk. if disk.0 then (err "no space left", disk) else (ok tt, (false, some raw));
  to_vec_pretty = λ s. ok (document s);
  from_slice = parse_file;
}

toy_laws : FilesLaws
toy_laws = record {
  exists = λ path raw disk h. ground (arith, h);
  readable = λ path raw disk h. ground (arith, h);
  filled = λ state raw h. ground (arith, h);
  number_to_vec = λ x. ok (number x);
  number_from_slice = parse_number;
  parsed = λ state raw k h. ground (arith, h);
}

abbrev sample : LocalSandboxConfigRecord
sample = record {
  sandbox_id = "sandbox-1";
  config = record {
    sandbox_name = " First ";
    map_id = "ring_2";
    time_of_day = record {
      mode = LocalTimeOfDayModeRecord.fixed_preset;
      fixed_preset = RuntimeTimeOfDayPresetRecord.noon;
    };
    ghost_mode = some (record {
      enabled = true;
      enter_speed_max_mps = 3;
      exit_speed_min_mps = 5;
      enter_delay_ms = 1000;
      exit_delay_ms = 1000;
      until_completed_laps = 2;
      vehicle_overlap_exit_delay_ms = 500;
    });
    weather = record { weather_type = WeatherTypeRecord.clear; temperature_c = pos 16 };
    spawn_mode = LocalSandboxSpawnModeRecord.in_pit;
  };
}

abbrev rain : LocalWeatherSettingsRecord
rain = record { weather_type = WeatherTypeRecord.heavy_rain; temperature_c = pos 9 }

abbrev stored : LocalSandboxConfigState
stored = record { revision = 4; sandboxes = sample ∷ [] }

abbrev on_disk : Bool → World
on_disk full = make "sandboxes.json" (full, some (document stored)) stored

stored-Healthy : Healthy (sample ∷ [])
unfolding validate_local_sandbox_config_input trim trim_end trim_start is_whitespace is_map_id_code
    is_ascii_alphanumeric validate_time_of_day_settings is_fixed is_specified
    validate_local_weather_settings validate_optional_ghost validate_ghost_mode
stored-Healthy = record { sound = (refl, tt); distinct = (refl, tt) }

new_file :
    load_or_create "sandboxes.json" (false, none)
    ≡ ok (make "sandboxes.json" (false, some (document default_state)) default_state)
unfolding load_or_create persist and_then create_parent io
new_file = refl

perform-Refines_example :
    Refines
      (Request.weather "sandbox-1" rain)
      4
      (on_disk false)
      (perform (Request.weather "sandbox-1" rain) 4 (on_disk false))
perform-Refines_example = perform-Refines (Request.weather "sandbox-1" rain) 4 (on_disk false)

perform-Healthy_example :
    Healthy (perform (Request.weather "sandbox-1" rain) 4 (on_disk false)).1.store.state.sandboxes
perform-Healthy_example =
    perform-Healthy (Request.weather "sandbox-1" rain) 4 (on_disk false) stored-Healthy

perform-Unsaved_example :
    Unsaved
      (Request.weather "sandbox-1" rain)
      4
      (on_disk true)
      (perform (Request.weather "sandbox-1" rain) 4 (on_disk true)).1
unfolding perform update_weather and_then validate_local_weather_settings ensure_expected_revision
    change_entry change_first has_id commit persist create_parent io bump_revision
perform-Unsaved_example =
    perform-Unsaved (Request.weather "sandbox-1" rain) 4 (on_disk true)
      (LocalSandboxConfigStoreError.io "no space left") refl refl (omega arith)

perform-reload_example :
    load_or_create "sandboxes.json"
      (perform (Request.weather "sandbox-1" rain) 4 (on_disk false)).1.disk
    ≡ ok (perform (Request.weather "sandbox-1" rain) 4 (on_disk false)).1
unfolding toy_laws perform update_weather and_then validate_local_weather_settings
    ensure_expected_revision change_entry change_first has_id put_sandboxes commit persist
    create_parent io bump_revision
perform-reload_example =
    perform-reload toy_laws (Request.weather "sandbox-1" rain) 4 (on_disk false) 5
      (((number 3, refl, refl), (number 5, refl, refl)), tt) refl
