-- ===== src/Domain/Forecast.antt =====
-- game-server/src/domain/weather.rs: the validation of a weather schedule and its forecasts. The
-- loop of a forecast runs on fuel.
use hack_arena3_0_backend.Common.Int.{ℤ, pos, negsuc, ◌-ℤ◌, ltb_ℤ, wrap_i64, checked_add}
use hack_arena3_0_backend.Common.{
  ℕ, zero, suc, ◌-◌, ◌*◌, ◌/◌, ◌%◌, Bool, true, false, not, ◌&&◌, List, [], ◌∷◌, ◌++◌, Option, none,
  some, Result, ok, err, ◌>>=◌, ◌>>◌, fail_if, ok_or, if◌then◌else◌, is_empty, ◌==◌,
}
use hack_arena3_0_backend.Domain.Weather.{
  WeatherType, ForecastPreset, ForecastPoint, ScheduleEntry, weather_type_at, minute_ms, hour_ms,
}

pub data WeatherDomainError : Type 0 where
  unspecified_preset timestamp_overflow : WeatherDomainError
  unspecified_not_tail : ℕ → WeatherDomainError
  non_increasing_timestamp : ℕ → ℤ → ℤ → WeatherDomainError

pub data UnspecifiedPolicy : Type 0 where
  allow_anywhere allow_only_tail : UnspecifiedPolicy

pub data AppEnv : Type 0 where
  production development preprod : AppEnv

unfoldable pub unspecified_policy_for_env : AppEnv → UnspecifiedPolicy
unspecified_policy_for_env AppEnv.production = UnspecifiedPolicy.allow_only_tail
unspecified_policy_for_env AppEnv.development = UnspecifiedPolicy.allow_anywhere
unspecified_policy_for_env AppEnv.preprod = UnspecifiedPolicy.allow_anywhere

unfoldable pub is_unspecified : WeatherType → Bool
is_unspecified WeatherType.unspecified = true
is_unspecified _ = false

unfoldable pub is_only_tail : UnspecifiedPolicy → Bool
is_only_tail UnspecifiedPolicy.allow_only_tail = true
is_only_tail UnspecifiedPolicy.allow_anywhere = false

abbrev pub Checked : Type 0
Checked = Result WeatherDomainError (Unit {0})

unfoldable pub check_increasing : ℕ → Option ℤ → ScheduleEntry → Checked
check_increasing idx none entry = ok tt
check_increasing idx (some prev_ts) entry =
    fail_if (not (ltb_ℤ prev_ts entry.starts_at_ms))
      (WeatherDomainError.non_increasing_timestamp idx prev_ts entry.starts_at_ms)

-- The loop from an index on; it stands at the end of the schedule when no entry follows.
unfoldable pub validate_from : UnspecifiedPolicy → ℕ → Option ℤ → List ScheduleEntry → Checked
validate_from policy idx prev [] = ok tt
validate_from policy idx prev (entry ∷ entries) =
    fail_if (is_unspecified entry.weather_type && is_only_tail policy && not (is_empty entries))
      (WeatherDomainError.unspecified_not_tail idx)
    >> check_increasing idx prev entry
    >> validate_from policy (suc idx) (some entry.starts_at_ms) entries

unfoldable pub validate_schedule : List ScheduleEntry → UnspecifiedPolicy → Checked
validate_schedule entries policy = validate_from policy 0 none entries

-- The horizon and the step of a preset.
unfoldable pub preset_window : ForecastPreset → Result WeatherDomainError (ℕ × ℕ)
preset_window ForecastPreset.one_hour_step_15_min = ok (hour_ms, 15 * minute_ms)
preset_window ForecastPreset.twelve_hours_step_1_hour = ok (12 * hour_ms, hour_ms)
preset_window ForecastPreset.unspecified = err WeatherDomainError.unspecified_preset

-- `i64::rem_euclid` by a positive number.
unfoldable pub rem_euclid : ℤ → ℕ → ℕ
rem_euclid (pos n) step_ms = n % step_ms
rem_euclid (negsuc n) step_ms = step_ms - 1 - n % step_ms

unfoldable pub align_start_to_preset_slot : ℤ → ForecastPreset → Result WeatherDomainError ℤ
align_start_to_preset_slot time_ms preset =
    preset_window preset >>= λ window. ok (wrap_i64 (time_ms -ℤ pos (rem_euclid time_ms window.1)))

unfoldable pub next_aligned_bucket_start : ℤ → ℕ → Result WeatherDomainError ℤ
next_aligned_bucket_start time_ms step_ms =
    let rem = rem_euclid time_ms step_ms in
    let delta = if rem == 0 then step_ms else step_ms - rem in
    ok_or (checked_add time_ms (pos delta)) WeatherDomainError.timestamp_overflow

unfoldable pub point_of : ℤ → Option WeatherType → List ForecastPoint
point_of time_ms none = []
point_of time_ms (some weather_type) =
    record { time_ms = time_ms; weather_type = weather_type } ∷ []

-- What one round of the loop pushes.
unfoldable pub point_at : List ScheduleEntry → ℤ → List ForecastPoint
unfolding point_of
point_at entries time_ms = point_of time_ms (weather_type_at entries time_ms)

unfoldable pub next_time : Bool → ℤ → ℕ → Result WeatherDomainError ℤ
next_time true time_ms step_ms = next_aligned_bucket_start time_ms step_ms
next_time false time_ms step_ms =
    ok_or (checked_add time_ms (pos step_ms)) WeatherDomainError.timestamp_overflow

abbrev pub Points : Type 0
Points = Result WeatherDomainError (List ForecastPoint)

-- The rounds behind one, or their error, or none where the fuel ran out.
unfoldable pub push : List ForecastPoint → Option Points → Option Points
push here none = none
push here (some (err e)) = some (err e)
push here (some (ok points)) = some (ok (here ++ points))

unfoldable pub project_from : List ScheduleEntry → ℤ → ℕ → ℕ → Bool → ℤ → Option Points
unfolding push point_at next_time
project_from entries end_ms step_ms zero first time_ms = none
project_from entries end_ms step_ms (suc fuel) first time_ms =
    if ltb_ℤ end_ms time_ms then some (ok []) else elim (next_time first time_ms step_ms) [
      | err e ↦ some (err e)
      | ok next ↦
          let rest = project_from entries end_ms step_ms fuel false next in
          if ltb_ℤ end_ms next
          then some (ok (point_at entries time_ms))
          else push (point_at entries time_ms) rest
    ]

-- The fuel is one more than the slots of the window.
unfoldable pub project_window : List ScheduleEntry → ℤ → ℕ × ℕ → Option Points
unfolding project_from
project_window entries start_ms (horizon_ms, step_ms) =
    elim (checked_add start_ms (pos horizon_ms)) [
      | none ↦ some (err WeatherDomainError.timestamp_overflow)
      | some end_ms ↦ project_from entries end_ms step_ms (suc (horizon_ms / step_ms)) true start_ms
    ]

unfoldable pub project_forecast : List ScheduleEntry → ℤ → ForecastPreset → Option Points
unfolding validate_schedule preset_window project_window
project_forecast entries start_ms preset =
    elim (validate_schedule entries UnspecifiedPolicy.allow_anywhere) [
      | err e ↦ some (err e)
      | ok _ ↦ elim (preset_window preset) [
        | err e ↦ some (err e)
        | ok window ↦ project_window entries start_ms window
      ]
    ]
