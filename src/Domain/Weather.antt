-- ===== src/Domain/Weather.antt =====
-- game-server/src/domain/weather.rs: the weather schedule, its windows and its forecasts. A time is
-- an i64 of milliseconds; `entries[next_idx..]` is the list of the entries that are still to come.
use hack_arena3_0_backend.Common.Int.{ℤ, pos, ◌+ℤ◌, ◌-ℤ◌, ◌*ℤ◌, ltb_ℤ, min_ℤ, wrap_i64}
use hack_arena3_0_backend.Common.{
  ℕ, ◌*◌, Bool, true, false, not, ◌&&◌, ◌||◌, List, [], ◌∷◌, Option, none, some, if◌then◌else◌,
  is_empty,
}

pub data WeatherType : Type 0 where
  unspecified clear partly_cloudy overcast light_rain medium_rain heavy_rain : WeatherType

pub data ForecastPreset : Type 0 where
  unspecified one_hour_step_15_min twelve_hours_step_1_hour : ForecastPreset

pub record ScheduleEntry : Type 0 where
  pub starts_at_ms : ℤ
  pub weather_type : WeatherType
  pub temperature_c : ℤ

pub record ForecastPoint : Type 0 where
  pub time_ms : ℤ
  pub weather_type : WeatherType

abbrev pub minute_ms : ℕ
minute_ms = 60 * 1000

abbrev pub hour_ms : ℕ
hour_ms = 60 * 60 * 1000

unfoldable pub is_rain_type : WeatherType → Bool
is_rain_type WeatherType.light_rain = true
is_rain_type WeatherType.medium_rain = true
is_rain_type WeatherType.heavy_rain = true
is_rain_type _ = false

abbrev pub has_started : ScheduleEntry → ℤ → Bool
has_started entry time_ms = not (ltb_ℤ time_ms entry.starts_at_ms)

-- `partition_point` at a time: the last entry that has started, after `last`, and those to come.
unfoldable pub split_at_time :
    ℤ → Option ScheduleEntry → List ScheduleEntry → Option ScheduleEntry × List ScheduleEntry
split_at_time time_ms last [] = (last, [])
split_at_time time_ms last (entry ∷ entries) =
    let rest = split_at_time time_ms (some entry) entries in
    if has_started entry time_ms then rest else (last, entry ∷ entries)

unfoldable pub weather_at : List ScheduleEntry → ℤ → Option ScheduleEntry
weather_at entries time_ms = (split_at_time time_ms none entries).0

unfoldable pub weather_type_of : Option ScheduleEntry → Option WeatherType
weather_type_of none = none
weather_type_of (some entry) = some entry.weather_type

unfoldable pub weather_type_at : List ScheduleEntry → ℤ → Option WeatherType
unfolding weather_type_of
weather_type_at entries time_ms = weather_type_of (weather_at entries time_ms)

-- The loop that the three functions on a window share: `visit` is told of every segment of the
-- window with the value that holds in it.
unfoldable pub sweep :
    {S V : Type 0}
    → (ScheduleEntry → V)
    → (V → ℤ → ℤ → S → S)
    → ℤ
    → List ScheduleEntry
    → ℤ
    → V
    → S
    → S
sweep value visit end_ms [] cursor current s =
    if ltb_ℤ cursor end_ms then visit current cursor end_ms s else s
sweep value visit end_ms (entry ∷ entries) cursor current s =
    let next_change = min_ℤ entry.starts_at_ms end_ms in
    let seen = if ltb_ℤ cursor next_change then visit current cursor next_change s else s in
    let later = sweep value visit end_ms entries next_change (value entry) seen in
    if not (ltb_ℤ cursor end_ms) then s else if ltb_ℤ next_change end_ms then later else seen

abbrev pub type_or_unspecified : Option ScheduleEntry → WeatherType
type_or_unspecified none = WeatherType.unspecified
type_or_unspecified (some entry) = entry.weather_type

unfoldable pub add_rain : WeatherType → ℤ → ℤ → ℤ → ℤ
add_rain current cursor next_change rain_ms =
    if is_rain_type current then wrap_i64 (rain_ms +ℤ wrap_i64 (next_change -ℤ cursor)) else rain_ms

-- `rain_ms` behind the loop.
unfoldable pub rain_ms_for_window : List ScheduleEntry → ℤ → ℤ → ℤ
unfolding add_rain
rain_ms_for_window entries start_ms end_ms =
    let (last, next) = split_at_time start_ms none entries in
    sweep (λ entry. entry.weather_type) add_rain end_ms next start_ms (type_or_unspecified last)
      (pos 0)

-- `f32`, `f64`, and the order of the generated enum of weather types.
pub record WeatherApi : Type 1 where
  pub F32 : Type 0
  pub zero : F32
  pub of_i64 : ℤ → F32
  pub div : F32 → F32 → F32
  pub clamp_unit : F32 → F32
  -- `(a as f64 / b as f64).round() as i32`
  pub rounded_quotient : ℤ → ℤ → ℤ
  pub rank : WeatherType → ℕ

module _ ⦃api : WeatherApi⦄ where
  unfoldable pub rain_probability_for_window : List ScheduleEntry → ℤ → ℤ → api.F32
  rain_probability_for_window entries start_ms end_ms =
      if not (ltb_ℤ start_ms end_ms)
      then api.zero
      else if is_empty entries
      then api.zero
      else api.clamp_unit (
          api.div (api.of_i64 (rain_ms_for_window entries start_ms end_ms))
            (api.of_i64 (wrap_i64 (end_ms -ℤ start_ms))))

abbrev pub schedule_temperature_min_c : ℤ
schedule_temperature_min_c = pos 1

abbrev pub schedule_temperature_max_c : ℤ
schedule_temperature_max_c = pos 30

unfoldable pub is_valid_schedule_temperature_c : ℤ → Bool
is_valid_schedule_temperature_c t =
    not (ltb_ℤ t schedule_temperature_min_c) && not (ltb_ℤ schedule_temperature_max_c t)

unfoldable pub clamp_schedule_temperature_c : ℤ → ℤ
clamp_schedule_temperature_c t =
    if ltb_ℤ t schedule_temperature_min_c
    then schedule_temperature_min_c
    else if ltb_ℤ schedule_temperature_max_c t
    then schedule_temperature_max_c
    else t

-- The two totals of the temperature loop.
pub record Totals : Type 0 where
  pub total_weighted_temp : ℤ
  pub total_duration_ms : ℤ

unfoldable pub add_temperature : ℤ → ℤ → ℤ → Totals → Totals
add_temperature current_temp cursor next_change t =
    let duration_ms = wrap_i64 (next_change -ℤ cursor) in
    record {
      total_weighted_temp =
          wrap_i64 (t.total_weighted_temp +ℤ wrap_i64 (current_temp *ℤ duration_ms));
      total_duration_ms = wrap_i64 (t.total_duration_ms +ℤ duration_ms);
    }

unfoldable pub temperature_totals : List ScheduleEntry → ℤ → ℤ → ScheduleEntry → Totals
unfolding add_temperature
temperature_totals next start_ms end_ms first =
    sweep (λ entry. entry.temperature_c) add_temperature end_ms next start_ms first.temperature_c
      (record { total_weighted_temp = pos 0; total_duration_ms = pos 0 })

module _ ⦃api : WeatherApi⦄ where
  unfoldable pub average_of : Totals → Option ℤ
  average_of t =
      if not (ltb_ℤ (pos 0) t.total_duration_ms)
      then none
      else some (
          clamp_schedule_temperature_c
            (api.rounded_quotient t.total_weighted_temp t.total_duration_ms))

  unfoldable pub average_from : ℤ → ℤ → Option ScheduleEntry × List ScheduleEntry → Option ℤ
  average_from start_ms end_ms (none, next) = none
  average_from start_ms end_ms (some first, next) =
      average_of (temperature_totals next start_ms end_ms first)

  unfoldable pub average_temperature_c_for_window : List ScheduleEntry → ℤ → ℤ → Option ℤ
  average_temperature_c_for_window entries start_ms end_ms =
      if not (ltb_ℤ start_ms end_ms) || is_empty entries
      then none
      else average_from start_ms end_ms (split_at_time start_ms none entries)
