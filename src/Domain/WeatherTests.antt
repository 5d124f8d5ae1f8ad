-- ===== src/Domain/WeatherTests.antt =====
-- A schedule of weather, and the theorems on game-server/src/domain/weather.rs at it.
use hack_arena3_0_backend.Domain.Weather.{
  weather_at, is_valid_schedule_temperature_c, split_at_time, sweep, WeatherType, ScheduleEntry,
  WeatherApi, rain_probability_for_window, average_temperature_c_for_window,
  clamp_schedule_temperature_c,
}
use hack_arena3_0_backend.Common.Int.{◌-ℤ◌, wrap_i64, ℤ, pos, ◌+ℤ◌, pos_part}
use hack_arena3_0_backend.Common.Dict.{get, insert}
use hack_arena3_0_backend.Domain.WeatherDominant.{same_type, dominant_weather_type_for_window}
use hack_arena3_0_backend.Common.{
  ◌+◌, ◌/◌, ◌≤◌, ◌≡◌, ◌↔◌, refl, List, [], ◌∷◌, some, ok, arith, ◌||◌, if◌then◌else◌, is_empty,
  ◌==◌,
}
use hack_arena3_0_backend.Domain.Windows.{Sorted}
use hack_arena3_0_backend.Domain.WindowWeather.{over_window}
use hack_arena3_0_backend.Domain.WindowTotals.{
  rains, warmth, rain_probability-fraction, average_temperature-mean,
}
use hack_arena3_0_backend.Domain.WindowLeader.{holds, dominant-leads}
use hack_arena3_0_backend.Domain.Forecast.{UnspecifiedPolicy, validate_schedule}
use hack_arena3_0_backend.Domain.Forecasts.{Allowed, weather_schedule_iff}

-- Quotients of integers for `f32`.
instance abbrev toy_weather : WeatherApi
toy_weather = record {
  F32 = ℤ × ℤ;
  zero = (pos 0, pos 1);
  of_i64 = λ z. (z, pos 1);
  div = λ a b. (a.0, b.0);
  clamp_unit = λ a. a;
  rounded_quotient = λ a b. pos ((pos_part a + pos_part b / 2) / pos_part b);
  rank = λ t. 0;
}

abbrev shower : List ScheduleEntry
shower =
    record { starts_at_ms = pos 0; weather_type = WeatherType.clear; temperature_c = pos 20 }
    ∷ record { starts_at_ms = pos 4; weather_type = WeatherType.light_rain; temperature_c = pos 14 }
    ∷ record {
      starts_at_ms = pos 11;
      weather_type = WeatherType.unspecified;
      temperature_c = pos 16;
    }
    ∷ []

rain_probability-fraction_example : rain_probability_for_window shower (pos 2) (pos 2 +ℤ pos 10) ≡ (
    if 10 == 0 || is_empty shower
    then (pos 0, pos 1)
    else (pos (over_window rains shower (pos 2) 10), pos 10))
rain_probability-fraction_example =
    rain_probability-fraction shower (pos 2) 10 (refl, (refl, tt)) (omega arith)

average_temperature-mean_example :
    average_temperature_c_for_window shower (pos 2) (pos 2 +ℤ pos 10)
    ≡ some (
        clamp_schedule_temperature_c
          (toy_weather.rounded_quotient (pos (over_window warmth shower (pos 2) 10)) (pos 10)))
unfolding is_valid_schedule_temperature_c weather_at split_at_time
average_temperature-mean_example =
    average_temperature-mean shower (pos 2) 10 _ (refl, (refl, tt)) (refl, (refl, (refl, tt))) refl
      (omega arith) (omega arith)

dominant-leads_example :
    over_window (holds WeatherType.clear) shower (pos 2) 10
    ≤ over_window
        (holds (dominant_weather_type_for_window shower (pos 2) (pos 2 +ℤ pos 10)))
        shower
        (pos 2)
        10
dominant-leads_example =
    dominant-leads shower (pos 2) 10 WeatherType.clear (refl, (refl, tt)) refl (omega arith)
      (omega arith)

rain_leads : dominant_weather_type_for_window shower (pos 2) (pos 12) ≡ WeatherType.light_rain
unfolding dominant_weather_type_for_window sweep split_at_time insert same_type wrap_i64 ◌+ℤ◌ get
    ◌-ℤ◌
rain_leads = refl

weather_schedule_iff_example :
    (validate_schedule shower UnspecifiedPolicy.allow_only_tail ≡ ok tt)
    ↔ (Sorted shower × Allowed UnspecifiedPolicy.allow_only_tail shower)
weather_schedule_iff_example = weather_schedule_iff shower UnspecifiedPolicy.allow_only_tail
