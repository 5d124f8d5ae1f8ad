-- ===== src/Domain/WeatherDominant.antt =====
-- game-server/src/domain/weather.rs: the weather type that holds longest in a window.
use hack_arena3_0_backend.Common.Dict
use hack_arena3_0_backend.Common.Dict.{Dict, Eq}
use hack_arena3_0_backend.Common.Int.{ℤ, pos, ◌+ℤ◌, ◌-ℤ◌, ltb_ℤ, wrap_i64}
use hack_arena3_0_backend.Common.{
  ℕ, ◌≡◌, ◌↔◌, refl, ap, sym, ◌∙◌, Bool, true, false, not, ◌||◌, List, [], ◌∷◌, Option, none, some,
  if◌then◌else◌, is_empty, leb, ◌==◌, ==_iff,
}
use hack_arena3_0_backend.Domain.Weather.{
  WeatherType, ScheduleEntry, WeatherApi, split_at_time, sweep, type_or_unspecified,
}
use mathlib.Core.Option.{get_or}

-- `==` of weather types goes through their numbers.
abbrev tag : WeatherType → ℕ
tag WeatherType.unspecified = 0
tag WeatherType.clear = 1
tag WeatherType.partly_cloudy = 2
tag WeatherType.overcast = 3
tag WeatherType.light_rain = 4
tag WeatherType.medium_rain = 5
tag WeatherType.heavy_rain = 6

abbrev of_tag : ℕ → WeatherType
of_tag n =
    if n == 0
    then WeatherType.unspecified
    else if n == 1
    then WeatherType.clear
    else if n == 2
    then WeatherType.partly_cloudy
    else if n == 3
    then WeatherType.overcast
    else if n == 4
    then WeatherType.light_rain
    else if n == 5
    then WeatherType.medium_rain
    else WeatherType.heavy_rain

of_tag-tag : (t : WeatherType) → of_tag (tag t) ≡ t
of_tag-tag WeatherType.unspecified = refl
of_tag-tag WeatherType.clear = refl
of_tag-tag WeatherType.partly_cloudy = refl
of_tag-tag WeatherType.overcast = refl
of_tag-tag WeatherType.light_rain = refl
of_tag-tag WeatherType.medium_rain = refl
of_tag-tag WeatherType.heavy_rain = refl

unfoldable pub same_type : WeatherType → WeatherType → Bool
same_type a b = tag a == tag b

pub same_type_iff : (a b : WeatherType) → (same_type a b ≡ true) ↔ (a ≡ b)
unfolding same_type
same_type_iff a b = (
  λ h. sym (of_tag-tag a) ∙ ap of_tag ((==_iff (tag a) (tag b)).0 h) ∙ of_tag-tag b,
  λ e. (==_iff (tag a) (tag b)).1 (ap tag e),
)

instance abbrev pub weather_type_eq : Eq WeatherType
weather_type_eq = record { beq = same_type; beq_iff = same_type_iff }

-- For each type the time it holds, and when it was first seen.
abbrev pub Stats : Type 0
Stats = Dict WeatherType (ℤ × ℤ)

unfoldable pub add_duration : WeatherType → ℤ → ℤ → Stats → Stats
add_duration current cursor next_change stats =
    let (duration_ms, first_seen) = get_or (Dict.get current stats) (pos 0, cursor) in
    Dict.insert current (wrap_i64 (duration_ms +ℤ wrap_i64 (next_change -ℤ cursor)), first_seen)
      stats

-- `stats` behind the loop.
unfoldable pub stats_for_window : List ScheduleEntry → ℤ → ℤ → Stats
unfolding add_duration
stats_for_window entries start_ms end_ms =
    let (last, next) = split_at_time start_ms none entries in
    sweep (λ entry. entry.weather_type) add_duration end_ms next start_ms (type_or_unspecified last)
      []

module _ ⦃api : WeatherApi⦄ where
  abbrev Candidate : Type 0
  Candidate = WeatherType × (ℤ × ℤ)

  -- The key of the first is at least that of the second: longer, then earlier, then by type.
  unfoldable pub at_least : Candidate → Candidate → Bool
  at_least (t, (d, f)) (best, (e, g)) =
      if ltb_ℤ e d
      then true
      else if ltb_ℤ d e
      then false
      else if ltb_ℤ f g
      then true
      else if ltb_ℤ g f
      then false
      else leb (api.rank t) (api.rank best)

  -- `max_by_key`: the last of the greatest entries.
  unfoldable pub max_from : Candidate → List Candidate → Candidate
  unfolding at_least
  max_from best [] = best
  max_from best (c ∷ cs) = max_from (if at_least c best then c else best) cs

  unfoldable pub max_by_key : List Candidate → Option Candidate
  unfolding max_from
  max_by_key [] = none
  max_by_key (c ∷ cs) = some (max_from c cs)

  unfoldable pub chosen_type : Option Candidate → WeatherType
  chosen_type none = WeatherType.unspecified
  chosen_type (some (t, _)) = t

  unfoldable pub dominant_weather_type_for_window : List ScheduleEntry → ℤ → ℤ → WeatherType
  unfolding max_by_key chosen_type stats_for_window
  dominant_weather_type_for_window entries start_ms end_ms =
      if not (ltb_ℤ start_ms end_ms) || is_empty entries
      then WeatherType.unspecified
      else chosen_type (max_by_key (stats_for_window entries start_ms end_ms))
