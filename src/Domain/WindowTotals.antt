-- ===== src/Domain/WindowTotals.antt =====
-- The rain and the temperature of a window in game-server/src/domain/weather.rs.
use hack_arena3_0_backend.Common.Int.{
  ℤ, pos, negsuc, pos_part, ◌+ℤ◌, ◌*ℤ◌, +ℤ_parts, i64_max, wrap_i64, wrap_i64_small,
}
use hack_arena3_0_backend.Common.{
  ℕ, ◌*◌, ◌≤◌, ◌<◌, ◌≡◌, refl, sym, subst, ap, ◌∙◌, true, false, ◌||◌, List, [], ◌∷◌, Option, none,
  some, arith, All, if◌then◌else◌, is_empty, ◌==◌,
}
use hack_arena3_0_backend.Domain.Weather.{
  WeatherType, ScheduleEntry, WeatherApi, Totals, split_at_time, weather_at, sweep,
  type_or_unspecified, is_rain_type, add_rain, rain_ms_for_window, rain_probability_for_window,
  add_temperature, temperature_totals, average_of, average_from, average_temperature_c_for_window,
  clamp_schedule_temperature_c, is_valid_schedule_temperature_c,
}
use hack_arena3_0_backend.Domain.Windows.{sum_to_const, Sorted}
use hack_arena3_0_backend.Domain.WindowSums.{Weighs}
use hack_arena3_0_backend.Domain.WindowWeather.{elapsed, grown, over_window, window-sum}

pub all_unit : (entries : List ScheduleEntry) → All (λ entry. Unit {0}) entries
all_unit [] = tt
all_unit (entry ∷ entries) = (tt, all_unit entries)

abbrev rain_weight : WeatherType → ℕ
rain_weight t = if is_rain_type t then 1 else 0

-- 1 where it rains and 0 elsewhere.
abbrev pub rains : Option ScheduleEntry → ℕ
rains found = if is_rain_type (type_or_unspecified found) then 1 else 0

add_rain-Weighs : Weighs add_rain rain_weight 1 (λ t. Unit {0}) (λ acc s. s ≡ pos acc)
unfolding add_rain
add_rain-Weighs = record {
  bounded = λ v q. ground arith;
  step = λ v a n acc s q l b r. ground (arith, b, r, elapsed a n l, grown acc n);
}

-- The rain of a window that the code finds is the number of its milliseconds at which a rainy type
-- holds, in a schedule in strictly increasing order.
pub rain_ms-counts :
    (entries : List ScheduleEntry) (start_ms : ℤ) (n : ℕ)
    → Sorted entries
    → n ≤ i64_max
    → rain_ms_for_window entries start_ms (start_ms +ℤ pos n)
      ≡ pos (over_window rains entries start_ms n)
unfolding rain_ms_for_window
rain_ms-counts entries start_ms n sorted l =
    window-sum (λ entry. entry.weather_type) type_or_unspecified (λ entry. refl) add_rain
      rain_weight 1 (λ t. Unit {0}) (λ acc s. s ≡ pos acc) add_rain-Weighs entries start_ms n
      (pos 0) sorted tt (all_unit entries) l (omega (arith, l)) refl

module _ ⦃api : WeatherApi⦄ where
  -- The rain probability of a window of n milliseconds is 0 if n is 0 or there are no entries, and
  -- otherwise the quotient, kept in 0 to 1, of the number of rainy milliseconds by n.
  pub rain_probability-fraction :
      (entries : List ScheduleEntry) (start_ms : ℤ) (n : ℕ)
      → Sorted entries
      → n ≤ i64_max
      → rain_probability_for_window entries start_ms (start_ms +ℤ pos n) ≡ (
          if n == 0 || is_empty entries
          then api.zero
          else api.clamp_unit (
              api.div
                (api.of_i64 (pos (over_window rains entries start_ms n)))
                (api.of_i64 (pos n))))
  unfolding rain_probability_for_window
  rain_probability-fraction entries start_ms n sorted l = ground (
    arith,
    rain_ms-counts entries start_ms n sorted l,
    elapsed start_ms n l,
    +ℤ_parts start_ms (pos n),
  )

abbrev degrees : Option ScheduleEntry → ℤ
degrees none = pos 0
degrees (some entry) = entry.temperature_c

-- The temperature that holds, in degrees.
abbrev pub warmth : Option ScheduleEntry → ℕ
warmth found = pos_part (degrees found)

-- A temperature that a schedule may have.
abbrev Mild : ℤ → Type 0
Mild t = is_valid_schedule_temperature_c t ≡ true

one_times : (n : ℕ) → 1 * n ≡ n
one_times n = omega arith

times : (k n : ℕ) → pos k *ℤ pos n ≡ pos (k * n)
unfolding ◌*ℤ◌
times k n = ground arith

scaled :
    (v : ℤ) (n : ℕ)
    → Mild v
    → pos_part v * n ≤ i64_max
    → wrap_i64 (v *ℤ pos n) ≡ pos (pos_part v * n)
unfolding is_valid_schedule_temperature_c
scaled (pos k) n q h = ap wrap_i64 (times k n) ∙ wrap_i64_small (k * n) h
scaled (negsuc k) n q h = ground (arith, q)

weighted-Weighs : Weighs add_temperature pos_part 30 Mild (λ acc t. t.total_weighted_temp ≡ pos acc)
unfolding add_temperature is_valid_schedule_temperature_c
weighted-Weighs = record {
  bounded = λ v q. ground (arith, q);
  step = λ v a n acc s q l b r.
      ground (arith, q, b, r, elapsed a n l, scaled v n q, grown acc (pos_part v * n));
}

duration-Weighs : Weighs add_temperature (λ v. 1) 1 Mild (λ acc t. t.total_duration_ms ≡ pos acc)
unfolding add_temperature
duration-Weighs = record {
  bounded = λ v q. omega arith;
  step = λ v a n acc s q l b r. ground (arith, b, r, elapsed a n l, grown acc n);
}

abbrev Holds : (ScheduleEntry → Type 0) → Option ScheduleEntry → Type 0
Holds P none = Unit
Holds P (some entry) = P entry

split-Holds :
    (P : ScheduleEntry → Type 0) (t : ℤ) (last : Option ScheduleEntry)
    (entries : List ScheduleEntry)
    → All P entries
    → Holds P last
    → Holds P (split_at_time t last entries).0
unfolding split_at_time
split-Holds P t last [] a h = h
split-Holds P t last (entry ∷ entries) a h =
    ground (arith, h, split-Holds P t (some entry) entries a.1 a.0)

-- Every entry has a temperature that a schedule may have.
abbrev pub AllMild : List ScheduleEntry → Type 0
AllMild = All (λ entry. is_valid_schedule_temperature_c entry.temperature_c ≡ true)

module _ (entries : List ScheduleEntry) (start_ms : ℤ) (n : ℕ) (first : ScheduleEntry)
    (sorted : Sorted entries) (mild : AllMild entries)
    (started : weather_at entries start_ms ≡ some first) (fits : 30 * n ≤ i64_max) where
  abbrev no_totals : Totals
  no_totals = record { total_weighted_temp = pos 0; total_duration_ms = pos 0 }

  -- The loop from a temperature.
  abbrev swept : ℤ → Totals
  swept t =
      sweep (λ entry. entry.temperature_c) add_temperature (start_ms +ℤ pos n)
        (split_at_time start_ms none entries).1 start_ms t no_totals

  from : degrees (split_at_time start_ms none entries).0 ≡ first.temperature_c
  unfolding weather_at
  from = ap degrees started

  from-Mild : Mild (degrees (split_at_time start_ms none entries).0)
  unfolding weather_at
  from-Mild =
      let calm : Mild first.temperature_c =
        subst (Holds (λ entry. Mild entry.temperature_c)) started
          (split-Holds (λ entry. Mild entry.temperature_c) start_ms none entries mild tt) in
      subst Mild (sym from) calm

  weighted_total :
      (swept first.temperature_c).total_weighted_temp ≡ pos (over_window warmth entries start_ms n)
  weighted_total =
      subst (λ t. (swept t).total_weighted_temp ≡ pos (over_window warmth entries start_ms n)) from
        (window-sum (λ entry. entry.temperature_c) degrees (λ entry. refl) add_temperature pos_part
          30 Mild (λ acc t. t.total_weighted_temp ≡ pos acc) weighted-Weighs entries start_ms n
          no_totals sorted from-Mild mild (omega (arith, fits)) fits refl)

  duration_total : (swept first.temperature_c).total_duration_ms ≡ pos n
  duration_total =
      subst (λ t. (swept t).total_duration_ms ≡ pos n) from
        (subst
          (λ k. (swept (degrees (split_at_time start_ms none entries).0)).total_duration_ms ≡ pos k)
          (sum_to_const n 1 (λ i. 1) (λ i k. refl) ∙ one_times n)
          (window-sum (λ entry. entry.temperature_c) degrees (λ entry. refl) add_temperature
            (λ v. 1) 1 Mild (λ acc t. t.total_duration_ms ≡ pos acc) duration-Weighs entries
            start_ms n no_totals sorted from-Mild mild (omega (arith, fits)) (omega (arith, fits))
            refl))

module _ ⦃api : WeatherApi⦄ where
  found_first :
      (start_ms end_ms : ℤ) (rest : Option ScheduleEntry × List ScheduleEntry)
      (first : ScheduleEntry)
      → rest.0 ≡ some first
      → average_from start_ms end_ms rest
        ≡ average_of (temperature_totals rest.1 start_ms end_ms first)
  unfolding average_from
  found_first start_ms end_ms (none, next) first e = ground (arith, e)
  found_first start_ms end_ms (some entry, next) first e = ground (arith, e)

  not_closed :
      (entries : List ScheduleEntry) (start_ms : ℤ) (n : ℕ)
      → 0 < n
      → is_empty entries ≡ false
      → average_temperature_c_for_window entries start_ms (start_ms +ℤ pos n)
        ≡ average_from start_ms (start_ms +ℤ pos n) (split_at_time start_ms none entries)
  unfolding average_temperature_c_for_window
  not_closed entries start_ms n p e = ground (arith, p, e, +ℤ_parts start_ms (pos n))

  average_at :
      (t : Totals) (a n : ℕ)
      → t.total_weighted_temp ≡ pos a
      → t.total_duration_ms ≡ pos n
      → 0 < n
      → average_of t ≡ some (clamp_schedule_temperature_c (api.rounded_quotient (pos a) (pos n)))
  unfolding average_of
  average_at t a n e f p = rw (e, f) (ground (arith, p))

  -- The average temperature of a window of n > 0 milliseconds, in a schedule in strictly increasing
  -- order whose temperatures are ones that a schedule may have and of which an entry has started
  -- when the window starts, is the rounded and clamped quotient of the sum, over the milliseconds
  -- of the window, of the temperature that holds at each, by n.
  pub average_temperature-mean :
      (entries : List ScheduleEntry) (start_ms : ℤ) (n : ℕ) (first : ScheduleEntry)
      → Sorted entries
      → AllMild entries
      → weather_at entries start_ms ≡ some first
      → 0 < n
      → 30 * n ≤ i64_max
      → average_temperature_c_for_window entries start_ms (start_ms +ℤ pos n)
        ≡ some (
            clamp_schedule_temperature_c
              (api.rounded_quotient (pos (over_window warmth entries start_ms n)) (pos n)))
  unfolding average_temperature_c_for_window weather_at average_from average_of temperature_totals
      split_at_time
  average_temperature-mean [] start_ms n first sorted mild started p fits = ground (arith, started)
  average_temperature-mean (entry ∷ entries) start_ms n first sorted mild started p fits =
      not_closed (entry ∷ entries) start_ms n p refl
      ∙ found_first start_ms (start_ms +ℤ pos n) (split_at_time start_ms none (entry ∷ entries))
          first started
      ∙ average_at _ _ n
          (weighted_total (entry ∷ entries) start_ms n first sorted mild started fits)
          (duration_total (entry ∷ entries) start_ms n first sorted mild started fits) p
