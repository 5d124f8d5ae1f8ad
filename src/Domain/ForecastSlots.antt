-- ===== src/Domain/ForecastSlots.antt =====
-- The slots of a forecast of game-server/src/domain/weather.rs.
use native.Mathlib.Nat
use hack_arena3_0_backend.Common.Int.{ℤ, pos, negsuc, ◌+ℤ◌}
use hack_arena3_0_backend.Common.{ℕ, zero, suc, ◌-◌, ◌*◌, ◌<◌, Bool, true, false, List, ◌++◌, arith}
use hack_arena3_0_backend.Domain.Weather.{ForecastPreset, ForecastPoint, ScheduleEntry}
use hack_arena3_0_backend.Domain.Forecast.{rem_euclid, point_at}

-- The points of a slot and of those that follow it at the step.
abbrev pub slot_points : List ScheduleEntry → ℕ → ℤ → ℕ → List ForecastPoint
slot_points entries step_ms time_ms zero = point_at entries time_ms
slot_points entries step_ms time_ms (suc more) =
    point_at entries time_ms ++ slot_points entries step_ms (time_ms +ℤ pos step_ms) more

pub rem_below : (t : ℤ) (step_ms : ℕ) → 0 < step_ms → rem_euclid t step_ms < step_ms
unfolding rem_euclid
rem_below (pos n) step_ms h = Nat.mod-lt n h
rem_below (negsuc n) step_ms h = omega (arith, h)

-- The step of a preset and the number of slots behind the first one that its window reaches.
abbrev pub grid : ForecastPreset → ℕ × ℕ
grid ForecastPreset.unspecified = (1, 0)
grid ForecastPreset.one_hour_step_15_min = (15 * 60 * 1000, 3)
grid ForecastPreset.twelve_hours_step_1_hour = (60 * 60 * 1000, 11)

-- The first boundary between the slots of a preset that lies behind a time.
abbrev pub next_slot : ℤ → ℕ → ℤ
next_slot t step_ms = t +ℤ pos (step_ms - rem_euclid t step_ms)

abbrev pub is_preset : ForecastPreset → Bool
is_preset ForecastPreset.unspecified = false
is_preset _ = true
