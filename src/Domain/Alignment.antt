-- ===== src/Domain/Alignment.antt =====
-- The slot boundaries of game-server/src/domain/weather.rs.
use hack_arena3_0_backend.Common.Int.{
  ℤ, pos, negsuc, ◌+ℤ◌, ◌-ℤ◌, ltb_ℤ, ◌≤ℤ◌, +ℤ_parts, -ℤ_parts, int_laws, i64_max, wrap_i64,
  wrap_i64_within,
}
use hack_arena3_0_backend.Common.{ℕ, ◌≤◌, ◌<◌, ◌≡◌, ap, true, ok, arith}
use hack_arena3_0_backend.Domain.Weather.{ForecastPreset}
use hack_arena3_0_backend.Domain.Forecast.{preset_window, rem_euclid, align_start_to_preset_slot}
use hack_arena3_0_backend.Domain.ForecastSlots.{grid, is_preset, next_slot, rem_below}

-- The start of a slot of the step that a time lies in.
pub record SlotStart (step_ms : ℕ) (t aligned : ℤ) : Type 0 where
  pub boundary : rem_euclid aligned step_ms ≡ 0
  pub behind : aligned ≤ℤ t
  pub within : ltb_ℤ t (aligned +ℤ pos step_ms) ≡ true

-- Taking the remainder off a time leaves a boundary of the slots of a quarter or of an hour.
quarter_boundary : (t : ℤ) → rem_euclid (t -ℤ pos (rem_euclid t 900000)) 900000 ≡ 0
unfolding rem_euclid ◌-ℤ◌
quarter_boundary t = ground arith

hour_boundary : (t : ℤ) → rem_euclid (t -ℤ pos (rem_euclid t 3600000)) 3600000 ≡ 0
unfolding rem_euclid ◌-ℤ◌
hour_boundary t = ground arith

slot :
    (t : ℤ) (step_ms : ℕ)
    → 0 < step_ms
    → rem_euclid (t -ℤ pos (rem_euclid t step_ms)) step_ms ≡ 0
    → SlotStart step_ms t (t -ℤ pos (rem_euclid t step_ms))
slot t step_ms p b =
    let r = rem_euclid t step_ms in
    let less = rem_below t step_ms p in
    record {
      boundary = b;
      behind = omega int_laws;
      within = ground (arith, less, -ℤ_parts t (pos r), +ℤ_parts (t -ℤ pos r) (pos step_ms));
    }

next_start :
    (t : ℤ) (step_ms : ℕ)
    → 0 < step_ms
    → next_slot t step_ms ≡ t -ℤ pos (rem_euclid t step_ms) +ℤ pos step_ms
next_start t step_ms p = let less = rem_below t step_ms p in omega (int_laws, less)

-- The range of the times whose slot starts in the range of i64.
abbrev pub InRange : ℤ → Type 0
InRange t = (negsuc i64_max +ℤ pos 3600000 ≤ℤ t) × (t ≤ℤ pos i64_max)

in_range :
    (t : ℤ) (step_ms : ℕ)
    → 0 < step_ms
    → step_ms ≤ 3600000
    → InRange t
    → wrap_i64 (t -ℤ pos (rem_euclid t step_ms)) ≡ t -ℤ pos (rem_euclid t step_ms)
in_range t step_ms p m h =
    let less = rem_below t step_ms p in
    wrap_i64_within _ (omega (int_laws, less, m, h)) (omega (int_laws, h))

-- What aligning a time to the slots of a preset gives.
abbrev pub Aligned : ℤ → ForecastPreset → Type 0
Aligned t preset =
    (aligned : ℤ) × (align_start_to_preset_slot t preset ≡ ok aligned)
    × SlotStart (grid preset).0 t aligned
    × (next_slot t (grid preset).0 ≡ aligned +ℤ pos (grid preset).0)

-- Aligning a time gives the start of the slot of the preset in which it lies, a boundary that is
-- not behind the time and less than a step before it, and the forecast goes on from the next
-- boundary; the slot starts in the range of i64.
pub align-Aligned :
    (t : ℤ) (preset : ForecastPreset) → is_preset preset ≡ true → InRange t → Aligned t preset
unfolding align_start_to_preset_slot preset_window
align-Aligned t ForecastPreset.unspecified p h = ground (arith, p)
align-Aligned t ForecastPreset.one_hour_step_15_min p h = (
  t -ℤ pos (rem_euclid t 900000),
  ap ok (in_range t 900000 (omega arith) (omega arith) h),
  slot t 900000 (omega arith) (quarter_boundary t),
  next_start t 900000 (omega arith),
)
align-Aligned t ForecastPreset.twelve_hours_step_1_hour p h = (
  t -ℤ pos (rem_euclid t 3600000),
  ap ok (in_range t 3600000 (omega arith) (omega arith) h),
  slot t 3600000 (omega arith) (hour_boundary t),
  next_start t 3600000 (omega arith),
)
