-- ===== src/Domain/Forecasts.antt =====
-- What game-server/src/domain/weather.rs accepts as a schedule, and the slots of its forecasts.
use hack_arena3_0_backend.Common.Int.{ℤ}
use hack_arena3_0_backend.Common.{
  ℕ, suc, ◌≡◌, ◌↔◌, refl, false, not, ◌&&◌, List, [], ◌∷◌, Option, none, some, ok, arith, is_empty,
}
use hack_arena3_0_backend.Domain.Weather.{ScheduleEntry}
use hack_arena3_0_backend.Domain.Windows.{Later, Sorted}
use hack_arena3_0_backend.Domain.Forecast.{
  UnspecifiedPolicy, is_unspecified, is_only_tail, validate_from, check_increasing,
  validate_schedule,
}

-- The policy lets no unspecified type stand before the last entry.
abbrev pub Allowed : UnspecifiedPolicy → List ScheduleEntry → Type 0
Allowed policy [] = Unit
Allowed policy (entry ∷ entries) =
    ((is_unspecified entry.weather_type && is_only_tail policy && not (is_empty entries)) ≡ false)
    × Allowed policy entries

abbrev Follows : Option ℤ → List ScheduleEntry → Type 0
Follows none entries = Sorted entries
Follows (some t) entries = Later t entries

from_sound :
    (policy : UnspecifiedPolicy) (idx : ℕ) (prev : Option ℤ) (entries : List ScheduleEntry)
    → validate_from policy idx prev entries ≡ ok tt
    → Follows prev entries × Allowed policy entries
unfolding validate_from check_increasing
from_sound policy idx none [] h = (tt, tt)
from_sound policy idx (some t) [] h = (tt, tt)
from_sound policy idx none (entry ∷ entries) h =
    let rest = from_sound policy (suc idx) (some entry.starts_at_ms) entries (ground (arith, h)) in
    (rest.0, (ground (arith, h), rest.1))
from_sound policy idx (some t) (entry ∷ entries) h =
    let rest = from_sound policy (suc idx) (some entry.starts_at_ms) entries (ground (arith, h)) in
    ((ground (arith, h), rest.0), (ground (arith, h), rest.1))

from_complete :
    (policy : UnspecifiedPolicy) (idx : ℕ) (prev : Option ℤ) (entries : List ScheduleEntry)
    → Follows prev entries
    → Allowed policy entries
    → validate_from policy idx prev entries ≡ ok tt
unfolding validate_from check_increasing
from_complete policy idx prev [] f a = refl
from_complete policy idx none (entry ∷ entries) f a =
    let rest = from_complete policy (suc idx) (some entry.starts_at_ms) entries f a.1 in
    ground (arith, a.0, rest)
from_complete policy idx (some t) (entry ∷ entries) f a =
    let rest = from_complete policy (suc idx) (some entry.starts_at_ms) entries f.1 a.1 in
    ground (arith, a.0, f.0, rest)

-- The validation accepts a schedule exactly if its times increase strictly and, under the policy
-- for production, no unspecified type stands before the last entry.
pub weather_schedule_iff :
    (entries : List ScheduleEntry) (policy : UnspecifiedPolicy)
    → (validate_schedule entries policy ≡ ok tt) ↔ (Sorted entries × Allowed policy entries)
unfolding validate_schedule
weather_schedule_iff entries policy =
    (λ h. from_sound policy 0 none entries h, λ s. from_complete policy 0 none entries s.0 s.1)
