-- ===== src/Local/RaceState/Clock.antt =====
-- game-server/src/local/local_race_state.rs: the data of the store, its timestamps, and the phases
-- that the clock moves on.
use hack_arena3_0_backend.Common.Action.{◌>>=◌}
use hack_arena3_0_backend.Common.Dict.{Dict, nat_eq}
use hack_arena3_0_backend.Common.Int.{ℤ, pos, negsuc}
use hack_arena3_0_backend.Common.{
  ℕ, ◌*◌, ◌/◌, ◌%◌, ◌^◌, ◌-◌, min, Bool, false, Option, none, some, String, if◌then◌else◌, leb,
  saturating_add, u64_max,
}
use mathlib.Core.Option.{get_or}

-- The enum that the build generates from the protocol, with its numbers and the other fields of
-- a race.
pub data LocalRacePhase : Type 0 where
  unspecified staging countdown running finished aborted : LocalRacePhase

pub record RaceApi : Type 1 where
  pub Details : Type 0
  pub phase_of : ℤ → Option LocalRacePhase
  pub code_of : LocalRacePhase → ℤ

-- `prost_types::Timestamp`.
pub record Timestamp : Type 0 where
  pub seconds : ℤ
  pub nanos : ℤ

pub data LocalRaceStateError : Type 0 where
  no_active_race race_mismatch join_closed participant_limit_reached : LocalRaceStateError

pub record LocalRaceParticipantRecord : Type 0 where
  pub car_id : ℕ
  pub display_name : String
  pub participant_index : ℕ

abbrev pub i64_max : ℕ
i64_max = 2 ^ 63 - 1

abbrev pub saturating_mul : ℕ → ℕ → ℕ
saturating_mul a b = min (a * b) u64_max

unfoldable pub timestamp_from_ms : ℕ → Timestamp
timestamp_from_ms ms = record {
  seconds = pos (min (ms / 1000) i64_max);
  nanos = pos ((ms % 1000) * 1000000);
}

-- `u64::try_from` and `u32::try_from`, on values of narrower signed types.
abbrev pub try_from : ℤ → Option ℕ
try_from (pos n) = some n
try_from (negsuc n) = none

unfoldable pub timestamp_ms : Option Timestamp → Option ℕ
timestamp_ms value = do
  t ← value
  seconds ← try_from t.seconds
  nanos ← try_from t.nanos
  some (saturating_add (saturating_mul seconds 1000) (nanos / 1000000))
  where
    infixl 5 ◌>>=◌
    ◌>>=◌ : {A B : Type 0} → Option A → (A → Option B) → Option B
    none >>= f = none
    some a >>= f = f a

module _ ⦃api : RaceApi⦄ where
  pub record LocalRaceRuntimeInfo : Type 0 where
    pub race_id : String
    pub race_duration_sec : ℕ
    pub phase : ℤ
    pub countdown_end_at_utc : Option Timestamp
    pub running_started_at_utc : Option Timestamp
    pub planned_end_at_utc : Option Timestamp
    pub joined_participant_count : ℕ
    pub max_participants : ℕ
    pub details : api.Details

  pub record LocalRaceState : Type 0 where
    pub active : Option LocalRaceRuntimeInfo
    pub participants : Dict ℕ LocalRaceParticipantRecord
    pub next_participant_index : ℕ
    pub finish_soft_freeze_applied : Bool

  unfoldable pub race_phase : ℤ → LocalRacePhase
  race_phase raw = get_or (api.phase_of raw) LocalRacePhase.unspecified

  -- Whether a time is set and has come.
  unfoldable pub has_come : Option Timestamp → ℕ → Bool
  has_come value now_ms = elim (timestamp_ms value) [ none ↦ false | some end ↦ leb end now_ms ]

  unfoldable pub or_else : {A : Type 0} → Option A → Option A → Option A
  or_else none o = o
  or_else (some a) o = some a

  -- The race as it starts to run.
  unfoldable pub start_running : ℕ → LocalRaceRuntimeInfo → LocalRaceRuntimeInfo
  unfolding or_else
  start_running now_ms race =
      let started = or_else race.running_started_at_utc race.countdown_end_at_utc in
      record race {
        phase = api.code_of LocalRacePhase.running;
        running_started_at_utc = started;
        planned_end_at_utc = or_else race.planned_end_at_utc (
            some (
              timestamp_from_ms (
                saturating_add (get_or (timestamp_ms started) now_ms)
                  (race.race_duration_sec * 1000))));
      }

  unfoldable pub normalize_from : LocalRacePhase → LocalRaceRuntimeInfo → ℕ → LocalRaceRuntimeInfo
  normalize_from LocalRacePhase.countdown race now_ms =
      if has_come race.countdown_end_at_utc now_ms then start_running now_ms race else race
  normalize_from LocalRacePhase.running race now_ms =
      if has_come race.planned_end_at_utc now_ms
      then record race { phase = api.code_of LocalRacePhase.finished }
      else race
  normalize_from _ race now_ms = race

  unfoldable pub normalize_race_phase_at : LocalRaceRuntimeInfo → ℕ → LocalRaceRuntimeInfo
  normalize_race_phase_at race now_ms = normalize_from (race_phase race.phase) race now_ms
