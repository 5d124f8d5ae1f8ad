-- ===== src/Local/Tests.antt =====
-- A race and its participants, and the theorems on game-server/src/local/local_race_state.rs at them.
use hack_arena3_0_backend.Common.Int.{ℤ, pos, negsuc}
use hack_arena3_0_backend.Common.{
  ℕ, ◌≡◌, refl, false, [], ◌∷◌, Option, none, some, arith, ◌==◌, if◌then◌else◌,
}
use hack_arena3_0_backend.Local.RaceState.{
  RaceApi, LocalRacePhase, LocalRaceRuntimeInfo, LocalRaceState, LocalRaceParticipantRecord,
  timestamp_from_ms, race_phase, normalize_race_phase_at, register_participant,
}
use hack_arena3_0_backend.Local.Phases.{ReadsBack, Moves, normalize-Moves}
use hack_arena3_0_backend.Local.Settling.{UpToDate, normalize-settles}
use hack_arena3_0_backend.Local.Participants.{
  Indexed, Registration, register-Registration, register-Indexed,
}

-- Phases numbered in their order.
abbrev code : LocalRacePhase → ℤ
code LocalRacePhase.unspecified = pos 0
code LocalRacePhase.staging = pos 1
code LocalRacePhase.countdown = pos 2
code LocalRacePhase.running = pos 3
code LocalRacePhase.finished = pos 4
code LocalRacePhase.aborted = pos 5

abbrev phase : ℤ → Option LocalRacePhase
phase (pos n) =
    if n == 0
    then some LocalRacePhase.unspecified
    else if n == 1
    then some LocalRacePhase.staging
    else if n == 2
    then some LocalRacePhase.countdown
    else if n == 3
    then some LocalRacePhase.running
    else if n == 4
    then some LocalRacePhase.finished
    else if n == 5
    then some LocalRacePhase.aborted
    else none
phase (negsuc n) = none

instance abbrev toy_race : RaceApi
toy_race = record { Details = ℕ; phase_of = phase; code_of = code }

toy_law : ReadsBack
toy_law LocalRacePhase.unspecified = refl
toy_law LocalRacePhase.staging = refl
toy_law LocalRacePhase.countdown = refl
toy_law LocalRacePhase.running = refl
toy_law LocalRacePhase.finished = refl
toy_law LocalRacePhase.aborted = refl

abbrev sample : LocalRacePhase → LocalRaceRuntimeInfo
sample p = record {
  race_id = "race-1";
  race_duration_sec = 10;
  phase = code p;
  countdown_end_at_utc = some (timestamp_from_ms 5000);
  running_started_at_utc = none;
  planned_end_at_utc = none;
  joined_participant_count = 0;
  max_participants = 4;
  details = 0;
}

abbrev anna : LocalRaceParticipantRecord
anna = record { car_id = 7; display_name = "Anna"; participant_index = 1 }

abbrev staged : LocalRaceState
staged = record {
  active = some (sample LocalRacePhase.staging);
  participants = (7, anna) ∷ [];
  next_participant_index = 2;
  finish_soft_freeze_applied = false;
}

staged-Indexed : Indexed staged
staged-Indexed = record { below = (omega arith, omega arith, tt); unique = (tt, tt) }

normalize-Moves_example :
    Moves
      (race_phase (sample LocalRacePhase.countdown).phase)
      (race_phase (normalize_race_phase_at (sample LocalRacePhase.countdown) 6000).phase)
normalize-Moves_example = normalize-Moves toy_law (sample LocalRacePhase.countdown) 6000

normalize-settles_example :
    let twice =
      normalize_race_phase_at
        (normalize_race_phase_at (sample LocalRacePhase.countdown) 60000)
        60000 in
    UpToDate 60000 (sample LocalRacePhase.countdown) twice
    × (normalize_race_phase_at twice 60000 ≡ twice)
normalize-settles_example =
    normalize-settles toy_law (sample LocalRacePhase.countdown) 60000 (omega arith)

register-Registration_example :
    Registration 8 "Bert" staged (register_participant "race-1" 8 "Bert" 100 staged)
register-Registration_example = register-Registration "race-1" 8 "Bert" 100 staged

register-Indexed_example : Indexed (register_participant "race-1" 8 "Bert" 100 staged).1
register-Indexed_example =
    register-Indexed "race-1" 8 "Bert" 100 staged (omega arith) staged-Indexed
