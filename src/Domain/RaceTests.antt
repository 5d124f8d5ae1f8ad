-- ===== src/Domain/RaceTests.antt =====
-- Two schedules, and the theorems on the validation of game-server/src/domain/race_config.rs at them.
use hack_arena3_0_backend.Common.Int.{pos}
use hack_arena3_0_backend.Common.{
  suc, ℕ, ◌<◌, ◌≡◌, ◌↔◌, refl, Bool, true, false, List, [], ◌∷◌, String, ok, err, length, is_blank,
  is_whitespace, ltb,
}
use hack_arena3_0_backend.Domain.RaceConfig.{
  ConfigApi, RaceConfigDomainError, ScheduleEntry, validate_input, validate_start, validate_overlap,
  validate_ordering_and_overlap, validate_entries, validate_schedule,
}
use hack_arena3_0_backend.Domain.RaceSchedules.{Valid, validate_schedule_iff}
use hack_arena3_0_backend.Domain.RaceErrors.{index, take, validate_schedule-first_error}

instance abbrev toy_config : ConfigApi
toy_config = record {
  StartPlacementMode = Bool;
  RaceTimeOfDayPreset = Bool;
  F32 = ℕ;
  is_unspecified_mode = λ mode. mode;
  is_unspecified_preset = λ preset. preset;
  is_finite = λ x. true;
  is_positive = λ x. ltb 0 x;
}

abbrev race : String → ℕ → ℕ → ScheduleEntry
race id start end = record {
  race_id = id;
  config = record {
    race_name = "sprint";
    starts_at_ms = pos start;
    ends_at_ms = pos end;
    map_id = "map1";
    start_placement_mode = false;
    points_multiplier_fixed = 1;
    time_of_day_preset = false;
  };
}

abbrev sound : List ScheduleEntry
sound = race "a" 1 5 ∷ race "b" 5 9 ∷ []

abbrev overlapping : List ScheduleEntry
overlapping = race "a" 1 5 ∷ race "b" 4 9 ∷ []

sound-accepted : validate_schedule sound ≡ ok tt
unfolding validate_schedule validate_entries validate_ordering_and_overlap validate_start
    validate_overlap validate_input is_blank is_whitespace
sound-accepted = refl

overlapping-refused :
    validate_schedule overlapping
    ≡ err (RaceConfigDomainError.overlapping_time_window 1 (pos 5) (pos 4))
unfolding validate_schedule validate_entries validate_ordering_and_overlap validate_start
    validate_overlap validate_input is_blank is_whitespace
overlapping-refused = refl

validate_schedule_iff_example : (validate_schedule sound ≡ ok tt) ↔ Valid sound
validate_schedule_iff_example = validate_schedule_iff sound

validate_schedule-first_error_example :
    (index (RaceConfigDomainError.overlapping_time_window 1 (pos 5) (pos 4)) < length overlapping)
    × (validate_schedule (
          take
            (index (RaceConfigDomainError.overlapping_time_window 1 (pos 5) (pos 4)))
            overlapping)
        ≡ ok tt)
    × (validate_schedule (
          take
            (suc (index (RaceConfigDomainError.overlapping_time_window 1 (pos 5) (pos 4))))
            overlapping)
        ≡ err (RaceConfigDomainError.overlapping_time_window 1 (pos 5) (pos 4)))
validate_schedule-first_error_example =
    validate_schedule-first_error overlapping
      (RaceConfigDomainError.overlapping_time_window 1 (pos 5) (pos 4)) overlapping-refused
