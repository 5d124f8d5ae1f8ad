-- ===== src/Domain/RaceConfig.antt =====
-- game-server/src/domain/race_config.rs: race configurations and the validation of schedules.
use hack_arena3_0_backend.Common.Int.{ℤ, ltb_ℤ}
use hack_arena3_0_backend.Common.Dict.{string_eq}
use hack_arena3_0_backend.Common.{
  ℕ, suc, Bool, not, ◌&&◌, List, [], ◌∷◌, Option, none, some, String, Result, ok, ◌>>◌, fail_if,
  any, is_blank, ◌=ₛ◌,
}

-- The enums that the build generates from the protocol, and `f32`.
pub record ConfigApi : Type 1 where
  pub StartPlacementMode : Type 0
  pub RaceTimeOfDayPreset : Type 0
  pub F32 : Type 0
  pub is_unspecified_mode : StartPlacementMode → Bool
  pub is_unspecified_preset : RaceTimeOfDayPreset → Bool
  pub is_finite : F32 → Bool
  pub is_positive : F32 → Bool

pub data RaceConfigDomainError : Type 0 where
  empty_race_id : ℕ → RaceConfigDomainError
  empty_race_name : ℕ → RaceConfigDomainError
  empty_map_id : ℕ → RaceConfigDomainError
  unspecified_start_placement_mode : ℕ → RaceConfigDomainError
  unspecified_time_of_day_preset : ℕ → RaceConfigDomainError
  invalid_points_multiplier : ℕ → RaceConfigDomainError
  invalid_time_window : ℕ → ℤ → ℤ → RaceConfigDomainError
  non_increasing_start_time : ℕ → ℤ → ℤ → RaceConfigDomainError
  overlapping_time_window : ℕ → ℤ → ℤ → RaceConfigDomainError
  duplicate_race_id : ℕ → String → RaceConfigDomainError

module _ ⦃api : ConfigApi⦄ where
  pub record RaceConfigInput : Type 0 where
    pub race_name : String
    pub starts_at_ms : ℤ
    pub ends_at_ms : ℤ
    pub map_id : String
    pub start_placement_mode : api.StartPlacementMode
    pub points_multiplier_fixed : api.F32
    pub time_of_day_preset : api.RaceTimeOfDayPreset

  pub record ScheduleEntry : Type 0 where
    pub race_id : String
    pub config : RaceConfigInput

  abbrev pub Checked : Type 0
  Checked = Result RaceConfigDomainError (Unit {0})

  unfoldable pub validate_input : ℕ → RaceConfigInput → Checked
  validate_input index entry =
      fail_if (is_blank entry.race_name) (RaceConfigDomainError.empty_race_name index)
      >> fail_if (is_blank entry.map_id) (RaceConfigDomainError.empty_map_id index)
      >> fail_if (api.is_unspecified_mode entry.start_placement_mode)
          (RaceConfigDomainError.unspecified_start_placement_mode index)
      >> fail_if (api.is_unspecified_preset entry.time_of_day_preset)
          (RaceConfigDomainError.unspecified_time_of_day_preset index)
      >> fail_if
          (not (
            api.is_finite entry.points_multiplier_fixed
            && api.is_positive entry.points_multiplier_fixed))
          (RaceConfigDomainError.invalid_points_multiplier index)
      >> fail_if (not (ltb_ℤ entry.starts_at_ms entry.ends_at_ms))
          (RaceConfigDomainError.invalid_time_window index entry.starts_at_ms entry.ends_at_ms)

  unfoldable pub validate_start : ℕ → ℤ → Option ℤ → Checked
  validate_start index starts_at_ms none = ok tt
  validate_start index starts_at_ms (some prev) =
      fail_if (not (ltb_ℤ prev starts_at_ms))
        (RaceConfigDomainError.non_increasing_start_time index prev starts_at_ms)

  unfoldable pub validate_overlap : ℕ → ℤ → Option ℤ → Checked
  validate_overlap index starts_at_ms none = ok tt
  validate_overlap index starts_at_ms (some prev_end) =
      fail_if (ltb_ℤ starts_at_ms prev_end)
        (RaceConfigDomainError.overlapping_time_window index prev_end starts_at_ms)

  unfoldable pub validate_ordering_and_overlap : ℕ → ℤ → Option ℤ → Option ℤ → Checked
  validate_ordering_and_overlap index starts_at_ms prev_start prev_end =
      validate_start index starts_at_ms prev_start >> validate_overlap index starts_at_ms prev_end

  -- The loop of `validate_schedule`, with the ids seen so far and the window of the entry before.
  unfoldable pub validate_entries :
      ℕ → List String → Option ℤ → Option ℤ → List ScheduleEntry → Checked
  validate_entries idx seen prev_start prev_end [] = ok tt
  validate_entries idx seen prev_start prev_end (entry ∷ entries) =
      fail_if (is_blank entry.race_id) (RaceConfigDomainError.empty_race_id idx)
      >> fail_if (any (λ id. id =ₛ entry.race_id) seen)
          (RaceConfigDomainError.duplicate_race_id idx entry.race_id)
      >> validate_input idx entry.config
      >> validate_ordering_and_overlap idx entry.config.starts_at_ms prev_start prev_end
      >> validate_entries (suc idx) (entry.race_id ∷ seen) (some entry.config.starts_at_ms)
          (some entry.config.ends_at_ms) entries

  unfoldable pub validate_schedule : List ScheduleEntry → Checked
  validate_schedule entries = validate_entries 0 [] none none entries

  unfoldable pub validate_inputs_from : ℕ → Option ℤ → Option ℤ → List RaceConfigInput → Checked
  validate_inputs_from idx prev_start prev_end [] = ok tt
  validate_inputs_from idx prev_start prev_end (entry ∷ entries) =
      validate_input idx entry
      >> validate_ordering_and_overlap idx entry.starts_at_ms prev_start prev_end
      >> validate_inputs_from (suc idx) (some entry.starts_at_ms) (some entry.ends_at_ms) entries

  unfoldable pub validate_draft_schedule : List RaceConfigInput → Checked
  validate_draft_schedule entries = validate_inputs_from 0 none none entries
