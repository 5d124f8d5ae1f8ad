-- ===== src/Race/PitState.antt =====
-- game-server/src/services/race/runtime_store.rs: the pit state of the cars, its tyre plan and its
-- cooldowns.
use hack_arena3_0_backend.Common.Dict
use hack_arena3_0_backend.Common.Dict.{Dict, nat_eq}
use hack_arena3_0_backend.Common.{
  ℕ, ◌+◌, ◌-◌, ◌%◌, ◌^◌, min, max, Bool, true, false, not, ◌&&◌, List, [], Option, none, some,
  if◌then◌else◌, leb, ◌==◌, saturating_add, u32_max,
}
use mathlib.Core.Option.{get_or}

pub data RuntimePitTireType : Type 0 where
  unspecified hard soft wet : RuntimePitTireType

pub data RuntimeNextTireMode : Type 0 where
  auto manual : RuntimeNextTireMode

pub data RuntimePitEntrySource : Type 0 where
  bot_decision requested emergency : RuntimePitEntrySource

-- `f32`.
pub record FloatApi : Type 1 where
  pub F32 : Type 0
  pub is_zero : F32 → Bool

pub record RuntimePitHistoryEntry ⦃api : FloatApi⦄ : Type 0 where
  pub pit_time_ms : ℕ
  pub lap : ℕ
  pub source : RuntimePitEntrySource
  pub tire_type_after : RuntimePitTireType
  pub tire_type_before : RuntimePitTireType
  pub tire_wear_before_repair : api.F32 × api.F32 × api.F32 × api.F32
  pub tire_temperature_before_celsius : api.F32 × api.F32 × api.F32 × api.F32
  pub tire_temperature_after_celsius : api.F32 × api.F32 × api.F32 × api.F32
  pub bot_slot_before : ℕ
  pub bot_slot_after : ℕ

pub record RuntimeActiveFixSession ⦃api : FloatApi⦄ : Type 0 where
  pub entry_time_ms : ℕ
  pub entry_lap : ℕ
  pub source : RuntimePitEntrySource
  pub tire_type_before : RuntimePitTireType
  pub tire_wear_before_repair : api.F32 × api.F32 × api.F32 × api.F32
  pub tire_temperature_before_celsius : api.F32 × api.F32 × api.F32 × api.F32
  pub bot_slot_before : ℕ

abbrev pub command_cooldown_ms : ℕ
command_cooldown_ms = 30000

abbrev pub emergency_pit_lock_ms : ℕ
emergency_pit_lock_ms = 30000

abbrev pub teleport_idle_window_ms : ℕ
teleport_idle_window_ms = 500

-- `==` of two tyre types.
unfoldable pub same_tire : RuntimePitTireType → RuntimePitTireType → Bool
same_tire RuntimePitTireType.unspecified RuntimePitTireType.unspecified = true
same_tire RuntimePitTireType.hard RuntimePitTireType.hard = true
same_tire RuntimePitTireType.soft RuntimePitTireType.soft = true
same_tire RuntimePitTireType.wet RuntimePitTireType.wet = true
same_tire _ _ = false

unfoldable pub desired_tire : RuntimePitTireType → RuntimePitTireType → RuntimePitTireType
desired_tire RuntimePitTireType.unspecified current = current
desired_tire value current = value

unfoldable pub is_tire : Option RuntimePitTireType → RuntimePitTireType → Bool
is_tire none tire_type = false
is_tire (some applied) tire_type = same_tire applied tire_type

unfoldable pub is_revision : Option ℕ → ℕ → Bool
is_revision none revision = false
is_revision (some applied) revision = applied == revision

unfoldable pub remaining_u32 : ℕ → ℕ → ℕ
remaining_u32 until_ms now_ms = if leb until_ms now_ms then 0 else min (until_ms - now_ms) u32_max

module _ ⦃api : FloatApi⦄ where
  pub record RuntimePitState : Type 0 where
    pub pit_request_active : Bool
    pub emergency_lock_until_ms : ℕ
    pub back_to_track_cooldown_until_ms : ℕ
    pub emergency_pitstop_cooldown_until_ms : ℕ
    pub force_idle_until_ms : ℕ
    pub last_pit_time_ms : ℕ
    pub last_pit_source : RuntimePitEntrySource
    pub last_pit_lap : ℕ
    pub next_tire_mode : RuntimeNextTireMode
    pub bot_cached_next_tire_type : Option RuntimePitTireType
    pub active_next_tire_type : RuntimePitTireType
    pub next_pit_tire_revision : ℕ
    pub history : List RuntimePitHistoryEntry
    pub was_in_fix_zone : Bool
    pub active_fix_session : Option RuntimeActiveFixSession
    pub was_fix_stationary_full_pit : Bool
    pub last_applied_tyre_in_current_fix : Option RuntimePitTireType
    pub last_applied_tire_revision_in_current_fix : Option ℕ
    pub emergency_intent_pending : Bool
    pub in_stationary_fix : Bool

  unfoldable pub default_pit_state : RuntimePitState
  default_pit_state = record {
    pit_request_active = false;
    emergency_lock_until_ms = 0;
    back_to_track_cooldown_until_ms = 0;
    emergency_pitstop_cooldown_until_ms = 0;
    force_idle_until_ms = 0;
    last_pit_time_ms = 0;
    last_pit_source = RuntimePitEntrySource.bot_decision;
    last_pit_lap = 0;
    next_tire_mode = RuntimeNextTireMode.auto;
    bot_cached_next_tire_type = none;
    active_next_tire_type = RuntimePitTireType.unspecified;
    next_pit_tire_revision = 0;
    history = [];
    was_in_fix_zone = false;
    active_fix_session = none;
    was_fix_stationary_full_pit = false;
    last_applied_tyre_in_current_fix = none;
    last_applied_tire_revision_in_current_fix = none;
    emergency_intent_pending = false;
    in_stationary_fix = false;
  }

  unfoldable pub set_pit_request_active : Bool → RuntimePitState → RuntimePitState
  set_pit_request_active active entry = record entry { pit_request_active = active }

  -- A change of the plan that the driver or the bot made.
  unfoldable pub revise : RuntimePitTireType → RuntimePitState → RuntimePitState
  revise tire_type entry = record entry {
    active_next_tire_type = tire_type;
    next_pit_tire_revision = saturating_add entry.next_pit_tire_revision 1;
  }

  unfoldable pub set_next_tire_from_frontend :
      RuntimePitTireType → RuntimePitState → RuntimePitState
  unfolding revise
  set_next_tire_from_frontend RuntimePitTireType.unspecified entry =
      revise (get_or entry.bot_cached_next_tire_type RuntimePitTireType.unspecified)
        (record entry { next_tire_mode = RuntimeNextTireMode.auto })
  set_next_tire_from_frontend tire_type entry =
      revise tire_type (record entry { next_tire_mode = RuntimeNextTireMode.manual })

  unfoldable pub follow_bot :
      RuntimeNextTireMode → RuntimePitTireType → RuntimePitState → RuntimePitState
  unfolding revise
  follow_bot RuntimeNextTireMode.auto tire_type entry = revise tire_type entry
  follow_bot RuntimeNextTireMode.manual tire_type entry = entry

  unfoldable pub set_next_tire_from_bot : RuntimePitTireType → RuntimePitState → RuntimePitState
  set_next_tire_from_bot tire_type entry =
      follow_bot entry.next_tire_mode tire_type
        (record entry { bot_cached_next_tire_type = some tire_type })

  unfoldable pub plan_pit_fix_tire_apply :
      RuntimePitTireType → Bool → RuntimePitState → Option RuntimePitTireType × RuntimePitState
  plan_pit_fix_tire_apply current_tire_type in_stationary_fix entry =
      let desired = desired_tire entry.active_next_tire_type current_tire_type in
      if not in_stationary_fix
      then (
        none,
        record entry {
          last_applied_tyre_in_current_fix = none;
          last_applied_tire_revision_in_current_fix = none;
        },
      )
      else if is_tire entry.last_applied_tyre_in_current_fix desired
          && is_revision entry.last_applied_tire_revision_in_current_fix
              entry.next_pit_tire_revision
      then (none, entry)
      else (some desired, entry)

  unfoldable pub mark_pit_fix_tire_applied : RuntimePitTireType → RuntimePitState → RuntimePitState
  mark_pit_fix_tire_applied tire_type entry = record entry {
    last_applied_tyre_in_current_fix = some tire_type;
    last_applied_tire_revision_in_current_fix = some entry.next_pit_tire_revision;
  }

  unfoldable pub mark_back_to_track_applied : ℕ → RuntimePitState → RuntimePitState
  mark_back_to_track_applied now_ms entry = record entry {
    back_to_track_cooldown_until_ms =
        max entry.back_to_track_cooldown_until_ms (saturating_add now_ms command_cooldown_ms);
    force_idle_until_ms =
        max entry.force_idle_until_ms (saturating_add now_ms teleport_idle_window_ms);
  }

  -- The idle window is an unchecked sum, which wraps around.
  unfoldable pub mark_emergency_pitstop_requested : ℕ → RuntimePitState → RuntimePitState
  mark_emergency_pitstop_requested now_ms entry = record entry {
    emergency_intent_pending = true;
    emergency_pitstop_cooldown_until_ms =
        max entry.emergency_pitstop_cooldown_until_ms (saturating_add now_ms command_cooldown_ms);
    emergency_lock_until_ms =
        max entry.emergency_lock_until_ms (saturating_add now_ms emergency_pit_lock_ms);
    force_idle_until_ms =
        max entry.force_idle_until_ms ((now_ms + teleport_idle_window_ms) % 2 ^ 64);
  }

  -- `car_pit_state.entry(car_id).or_default()`, changed by an operation.
  unfoldable pub at_car :
      ℕ → (RuntimePitState → RuntimePitState) → Dict ℕ RuntimePitState → Dict ℕ RuntimePitState
  at_car car_id operation cars =
      Dict.insert car_id (operation (get_or (Dict.get car_id cars) default_pit_state)) cars

  -- A car without an entry has no cooldown.
  unfoldable pub remaining_of : (RuntimePitState → ℕ) → Option RuntimePitState → ℕ → ℕ
  unfolding remaining_u32
  remaining_of until_ms none now_ms = 0
  remaining_of until_ms (some entry) now_ms = remaining_u32 (until_ms entry) now_ms

  unfoldable pub back_to_track_cooldown_remaining_ms : ℕ → ℕ → Dict ℕ RuntimePitState → ℕ
  back_to_track_cooldown_remaining_ms car_id now_ms cars =
      remaining_of (λ entry. entry.back_to_track_cooldown_until_ms) (Dict.get car_id cars) now_ms

  unfoldable pub emergency_pitstop_cooldown_remaining_ms : ℕ → ℕ → Dict ℕ RuntimePitState → ℕ
  emergency_pitstop_cooldown_remaining_ms car_id now_ms cars =
      remaining_of (λ entry. entry.emergency_pitstop_cooldown_until_ms) (Dict.get car_id cars)
        now_ms
