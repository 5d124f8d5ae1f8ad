-- ===== src/Race/PitUpdate.antt =====
-- game-server/src/services/race/runtime_store.rs: the pit state follows the state of the vehicle in
-- the engine. The two functions are the two builds of one, with the cargo feature `official` and
-- without it.
use hack_arena3_0_backend.Common.{
  ℕ, zero, suc, ◌/◌, ◌%◌, Bool, true, false, not, ◌&&◌, ◌||◌, List, [], ◌∷◌, Option, none, some,
  if◌then◌else◌, ltb, ◌==◌,
}
use hack_arena3_0_backend.Race.PitState.{
  FloatApi, RuntimePitTireType, RuntimeNextTireMode, RuntimePitEntrySource, RuntimePitHistoryEntry,
  RuntimeActiveFixSession, RuntimePitState, remaining_u32,
}
use hack_arena3_0_backend.Runtime.Model.{TyreType}
use mathlib.Core.Option.{get_or}

abbrev pub pit_history_max_entries : ℕ
pit_history_max_entries = 32

-- Of a vehicle what the pit state is made from.
pub record VehicleState ⦃api : FloatApi⦄ : Type 0 where
  pub zone_mask : ℕ
  pub wheels_in_pitstop : ℕ
  pub speed : api.F32
  pub tyre_type : TyreType
  pub tyre_health : api.F32 × api.F32 × api.F32 × api.F32
  pub tyre_temperature_celsius : api.F32 × api.F32 × api.F32 × api.F32

unfoldable pub runtime_tire_type_from_engine : TyreType → RuntimePitTireType
runtime_tire_type_from_engine TyreType.hard = RuntimePitTireType.hard
runtime_tire_type_from_engine TyreType.soft = RuntimePitTireType.soft
runtime_tire_type_from_engine TyreType.wet = RuntimePitTireType.wet

-- The first entries, as many as the history may have.
unfoldable pub keep_first {ℓ} : {A : Type ℓ} → ℕ → List A → List A
keep_first n [] = []
keep_first zero (x ∷ xs) = []
keep_first (suc n) (x ∷ xs) = x ∷ keep_first n xs

module _ ⦃api : FloatApi⦄ where
  -- `has_zone(PitstopZone::Fix)`: bit 1 of the mask.
  unfoldable pub in_fix_zone : VehicleState → Bool
  in_fix_zone vehicle = (vehicle.zone_mask / 2) % 2 == 1

  unfoldable pub completed_pit : VehicleState → Bool
  unfolding in_fix_zone
  completed_pit vehicle =
      in_fix_zone vehicle && vehicle.wheels_in_pitstop == 4 && api.is_zero vehicle.speed

  unfoldable pub entry_source : RuntimePitState → RuntimePitEntrySource
  entry_source entry =
      if entry.emergency_intent_pending
      then RuntimePitEntrySource.emergency
      else if entry.pit_request_active
      then RuntimePitEntrySource.requested
      else RuntimePitEntrySource.bot_decision

  -- `push_front`, and `pop_back` while there are too many.
  unfoldable pub push_history : RuntimePitHistoryEntry → RuntimePitState → RuntimePitState
  unfolding keep_first
  push_history h entry = record entry {
    history = keep_first pit_history_max_entries (h ∷ entry.history);
  }

  -- `laps` are the completed laps of the metrics, if there are any, and `bot_slot` is the active bot
  -- slot of the car, at least 1.
  unfoldable pub enter_fix_zone :
      VehicleState → Option ℕ → ℕ → ℕ → RuntimePitState → RuntimePitState
  unfolding entry_source runtime_tire_type_from_engine
  enter_fix_zone vehicle laps bot_slot now_ms entry = record entry {
    active_fix_session = some (record {
      entry_time_ms = now_ms;
      entry_lap = get_or laps entry.last_pit_lap;
      source = entry_source entry;
      tire_type_before = runtime_tire_type_from_engine vehicle.tyre_type;
      tire_wear_before_repair = vehicle.tyre_health;
      tire_temperature_before_celsius = vehicle.tyre_temperature_celsius;
      bot_slot_before = bot_slot;
    });
    emergency_intent_pending = false;
    pit_request_active = false;
  }

  -- The history entry of a session at the end of its visit.
  unfoldable pub session_entry : VehicleState → ℕ → RuntimeActiveFixSession → RuntimePitHistoryEntry
  unfolding runtime_tire_type_from_engine
  session_entry vehicle bot_slot session = record {
    pit_time_ms = session.entry_time_ms;
    lap = session.entry_lap;
    source = session.source;
    tire_type_after = runtime_tire_type_from_engine vehicle.tyre_type;
    tire_type_before = session.tire_type_before;
    tire_wear_before_repair = session.tire_wear_before_repair;
    tire_temperature_before_celsius = session.tire_temperature_before_celsius;
    tire_temperature_after_celsius = vehicle.tyre_temperature_celsius;
    bot_slot_before = session.bot_slot_before;
    bot_slot_after = bot_slot;
  }

  unfoldable pub close_session :
      VehicleState → ℕ → ℕ → Option RuntimeActiveFixSession → RuntimePitState → RuntimePitState
  unfolding push_history session_entry
  close_session vehicle bot_slot now_ms none entry = entry
  close_session vehicle bot_slot now_ms (some session) entry =
      record (push_history (session_entry vehicle bot_slot session) entry) {
        active_fix_session = none;
        last_pit_time_ms = now_ms;
        last_pit_source = session.source;
        last_pit_lap = session.entry_lap;
      }

  -- The block of the official build.
  unfoldable pub follow_zone : VehicleState → Option ℕ → ℕ → ℕ → RuntimePitState → RuntimePitState
  unfolding enter_fix_zone close_session
  follow_zone vehicle laps bot_slot now_ms entry =
      let inside = in_fix_zone vehicle in
      let entered =
        if inside && not entry.was_in_fix_zone
        then enter_fix_zone vehicle laps bot_slot now_ms entry
        else entry in
      let left =
        if not inside && entered.was_in_fix_zone
        then close_session vehicle bot_slot now_ms entered.active_fix_session entered
        else entered in
      record left { was_in_fix_zone = inside }

  -- The history entry of the other builds.
  unfoldable pub stop_entry : VehicleState → Option ℕ → ℕ → RuntimePitState → RuntimePitHistoryEntry
  unfolding runtime_tire_type_from_engine entry_source
  stop_entry vehicle laps now_ms entry = record {
    pit_time_ms = now_ms;
    lap = get_or laps 0;
    source = entry_source entry;
    tire_type_after = entry.active_next_tire_type;
    tire_type_before = runtime_tire_type_from_engine vehicle.tyre_type;
    tire_wear_before_repair = vehicle.tyre_health;
    tire_temperature_before_celsius = vehicle.tyre_temperature_celsius;
    tire_temperature_after_celsius = vehicle.tyre_temperature_celsius;
    bot_slot_before = 1;
    bot_slot_after = 1;
  }

  unfoldable pub follow_stop : VehicleState → Option ℕ → ℕ → RuntimePitState → RuntimePitState
  unfolding push_history stop_entry
  follow_stop vehicle laps now_ms entry =
      if completed_pit vehicle && not entry.was_fix_stationary_full_pit
      then record (push_history (stop_entry vehicle laps now_ms entry) entry) {
        last_pit_time_ms = now_ms;
        last_pit_source = entry_source entry;
        last_pit_lap = get_or laps 0;
        emergency_intent_pending = false;
        pit_request_active = false;
      }
      else entry

  -- What the builds share.
  unfoldable pub settle_stop : VehicleState → RuntimePitState → RuntimePitState
  settle_stop vehicle entry =
      let settled =
        if not (completed_pit vehicle)
        then record entry {
          was_fix_stationary_full_pit = false;
          last_applied_tyre_in_current_fix = none;
          last_applied_tire_revision_in_current_fix = none;
        }
        else record entry { was_fix_stationary_full_pit = true } in
      record settled { in_stationary_fix = completed_pit vehicle }

  unfoldable pub update_official :
      VehicleState → Option ℕ → ℕ → ℕ → RuntimePitState → RuntimePitState
  unfolding follow_zone settle_stop
  update_official vehicle laps bot_slot now_ms entry =
      settle_stop vehicle (follow_zone vehicle laps bot_slot now_ms entry)

  unfoldable pub update_local : VehicleState → Option ℕ → ℕ → RuntimePitState → RuntimePitState
  unfolding follow_stop settle_stop
  update_local vehicle laps now_ms entry =
      settle_stop vehicle (follow_stop vehicle laps now_ms entry)

  pub record RuntimePitStateSnapshot : Type 0 where
    pub pit_request_active : Bool
    pub emergency_lock_remaining_ms : ℕ
    pub back_to_track_remaining_ms : ℕ
    pub emergency_pitstop_remaining_ms : ℕ
    pub force_idle : Bool
    pub last_pit_time_ms : ℕ
    pub last_pit_source : RuntimePitEntrySource
    pub last_pit_lap : ℕ
    pub frontend_next_pit_tire_override : RuntimePitTireType
    pub next_pit_tire_type : RuntimePitTireType
    pub history : List RuntimePitHistoryEntry

  unfoldable pub override_of : RuntimeNextTireMode → RuntimePitTireType → RuntimePitTireType
  override_of RuntimeNextTireMode.auto tire_type = RuntimePitTireType.unspecified
  override_of RuntimeNextTireMode.manual tire_type = tire_type

  unfoldable pub snapshot : ℕ → RuntimePitState → RuntimePitStateSnapshot
  unfolding override_of
  snapshot now_ms entry =
      let emergency_lock = remaining_u32 entry.emergency_lock_until_ms now_ms in
      record {
        pit_request_active = entry.pit_request_active;
        emergency_lock_remaining_ms = emergency_lock;
        back_to_track_remaining_ms = remaining_u32 entry.back_to_track_cooldown_until_ms now_ms;
        emergency_pitstop_remaining_ms =
            remaining_u32 entry.emergency_pitstop_cooldown_until_ms now_ms;
        force_idle = ltb now_ms entry.force_idle_until_ms || ltb 0 emergency_lock;
        last_pit_time_ms = entry.last_pit_time_ms;
        last_pit_source = entry.last_pit_source;
        last_pit_lap = entry.last_pit_lap;
        frontend_next_pit_tire_override =
            override_of entry.next_tire_mode entry.active_next_tire_type;
        next_pit_tire_type = get_or entry.bot_cached_next_tire_type RuntimePitTireType.unspecified;
        history = entry.history;
      }
