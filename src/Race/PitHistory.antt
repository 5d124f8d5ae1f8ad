-- ===== src/Race/PitHistory.antt =====
-- What one visit to the pit leaves in the history of
-- game-server/src/services/race/runtime_store.rs.
use hack_arena3_0_backend.Common.{ℕ, ◌≡◌, true, false, List, [], ◌∷◌, Option, none, some}
use hack_arena3_0_backend.Race.PitState.{
  FloatApi, RuntimePitHistoryEntry, RuntimeActiveFixSession, RuntimePitState,
}
use hack_arena3_0_backend.Race.PitUpdate.{
  VehicleState, pit_history_max_entries, keep_first, in_fix_zone, completed_pit, entry_source,
  session_entry, update_official, update_local, runtime_tire_type_from_engine,
}
use mathlib.Core.Option.{get_or}

module _ ⦃api : FloatApi⦄ where
  -- What an update is called with.
  pub record Frame : Type 0 where
    pub vehicle : VehicleState
    pub laps : Option ℕ
    pub bot_slot : ℕ
    pub now_ms : ℕ

  abbrev pub official : Frame → RuntimePitState → RuntimePitState
  official f = update_official f.vehicle f.laps f.bot_slot f.now_ms

  abbrev pub local : Frame → RuntimePitState → RuntimePitState
  local f = update_local f.vehicle f.laps f.now_ms

  -- The updates of one frame after the other.
  abbrev pub officials : List Frame → RuntimePitState → RuntimePitState
  officials [] entry = entry
  officials (f ∷ fs) entry = officials fs (official f entry)

  abbrev pub locals : List Frame → RuntimePitState → RuntimePitState
  locals [] entry = entry
  locals (f ∷ fs) entry = locals fs (local f entry)

  abbrev pub Inside : Frame → Type 0
  Inside f = in_fix_zone f.vehicle ≡ true

  abbrev pub Stopped : Frame → Type 0
  Stopped f = completed_pit f.vehicle ≡ true

  -- The session that a car opens when it enters the zone.
  abbrev pub session_of : Frame → RuntimePitState → RuntimeActiveFixSession
  session_of f entry = record {
    entry_time_ms = f.now_ms;
    entry_lap = get_or f.laps entry.last_pit_lap;
    source = entry_source entry;
    tire_type_before = runtime_tire_type_from_engine f.vehicle.tyre_type;
    tire_wear_before_repair = f.vehicle.tyre_health;
    tire_temperature_before_celsius = f.vehicle.tyre_temperature_celsius;
    bot_slot_before = f.bot_slot;
  }

  -- A car in the zone with an open session.
  record Visiting (history : List RuntimePitHistoryEntry) (session : RuntimeActiveFixSession)
      (entry : RuntimePitState) : Type 0 where
    inside : entry.was_in_fix_zone ≡ true
    open_session : entry.active_fix_session ≡ some session
    past : entry.history ≡ history
    requests : (entry.pit_request_active ≡ false) × (entry.emergency_intent_pending ≡ false)

  -- What a visit leaves behind.
  pub record Recorded (f g : Frame) (entry t : RuntimePitState) : Type 0 where
    pub history :
        t.history
        ≡ keep_first pit_history_max_entries
            (session_entry g.vehicle g.bot_slot (session_of f entry) ∷ entry.history)
    pub closed : (t.active_fix_session ≡ none) × (t.was_in_fix_zone ≡ false)
    pub last_time : t.last_pit_time_ms ≡ g.now_ms
    pub last_source : t.last_pit_source ≡ entry_source entry
    pub requests : (t.pit_request_active ≡ false) × (t.emergency_intent_pending ≡ false)
