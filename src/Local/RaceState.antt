-- ===== src/Local/RaceState.antt =====
-- game-server/src/local/local_race_state.rs: the store of the active local race. What holds the
-- lock in the source is one action here; `now_ms` is what the clock shows during it.
mod Clock
unfoldable pub use Clock.*
use hack_arena3_0_backend.Common.Action.{Action, ◌>>=◌, ◌>>◌, modify, gets, fail_when}
use hack_arena3_0_backend.Common.Dict
use hack_arena3_0_backend.Common.Dict.{Dict, nat_eq}
use hack_arena3_0_backend.Common.Int.{ℤ, pos, negsuc}
use hack_arena3_0_backend.Common.{
  ℕ, ◌+◌, ◌*◌, ◌/◌, ◌%◌, ◌^◌, ◌-◌, min, max, Bool, true, false, not, ◌&&◌, [], Option, none, some,
  String, ok, err, if◌then◌else◌, leb, ltb, ◌=ₛ◌, length, saturating_add, u64_max, u32_max,
}
use mathlib.Core.Option.{get_or}

module _ ⦃api : RaceApi⦄ where
  unfoldable pub joined : LocalRaceState → ℕ
  joined s = min (length s.participants) u32_max

  unfoldable pub is_active_id : String → Option LocalRaceRuntimeInfo → Bool
  is_active_id race_id none = false
  is_active_id race_id (some race) = race.race_id =ₛ race_id

  unfoldable pub joined_count_for_race : LocalRaceState → String → ℕ
  joined_count_for_race s race_id = if is_active_id race_id s.active then joined s else 0

  unfoldable pub counted : LocalRaceState → LocalRaceRuntimeInfo → LocalRaceRuntimeInfo
  unfolding joined_count_for_race
  counted s race = record race { joined_participant_count = joined_count_for_race s race.race_id }

  abbrev pub M : Type 0 → Type 0
  M = Action LocalRaceState LocalRaceStateError

  -- The active race, when it is the one that the caller means.
  unfoldable pub check_race : String → Option LocalRaceRuntimeInfo → M LocalRaceRuntimeInfo
  check_race race_id none s = (err LocalRaceStateError.no_active_race, s)
  check_race race_id (some race) s =
      if race.race_id =ₛ race_id then (ok race, s) else (err LocalRaceStateError.race_mismatch, s)

  unfoldable pub the_race : String → M LocalRaceRuntimeInfo
  the_race race_id s = check_race race_id s.active s

  abbrev pub store_race : LocalRaceRuntimeInfo → M (Unit {0})
  store_race race = modify (λ s. record s { active = some race })

  unfoldable pub active_race : LocalRaceState → ℕ → Option LocalRaceRuntimeInfo
  active_race s now_ms = elim s.active [
    | none ↦ none
    | some race ↦ some (counted s (normalize_race_phase_at race now_ms))
  ]

  unfoldable pub set_active_race : LocalRaceRuntimeInfo → ℕ → LocalRaceState → LocalRaceState
  set_active_race race now_ms s = record {
    active = some (normalize_race_phase_at race now_ms);
    participants = [];
    next_participant_index = 1;
    finish_soft_freeze_applied = false;
  }

  unfoldable pub update_active_race :
      String → (LocalRaceRuntimeInfo → LocalRaceRuntimeInfo) → ℕ → M LocalRaceRuntimeInfo
  update_active_race race_id update now_ms = do
    race ← the_race race_id
    let updated = normalize_race_phase_at (update (normalize_race_phase_at race now_ms)) now_ms
    store_race updated
    gets (λ s. counted s updated)

  unfoldable pub clear_active_race : String → M (Unit {0})
  clear_active_race race_id = do
    race ← the_race race_id
    modify (λ s. record {
      active = none;
      participants = [];
      next_participant_index = 1;
      finish_soft_freeze_applied = false;
    })

  unfoldable pub is_staging : LocalRacePhase → Bool
  is_staging LocalRacePhase.staging = true
  is_staging _ = false

  -- `race.joined_participant_count = joined` on the active race, if there is one.
  unfoldable pub write_count : LocalRaceState → LocalRaceState
  write_count s = elim s.active [
    | none ↦ s
    | some race ↦ record s { active = some (record race { joined_participant_count = joined s }) }
  ]

  unfoldable pub add_participant : ℕ → String → M LocalRaceParticipantRecord
  unfolding write_count
  add_participant car_id display_name s =
      let index = max s.next_participant_index 1 in
      let participant : LocalRaceParticipantRecord = record {
        car_id = car_id;
        display_name = display_name;
        participant_index = index;
      } in
      let added = record s {
        participants = Dict.insert car_id participant s.participants;
        next_participant_index = min (index + 1) u32_max;
      } in
      (ok participant, write_count added)

  unfoldable pub register_participant : String → ℕ → String → ℕ → M LocalRaceParticipantRecord
  register_participant race_id car_id display_name now_ms = do
    found ← the_race race_id
    let race = normalize_race_phase_at found now_ms
    store_race race
    fail_when (λ s. not (is_staging (race_phase race.phase))) (λ s. LocalRaceStateError.join_closed)
    fail_when (λ s. ltb 0 race.max_participants && leb race.max_participants (joined s))
        (λ s. LocalRaceStateError.participant_limit_reached)
    add_participant car_id display_name

  unfoldable pub participant_identity : ℕ → LocalRaceState → Option (String × ℕ)
  participant_identity car_id s = elim (Dict.get car_id s.participants) [
    | none ↦ none
    | some participant ↦ some (participant.display_name, participant.participant_index)
  ]

  unfoldable pub remove_participant : ℕ → LocalRaceState → LocalRaceState
  unfolding write_count
  remove_participant car_id s =
      write_count (record s { participants = Dict.remove car_id s.participants })

  pub record LocalRaceReconcileOutcome : Type 0 where
    pub race : LocalRaceRuntimeInfo
    pub previous_phase : LocalRacePhase
    pub current_phase : LocalRacePhase

  unfoldable pub is_finished : LocalRacePhase → Bool
  is_finished LocalRacePhase.finished = true
  is_finished _ = false

  -- `race_eq` is the comparison that is derived for the generated type.
  unfoldable pub reconcile_active_race :
      (LocalRaceRuntimeInfo → LocalRaceRuntimeInfo → Bool)
      → ℕ
      → LocalRaceState
      → Option LocalRaceReconcileOutcome × LocalRaceState
  reconcile_active_race race_eq now_ms s = elim s.active [
    | none ↦ (none, s)
    | some race ↦
        let normalized = normalize_race_phase_at race now_ms in
        let current = race_phase normalized.phase in
        let stored : LocalRaceState = record s {
          active = some normalized;
          finish_soft_freeze_applied = s.finish_soft_freeze_applied && not (is_finished current);
        } in
        if race_eq race normalized then (none, s) else (
          some (record {
            race = counted stored normalized;
            previous_phase = race_phase race.phase;
            current_phase = current;
          }),
          stored,
        )
  ]

  unfoldable pub finished_race_pending_soft_freeze :
      LocalRaceState → ℕ → Option LocalRaceRuntimeInfo
  finished_race_pending_soft_freeze s now_ms = elim s.active [
    | none ↦ none
    | some race ↦
        let normalized = normalize_race_phase_at race now_ms in
        if s.finish_soft_freeze_applied
        then none
        else if not (is_finished (race_phase normalized.phase))
        then none
        else some (counted s normalized)
  ]

  unfoldable pub mark_finish_soft_freeze_applied : String → M (Unit {0})
  mark_finish_soft_freeze_applied race_id = do
    race ← the_race race_id
    modify (λ s. record s { finish_soft_freeze_applied = true })

  unfoldable pub is_running : LocalRacePhase → Bool
  is_running LocalRacePhase.running = true
  is_running _ = false

  unfoldable pub gameplay_commands_closed : String → LocalRaceState → ℕ → Bool
  gameplay_commands_closed race_id s now_ms = elim s.active [
    | none ↦ false
    | some race ↦
        race.race_id =ₛ race_id
        && not (is_running (race_phase (normalize_race_phase_at race now_ms).phase))
  ]
