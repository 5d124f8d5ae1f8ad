-- ===== src/Race/Cooldowns.antt =====
-- The cooldowns of game-server/src/services/race/runtime_store.rs.
use hack_arena3_0_backend.Common.Dict
use hack_arena3_0_backend.Common.Dict.{Dict, nat_eq, get-insert}
use hack_arena3_0_backend.Common.{
  ℕ, ◌+◌, ◌-◌, ◌≤◌, ◌≡◌, ◌≢◌, refl, ◌∙◌, false, Option, none, some, arith, if◌then◌else◌, ◌==◌,
  ==_iff, u64_max, u32_max,
}
use hack_arena3_0_backend.Race.PitState.{
  FloatApi, RuntimePitState, remaining_u32, remaining_of, default_pit_state, at_car,
  command_cooldown_ms, mark_back_to_track_applied, back_to_track_cooldown_remaining_ms,
}
use mathlib.Core.Option.{get_or}

-- Time that passes shortens what remains by as much, down to nothing, unless more remains than fits
-- u32.
pub remaining_u32-later :
    (until_ms now_ms passed : ℕ)
    → until_ms ≤ now_ms + u32_max
    → remaining_u32 until_ms (now_ms + passed) ≡ remaining_u32 until_ms now_ms - passed
unfolding remaining_u32
remaining_u32-later until_ms now_ms passed small = ground arith

module _ ⦃api : FloatApi⦄ where
  get-at_car :
      (car_id other : ℕ) (f : RuntimePitState → RuntimePitState) (cars : Dict ℕ RuntimePitState)
      → Dict.get other (at_car car_id f cars) ≡ (
          if car_id == other
          then some (f (get_or (Dict.get car_id cars) default_pit_state))
          else Dict.get other cars)
  unfolding at_car
  get-at_car car_id other f cars =
      get-insert car_id other (f (get_or (Dict.get car_id cars) default_pit_state)) cars

  unequal : (car_id other : ℕ) → other ≢ car_id → (car_id == other) ≡ false
  unequal car_id other differs = ground arith

  longer :
      (now_ms : ℕ) (o : Option RuntimePitState)
      → now_ms + command_cooldown_ms ≤ u64_max
      → let marked = some (mark_back_to_track_applied now_ms (get_or o default_pit_state)) in
        (command_cooldown_ms ≤ remaining_of (λ e. e.back_to_track_cooldown_until_ms) marked now_ms)
        × (remaining_of (λ e. e.back_to_track_cooldown_until_ms) o now_ms
            ≤ remaining_of (λ e. e.back_to_track_cooldown_until_ms) marked now_ms)
  unfolding remaining_of remaining_u32 mark_back_to_track_applied default_pit_state
  longer now_ms none small = (ground (arith, small), ground (arith, small))
  longer now_ms (some entry) small = (ground (arith, small), ground (arith, small))

  -- After a car was put back to the track its cooldown lasts at least 30 seconds, no cooldown that
  -- it had is shortened, and the cooldown of every other car is the same; the clock is below the
  -- bound of u64 by that much.
  pub back_to_track-cooldown :
      (car_id now_ms : ℕ) (cars : Dict ℕ RuntimePitState)
      → now_ms + command_cooldown_ms ≤ u64_max
      → let marked = at_car car_id (mark_back_to_track_applied now_ms) cars in
        (command_cooldown_ms ≤ back_to_track_cooldown_remaining_ms car_id now_ms marked)
        × (back_to_track_cooldown_remaining_ms car_id now_ms cars
            ≤ back_to_track_cooldown_remaining_ms car_id now_ms marked)
        × ((other : ℕ)
            → other ≢ car_id
            → back_to_track_cooldown_remaining_ms other now_ms marked
              ≡ back_to_track_cooldown_remaining_ms other now_ms cars)
  unfolding back_to_track_cooldown_remaining_ms
  back_to_track-cooldown car_id now_ms cars small =
      let here =
        get-at_car car_id car_id (mark_back_to_track_applied now_ms) cars
        ∙ rw ((==_iff car_id car_id).1 refl) refl in
      let more = longer now_ms (Dict.get car_id cars) small in
      (
        rw here more.0,
        rw here more.1,
        λ other differs.
            rw (get-at_car car_id other (mark_back_to_track_applied now_ms) cars)
              (rw (unequal car_id other differs) refl),
      )
