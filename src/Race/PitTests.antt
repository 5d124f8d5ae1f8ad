-- ===== src/Race/PitTests.antt =====
-- A car in the pit, for game-server/src/services/race/runtime_store.rs.
use hack_arena3_0_backend.Common.Dict.{nat_eq}
use hack_arena3_0_backend.Common.{ℕ, ◌≡◌, refl, ◌==◌, true, some}
use hack_arena3_0_backend.Race.PitState.{
  FloatApi, RuntimePitTireType, RuntimePitState, default_pit_state, set_next_tire_from_frontend,
  plan_pit_fix_tire_apply, desired_tire, is_tire, is_revision, revise,
}

instance abbrev toy_floats : FloatApi
toy_floats = record { F32 = ℕ; is_zero = λ x. x == 0 }

abbrev choosing : RuntimePitState
choosing = set_next_tire_from_frontend RuntimePitTireType.soft default_pit_state

choosing-planned :
    (plan_pit_fix_tire_apply RuntimePitTireType.hard true choosing).0 ≡ some RuntimePitTireType.soft
unfolding plan_pit_fix_tire_apply set_next_tire_from_frontend revise desired_tire is_tire
    is_revision default_pit_state
choosing-planned = refl
