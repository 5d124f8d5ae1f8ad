-- ===== src/Race/Tires.antt =====
-- The tyre plan of game-server/src/services/race/runtime_store.rs: who decides on the next tyres, and
-- how often a plan is applied.
use hack_arena3_0_backend.Common.{◌≡◌, ◌≢◌, refl, ◌∙◌, true, none, some, arith, ==_iff}
use hack_arena3_0_backend.Race.PitState.{
  FloatApi, RuntimePitTireType, RuntimePitState, same_tire, desired_tire, is_tire, is_revision,
  revise, set_next_tire_from_frontend, follow_bot, set_next_tire_from_bot, plan_pit_fix_tire_apply,
  mark_pit_fix_tire_applied,
}

same_tire_refl : (t : RuntimePitTireType) → same_tire t t ≡ true
unfolding same_tire
same_tire_refl RuntimePitTireType.unspecified = refl
same_tire_refl RuntimePitTireType.hard = refl
same_tire_refl RuntimePitTireType.soft = refl
same_tire_refl RuntimePitTireType.wet = refl

module _ ⦃api : FloatApi⦄ where
  planned_tire :
      (current tire : RuntimePitTireType) (s : RuntimePitState)
      → (plan_pit_fix_tire_apply current true s).0 ≡ some tire
      → desired_tire s.active_next_tire_type current ≡ tire
  unfolding plan_pit_fix_tire_apply
  planned_tire current tire s planned = ground (arith, planned)

  desired_given :
      (active current now_on : RuntimePitTireType)
      → active ≢ RuntimePitTireType.unspecified
      → desired_tire active now_on ≡ desired_tire active current
  unfolding desired_tire
  desired_given RuntimePitTireType.unspecified current now_on given = elim (given refl) [ ]
  desired_given RuntimePitTireType.hard current now_on given = refl
  desired_given RuntimePitTireType.soft current now_on given = refl
  desired_given RuntimePitTireType.wet current now_on given = refl

  -- Tyres that the plan asked for and that were applied are not asked for again, whatever tyres are
  -- on the car then, as long as it stays in the pit and the plan, which names its tyres, is not
  -- made anew.
  pub plan-mark :
      (current now_on tire : RuntimePitTireType) (s : RuntimePitState)
      → s.active_next_tire_type ≢ RuntimePitTireType.unspecified
      → (plan_pit_fix_tire_apply current true s).0 ≡ some tire
      → plan_pit_fix_tire_apply now_on true (mark_pit_fix_tire_applied tire s)
        ≡ (none, mark_pit_fix_tire_applied tire s)
  unfolding plan_pit_fix_tire_apply mark_pit_fix_tire_applied is_tire is_revision
  plan-mark current now_on tire s given planned =
      let same =
        desired_given s.active_next_tire_type current now_on given
        ∙ planned_tire current tire s planned in
      simp
        (
          same,
          same_tire_refl tire,
          (==_iff s.next_pit_tire_revision s.next_pit_tire_revision).1 refl,
        )
        refl

  -- Tyres that the driver chose stay the plan whatever the bot asks for, and when the driver hands
  -- the choice back, what the bot asked for last becomes the plan.
  pub frontend-overrides :
      (chosen asked : RuntimePitTireType) (s : RuntimePitState)
      → chosen ≢ RuntimePitTireType.unspecified
      → let t = set_next_tire_from_bot asked (set_next_tire_from_frontend chosen s) in
        (t.active_next_tire_type ≡ chosen)
        × ((set_next_tire_from_frontend RuntimePitTireType.unspecified t).active_next_tire_type
            ≡ asked)
  unfolding set_next_tire_from_bot set_next_tire_from_frontend follow_bot revise
  frontend-overrides RuntimePitTireType.unspecified asked s given = elim (given refl) [ ]
  frontend-overrides RuntimePitTireType.hard asked s given = (refl, refl)
  frontend-overrides RuntimePitTireType.soft asked s given = (refl, refl)
  frontend-overrides RuntimePitTireType.wet asked s given = (refl, refl)
