-- ===== src/Local/Settling.antt =====
-- What bringing a race of game-server/src/local/local_race_state.rs up to date comes to.
use hack_arena3_0_backend.Common.{
  ℕ, Option, ◌<◌, ◌≡◌, ◌≢◌, refl, sym, subst, ap, ◌∙◌, inl, inr, false, arith, u64_max, Bool-cases,
}
use hack_arena3_0_backend.Local.Moments.{Past, has_come_iff}
use hack_arena3_0_backend.Local.Phases.{
  ReadsBack, race_phase-code_of, Settled, running-Settled, twice_from,
}
use hack_arena3_0_backend.Local.RaceState.{
  RaceApi, Timestamp, LocalRacePhase, LocalRaceRuntimeInfo, race_phase, has_come, start_running,
  normalize_from, normalize_race_phase_at,
}

module _ ⦃api : RaceApi⦄ where
  -- A running race at a time: it is finished exactly if its planned end has come.
  pub data Ends (now_ms : ℕ) (old new : LocalRaceRuntimeInfo) : Type 0 where
    races : ¬ Past old.planned_end_at_utc now_ms → new ≡ old → Ends now_ms old new
    finishes :
        Past old.planned_end_at_utc now_ms
        → race_phase new.phase ≡ LocalRacePhase.finished
        → new.planned_end_at_utc ≡ old.planned_end_at_utc
        → Ends now_ms old new

  -- A race and what it is at a time: a countdown goes on until its end has come, and the race that
  -- starts then may have ended; in the other phases nothing happens.
  pub data UpToDate (now_ms : ℕ) (old new : LocalRaceRuntimeInfo) : Type 0 where
    waits :
        race_phase old.phase ≡ LocalRacePhase.countdown
        → ¬ Past old.countdown_end_at_utc now_ms
        → new ≡ old
        → UpToDate now_ms old new
    starts :
        race_phase old.phase ≡ LocalRacePhase.countdown
        → Past old.countdown_end_at_utc now_ms
        → race_phase (normalize_race_phase_at old now_ms).phase ≡ LocalRacePhase.running
        → Ends now_ms (normalize_race_phase_at old now_ms) new
        → UpToDate now_ms old new
    runs :
        race_phase old.phase ≡ LocalRacePhase.running
        → Ends now_ms old new
        → UpToDate now_ms old new
    rests :
        race_phase old.phase ≢ LocalRacePhase.countdown
        → race_phase old.phase ≢ LocalRacePhase.running
        → new ≡ old
        → UpToDate now_ms old new

  abbrev twice : LocalRaceRuntimeInfo → ℕ → LocalRaceRuntimeInfo
  twice race now_ms = normalize_race_phase_at (normalize_race_phase_at race now_ms) now_ms

  twice-same :
      (race : LocalRaceRuntimeInfo) (now_ms : ℕ) → Settled race now_ms → twice race now_ms ≡ race
  twice-same race now_ms e = ap (λ r. normalize_race_phase_at r now_ms) e ∙ e

  resting :
      (race : LocalRaceRuntimeInfo) (now_ms : ℕ)
      → race_phase race.phase ≢ LocalRacePhase.countdown
      → race_phase race.phase ≢ LocalRacePhase.running
      → Settled race now_ms
      → UpToDate now_ms race (twice race now_ms)
  resting race now_ms c r e = UpToDate.rests c r (twice-same race now_ms e)

  not-Past :
      (o : Option Timestamp) (now_ms : ℕ)
      → now_ms < u64_max
      → has_come o now_ms ≡ false
      → ¬ Past o now_ms
  not-Past o now_ms h n p = ground (arith, n, (has_come_iff o now_ms h).1 p)

  running-Ends :
      ReadsBack
      → (race : LocalRaceRuntimeInfo) (now_ms : ℕ) → now_ms < u64_max
      → race_phase race.phase ≡ LocalRacePhase.running
      → Ends now_ms race (normalize_race_phase_at race now_ms)
  unfolding normalize_race_phase_at normalize_from
  running-Ends law race now_ms h e = elim (Bool-cases (has_come race.planned_end_at_utc now_ms)) [
    | inl came ↦
        rw (e, came)
          (Ends.finishes ((has_come_iff race.planned_end_at_utc now_ms h).0 came)
            (race_phase-code_of law LocalRacePhase.finished) refl)
    | inr later ↦ rw (e, later) (Ends.races (not-Past race.planned_end_at_utc now_ms h later) refl)
  ]

  -- What the second call does to a race that the first has started.
  started-Ends :
      ReadsBack
      → (race : LocalRaceRuntimeInfo) (now_ms : ℕ) → now_ms < u64_max
      → normalize_race_phase_at race now_ms ≡ start_running now_ms race
      → (race_phase (normalize_race_phase_at race now_ms).phase ≡ LocalRacePhase.running)
        × Ends now_ms (normalize_race_phase_at race now_ms) (twice race now_ms)
  unfolding start_running
  started-Ends law race now_ms h e =
      let runs = ap (λ r. race_phase r.phase) e ∙ race_phase-code_of law LocalRacePhase.running in
      (runs, running-Ends law (normalize_race_phase_at race now_ms) now_ms h runs)

  up_to_date :
      ReadsBack
      → (p : LocalRacePhase) (race : LocalRaceRuntimeInfo) (now_ms : ℕ) → now_ms < u64_max
      → race_phase race.phase ≡ p
      → UpToDate now_ms race (twice race now_ms)
  unfolding normalize_race_phase_at normalize_from
  up_to_date law LocalRacePhase.countdown race now_ms h e =
      elim (Bool-cases (has_come race.countdown_end_at_utc now_ms)) [
        | inl came ↦
            let s = started-Ends law race now_ms h (simp (e, came) refl) in
            UpToDate.starts e ((has_come_iff race.countdown_end_at_utc now_ms h).0 came) s.0 s.1
        | inr later ↦
            UpToDate.waits e (not-Past race.countdown_end_at_utc now_ms h later)
              (twice-same race now_ms (simp (e, later) refl))
      ]
  up_to_date law LocalRacePhase.running race now_ms h e = UpToDate.runs e (
      subst (Ends now_ms race) (sym (running-Settled law race now_ms e))
        (running-Ends law race now_ms h e))
  up_to_date law LocalRacePhase.unspecified race now_ms h e =
      resting race now_ms (λ c. ground (arith, e, c)) (λ c. ground (arith, e, c)) (simp e refl)
  up_to_date law LocalRacePhase.staging race now_ms h e =
      resting race now_ms (λ c. ground (arith, e, c)) (λ c. ground (arith, e, c)) (simp e refl)
  up_to_date law LocalRacePhase.finished race now_ms h e =
      resting race now_ms (λ c. ground (arith, e, c)) (λ c. ground (arith, e, c)) (simp e refl)
  up_to_date law LocalRacePhase.aborted race now_ms h e =
      resting race now_ms (λ c. ground (arith, e, c)) (λ c. ground (arith, e, c)) (simp e refl)

  -- Two calls at one time below the bound of u64 bring a race fully up to date, provided that each
  -- phase is read back from its number: a countdown goes on exactly until its end has come, a race
  -- that runs, or has then started, is finished exactly if its planned end has come, any other race
  -- is as it was, and a third call changes nothing.
  pub normalize-settles :
      ReadsBack
      → (race : LocalRaceRuntimeInfo) (now_ms : ℕ) → now_ms < u64_max
      → let twice = normalize_race_phase_at (normalize_race_phase_at race now_ms) now_ms in
        UpToDate now_ms race twice × (normalize_race_phase_at twice now_ms ≡ twice)
  normalize-settles law race now_ms h = (
    up_to_date law (race_phase race.phase) race now_ms h refl,
    twice_from law (race_phase race.phase) race now_ms refl,
  )
