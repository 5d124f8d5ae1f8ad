-- ===== src/Local/Phases.antt =====
-- The clock and the phases of game-server/src/local/local_race_state.rs.
use hack_arena3_0_backend.Common.{ℕ, ◌≤◌, ◌≡◌, inl, inr, refl, ap, some, arith, u64_max, Bool-cases}
use hack_arena3_0_backend.Local.RaceState.{
  RaceApi, LocalRacePhase, LocalRaceRuntimeInfo, timestamp_from_ms, timestamp_ms, race_phase,
  has_come, start_running, normalize_from, normalize_race_phase_at,
}

-- A time in milliseconds that fits u64 comes back from its timestamp unchanged.
pub timestamp_ms-timestamp_from_ms :
    (ms : ℕ) → ms ≤ u64_max → timestamp_ms (some (timestamp_from_ms ms)) ≡ some ms
unfolding timestamp_ms timestamp_from_ms
timestamp_ms-timestamp_from_ms ms small = ap some (omega (arith, small))

module _ ⦃api : RaceApi⦄ where
  -- Each phase is read back from its number.
  abbrev pub ReadsBack : Type 0
  ReadsBack = (p : LocalRacePhase) → api.phase_of (api.code_of p) ≡ some p

  pub race_phase-code_of : ReadsBack → (p : LocalRacePhase) → race_phase (api.code_of p) ≡ p
  unfolding race_phase
  race_phase-code_of law p = rw (law p) refl

  -- How the phase after a call relates to the phase before.
  pub data Moves : LocalRacePhase → LocalRacePhase → Type 0 where
    stays : {p : LocalRacePhase} → Moves p p
    starts : Moves LocalRacePhase.countdown LocalRacePhase.running
    ends : Moves LocalRacePhase.running LocalRacePhase.finished

  normalize_from-Moves :
      ReadsBack
      → (p : LocalRacePhase) (race : LocalRaceRuntimeInfo) (now_ms : ℕ) → race_phase race.phase ≡ p
      → Moves p (race_phase (normalize_from p race now_ms).phase)
  unfolding normalize_from start_running
  normalize_from-Moves law LocalRacePhase.countdown race now_ms e =
      elim (Bool-cases (has_come race.countdown_end_at_utc now_ms)) [
        | inl came ↦ rw came (rw (race_phase-code_of law LocalRacePhase.running) starts)
        | inr later ↦ rw later (rw e stays)
      ]
  normalize_from-Moves law LocalRacePhase.running race now_ms e =
      elim (Bool-cases (has_come race.planned_end_at_utc now_ms)) [
        | inl came ↦ rw came (rw (race_phase-code_of law LocalRacePhase.finished) ends)
        | inr later ↦ rw later (rw e stays)
      ]
  normalize_from-Moves law LocalRacePhase.unspecified race now_ms e = rw e stays
  normalize_from-Moves law LocalRacePhase.staging race now_ms e = rw e stays
  normalize_from-Moves law LocalRacePhase.finished race now_ms e = rw e stays
  normalize_from-Moves law LocalRacePhase.aborted race now_ms e = rw e stays

  -- Bringing a race up to date leaves its phase or moves it one step on, from the countdown to
  -- running or from running to finished, provided that each phase is read back from its number.
  pub normalize-Moves :
      ReadsBack
      → (race : LocalRaceRuntimeInfo) (now_ms : ℕ)
      → Moves (race_phase race.phase) (race_phase (normalize_race_phase_at race now_ms).phase)
  unfolding normalize_race_phase_at
  normalize-Moves law race now_ms =
      normalize_from-Moves law (race_phase race.phase) race now_ms refl

  -- Nothing is left to do for the race at this time.
  abbrev pub Settled : LocalRaceRuntimeInfo → ℕ → Type 0
  Settled race now_ms = normalize_race_phase_at race now_ms ≡ race

  Settled-twice :
      (race : LocalRaceRuntimeInfo) (now_ms : ℕ)
      → Settled race now_ms
      → Settled (normalize_race_phase_at (normalize_race_phase_at race now_ms) now_ms) now_ms
  Settled-twice race now_ms e = rw e (rw e e)

  pub running-Settled :
      ReadsBack
      → (race : LocalRaceRuntimeInfo) (now_ms : ℕ) → race_phase race.phase ≡ LocalRacePhase.running
      → Settled (normalize_race_phase_at race now_ms) now_ms
  unfolding normalize_race_phase_at normalize_from
  running-Settled law race now_ms e = elim (Bool-cases (has_come race.planned_end_at_utc now_ms)) [
    | inl came ↦ simp (e, came, race_phase-code_of law LocalRacePhase.finished) refl
    | inr later ↦ simp (e, later) refl
  ]

  pub twice_from :
      ReadsBack
      → (p : LocalRacePhase) (race : LocalRaceRuntimeInfo) (now_ms : ℕ) → race_phase race.phase ≡ p
      → Settled (normalize_race_phase_at (normalize_race_phase_at race now_ms) now_ms) now_ms
  unfolding normalize_race_phase_at normalize_from
  twice_from law LocalRacePhase.countdown race now_ms e =
      elim (Bool-cases (has_come race.countdown_end_at_utc now_ms)) [
        | inl came ↦
            let started : normalize_race_phase_at race now_ms ≡ start_running now_ms race =
              simp (e, came) refl in
            rw started (
              running-Settled law (start_running now_ms race) now_ms
                (unfold start_running in race_phase-code_of law LocalRacePhase.running))
        | inr later ↦ Settled-twice race now_ms (simp (e, later) refl)
      ]
  twice_from law LocalRacePhase.running race now_ms e =
      let once = running-Settled law race now_ms e in rw once once
  twice_from law LocalRacePhase.unspecified race now_ms e = Settled-twice race now_ms (simp e refl)
  twice_from law LocalRacePhase.staging race now_ms e = Settled-twice race now_ms (simp e refl)
  twice_from law LocalRacePhase.finished race now_ms e = Settled-twice race now_ms (simp e refl)
  twice_from law LocalRacePhase.aborted race now_ms e = Settled-twice race now_ms (simp e refl)
