-- ===== src/Domain/RaceErrors.antt =====
-- Where the validation of game-server/src/domain/race_config.rs reports an error, and how drafts
-- relate to persisted schedules.
use hack_arena3_0_backend.Common.Int.{ℤ}
use hack_arena3_0_backend.Common.{
  ℕ, zero, suc, ◌+◌, ◌<◌, ◌≡◌, ◌⊎◌, inl, inr, refl, sym, ap, ◌∙◌, Bool, true, false, List, [], ◌∷◌,
  Option, none, some, String, ok, err, ◌>>◌, fail_if, any, is_blank, ◌=ₛ◌, arith, length,
}
use hack_arena3_0_backend.Domain.RaceConfig.{
  ConfigApi, RaceConfigDomainError, RaceConfigInput, ScheduleEntry, Checked, validate_input,
  validate_start, validate_overlap, validate_ordering_and_overlap, validate_entries,
  validate_schedule, validate_inputs_from, validate_draft_schedule,
}

-- The position that an error names.
unfoldable pub index : RaceConfigDomainError → ℕ
index (RaceConfigDomainError.empty_race_id i) = i
index (RaceConfigDomainError.empty_race_name i) = i
index (RaceConfigDomainError.empty_map_id i) = i
index (RaceConfigDomainError.unspecified_start_placement_mode i) = i
index (RaceConfigDomainError.unspecified_time_of_day_preset i) = i
index (RaceConfigDomainError.invalid_points_multiplier i) = i
index (RaceConfigDomainError.invalid_time_window i start end) = i
index (RaceConfigDomainError.non_increasing_start_time i prev current) = i
index (RaceConfigDomainError.overlapping_time_window i prev_end current_start) = i
index (RaceConfigDomainError.duplicate_race_id i race_id) = i

module _ ⦃api : ConfigApi⦄ where
  abbrev pub take : {A : Type 0} → ℕ → List A → List A
  take zero xs = []
  take (suc n) [] = []
  take (suc n) (x ∷ xs) = x ∷ take n xs

  -- Every error that a result can be names the position.
  abbrev At : ℕ → Checked → Type 0
  At i r = (e : RaceConfigDomainError) → r ≡ err e → index e ≡ i

  then-At : (i : ℕ) (r s : Checked) → At i r → At i s → At i (r >> s)
  then-At i (ok x) s a b = b
  then-At i (err d) s a b = λ e h. a e (ground (arith, h))

  fail_if-At : (i : ℕ) (b : Bool) (d : RaceConfigDomainError) → index d ≡ i → At i (fail_if b d)
  fail_if-At i true d h = λ e same. ground (arith, same, h)
  fail_if-At i false d h = λ e same. cc

  ok-At : (i : ℕ) → At i (ok tt)
  ok-At i e h = cc

  input-At : (i : ℕ) (entry : RaceConfigInput) → At i (validate_input i entry)
  unfolding validate_input index
  input-At i entry =
      then-At i _ _
        (then-At i _ _
          (then-At i _ _
            (then-At i _ _ (then-At i _ _ (fail_if-At i _ _ refl) (fail_if-At i _ _ refl))
              (fail_if-At i _ _ refl))
            (fail_if-At i _ _ refl))
          (fail_if-At i _ _ refl))
        (fail_if-At i _ _ refl)

  order-At : (i : ℕ) (s : ℤ) (ps pe : Option ℤ) → At i (validate_ordering_and_overlap i s ps pe)
  unfolding validate_ordering_and_overlap validate_start validate_overlap index
  order-At i s none none = ok-At i
  order-At i s (some p) none = then-At i _ _ (fail_if-At i _ _ refl) (ok-At i)
  order-At i s none (some p) = then-At i (ok tt) _ (ok-At i) (fail_if-At i _ _ refl)
  order-At i s (some p) (some q) = then-At i _ _ (fail_if-At i _ _ refl) (fail_if-At i _ _ refl)

  -- The checks of one entry.
  abbrev entry_checks : ℕ → List String → Option ℤ → Option ℤ → ScheduleEntry → Checked
  entry_checks idx seen ps pe entry =
      fail_if (is_blank entry.race_id) (RaceConfigDomainError.empty_race_id idx)
      >> fail_if (any (λ id. id =ₛ entry.race_id) seen)
          (RaceConfigDomainError.duplicate_race_id idx entry.race_id)
      >> validate_input idx entry.config
      >> validate_ordering_and_overlap idx entry.config.starts_at_ms ps pe

  entry-At :
      (i : ℕ) (seen : List String) (ps pe : Option ℤ) (entry : ScheduleEntry)
      → At i (entry_checks i seen ps pe entry)
  unfolding index
  entry-At i seen ps pe entry =
      then-At i _ _
        (then-At i _ _ (then-At i _ _ (fail_if-At i _ _ refl) (fail_if-At i _ _ refl))
          (input-At i entry.config))
        (order-At i entry.config.starts_at_ms ps pe)

  Checked-cases : (r : Checked) → (r ≡ ok tt) ⊎ ((e : RaceConfigDomainError) × (r ≡ err e))
  Checked-cases (ok tt) = inl refl
  Checked-cases (err e) = inr (e, refl)

  abbrev Located :
      ℕ → List String → Option ℤ → Option ℤ → List ScheduleEntry → RaceConfigDomainError → Type 0
  Located idx seen ps pe entries e =
      (k : ℕ) × (index e ≡ idx + k)
      × (k < length entries)
      × (validate_entries idx seen ps pe (take k entries) ≡ ok tt)
      × (validate_entries idx seen ps pe (take (suc k) entries) ≡ err e)

  passes_on :
      (idx : ℕ) (seen : List String) (ps pe : Option ℤ) (entry : ScheduleEntry)
      (entries : List ScheduleEntry)
      → entry_checks idx seen ps pe entry ≡ ok tt
      → validate_entries idx seen ps pe (entry ∷ entries)
        ≡ validate_entries
            (suc idx)
            (entry.race_id ∷ seen)
            (some entry.config.starts_at_ms)
            (some entry.config.ends_at_ms)
            entries
  unfolding validate_entries
  passes_on idx seen ps pe entry entries h =
      ap
        (λ c.
          c
          >> validate_entries (suc idx) (entry.race_id ∷ seen) (some entry.config.starts_at_ms)
              (some entry.config.ends_at_ms) entries)
        h

  stops :
      (idx : ℕ) (seen : List String) (ps pe : Option ℤ) (entry : ScheduleEntry)
      (entries : List ScheduleEntry) (d : RaceConfigDomainError)
      → entry_checks idx seen ps pe entry ≡ err d
      → validate_entries idx seen ps pe (entry ∷ entries) ≡ err d
  unfolding validate_entries
  stops idx seen ps pe entry entries d h =
      ap
        (λ c.
          c
          >> validate_entries (suc idx) (entry.race_id ∷ seen) (some entry.config.starts_at_ms)
              (some entry.config.ends_at_ms) entries)
        h

  entries-Located :
      (idx : ℕ) (seen : List String) (ps pe : Option ℤ) (entries : List ScheduleEntry)
      (e : RaceConfigDomainError)
      → validate_entries idx seen ps pe entries ≡ err e
      → Located idx seen ps pe entries e
  unfolding validate_entries
  entries-Located idx seen ps pe [] e h = cc
  entries-Located idx seen ps pe (entry ∷ entries) e h =
      elim (Checked-cases (entry_checks idx seen ps pe entry)) [
        | inl passes ↦
            let (k, at, small, before, upto) =
              entries-Located (suc idx) (entry.race_id ∷ seen) (some entry.config.starts_at_ms)
                (some entry.config.ends_at_ms) entries e
                (sym (passes_on idx seen ps pe entry entries passes) ∙ h) in
            (
              suc k,
              omega (arith, at),
              omega (arith, small),
              passes_on idx seen ps pe entry (take k entries) passes ∙ before,
              passes_on idx seen ps pe entry (take (suc k) entries) passes ∙ upto,
            )
        | inr (d, fails) ↦ (0, here d fails, omega arith, refl, alone d fails)
      ]
    where
      same :
          (d : RaceConfigDomainError)
          → entry_checks idx seen ps pe entry ≡ err d
          → ◌≡◌ {A = Checked} (err d) (err e)
      same d fails = sym (stops idx seen ps pe entry entries d fails) ∙ h

      alone :
          (d : RaceConfigDomainError)
          → entry_checks idx seen ps pe entry ≡ err d
          → validate_entries idx seen ps pe (entry ∷ []) ≡ err e
      alone d fails = stops idx seen ps pe entry [] d fails ∙ same d fails

      here :
          (d : RaceConfigDomainError)
          → entry_checks idx seen ps pe entry ≡ err d
          → index e ≡ idx + 0
      here d fails = omega (arith, entry-At idx seen ps pe entry e (fails ∙ same d fails))

  -- An error names the position of an entry of the schedule: the entries in front of it are accepted
  -- by themselves, and together with it they are refused with that error.
  pub validate_schedule-first_error :
      (entries : List ScheduleEntry) (e : RaceConfigDomainError)
      → validate_schedule entries ≡ err e
      → (index e < length entries)
        × (validate_schedule (take (index e) entries) ≡ ok tt)
        × (validate_schedule (take (suc (index e)) entries) ≡ err e)
  unfolding validate_schedule
  validate_schedule-first_error entries e h =
      let (k, at, small, before, upto) = entries-Located 0 [] none none entries e h in
      let here : index e ≡ k = omega (arith, at) in
      (omega (arith, here, small), rw here before, rw here upto)

  -- A schedule that is accepted is also accepted as a draft, without its ids.
  abbrev pub configs : List ScheduleEntry → List RaceConfigInput
  configs [] = []
  configs (entry ∷ entries) = entry.config ∷ configs entries

  drafts-accepted :
      (idx : ℕ) (seen : List String) (ps pe : Option ℤ) (entries : List ScheduleEntry)
      → validate_entries idx seen ps pe entries ≡ ok tt
      → validate_inputs_from idx ps pe (configs entries) ≡ ok tt
  unfolding validate_entries validate_inputs_from
  drafts-accepted idx seen ps pe [] h = refl
  drafts-accepted idx seen ps pe (entry ∷ entries) h = ground (
    arith,
    drafts-accepted (suc idx) (entry.race_id ∷ seen) (some entry.config.starts_at_ms)
        (some entry.config.ends_at_ms) entries,
    h,
  )

  -- The configurations of a schedule that is accepted are accepted as a draft.
  pub validate_draft_schedule-configs :
      (entries : List ScheduleEntry)
      → validate_schedule entries ≡ ok tt
      → validate_draft_schedule (configs entries) ≡ ok tt
  unfolding validate_schedule validate_draft_schedule
  validate_draft_schedule-configs entries h = drafts-accepted 0 [] none none entries h
