-- ===== src/Domain/RaceSchedules.antt =====
-- What the validation of game-server/src/domain/race_config.rs accepts.
use hack_arena3_0_backend.Common.Int.{ℤ, ltb_ℤ}
use hack_arena3_0_backend.Common.{
  ℕ, suc, ◌≡◌, ◌↔◌, refl, true, false, List, [], ◌∷◌, Option, none, some, String, ok, ◌>>◌, fail_if,
  any, is_blank, ◌=ₛ◌, All, arith,
}
use hack_arena3_0_backend.Domain.RaceConfig.{
  ConfigApi, RaceConfigDomainError, RaceConfigInput, ScheduleEntry, Checked, validate_input,
  validate_start, validate_overlap, validate_ordering_and_overlap, validate_entries,
  validate_schedule,
}

module _ ⦃api : ConfigApi⦄ where
  -- A configuration that can be raced.
  pub record IsConfig (entry : RaceConfigInput) : Type 0 where
    pub named : is_blank entry.race_name ≡ false
    pub mapped : is_blank entry.map_id ≡ false
    pub placed : api.is_unspecified_mode entry.start_placement_mode ≡ false
    pub timed : api.is_unspecified_preset entry.time_of_day_preset ≡ false
    pub finite : api.is_finite entry.points_multiplier_fixed ≡ true
    pub positive : api.is_positive entry.points_multiplier_fixed ≡ true
    pub window : ltb_ℤ entry.starts_at_ms entry.ends_at_ms ≡ true

  -- The entry starts behind the other and does not overlap it.
  abbrev pub After : RaceConfigInput → RaceConfigInput → Type 0
  After prev entry =
      (ltb_ℤ prev.starts_at_ms entry.starts_at_ms ≡ true)
      × (ltb_ℤ entry.starts_at_ms prev.ends_at_ms ≡ false)

  -- Every entry can be raced and has an id, and each two entries differ in their ids and follow
  -- one another without overlap.
  abbrev pub Valid : List ScheduleEntry → Type 0
  Valid [] = Unit
  Valid (entry ∷ entries) =
      (is_blank entry.race_id ≡ false)
      × IsConfig entry.config
      × All (λ later. ((entry.race_id =ₛ later.race_id) ≡ false) × After entry.config later.config)
          entries
      × Valid entries

  input_sound : (i : ℕ) (entry : RaceConfigInput) → validate_input i entry ≡ ok tt → IsConfig entry
  unfolding validate_input
  input_sound i entry e = record {
    named = ground (arith, e);
    mapped = ground (arith, e);
    placed = ground (arith, e);
    timed = ground (arith, e);
    finite = ground (arith, e);
    positive = ground (arith, e);
    window = ground (arith, e);
  }

  input_complete :
      (i : ℕ) (entry : RaceConfigInput) → IsConfig entry → validate_input i entry ≡ ok tt
  unfolding validate_input
  input_complete i entry c = ground arith

  -- What the first checks of an entry leave for the rest of the loop.
  record Passed (seen : List String) (entry : ScheduleEntry) (ps pe : Option ℤ) (idx : ℕ)
      (rest : Checked) : Type 0 where
    id_given : is_blank entry.race_id ≡ false
    id_fresh : any (λ id. id =ₛ entry.race_id) seen ≡ false
    config : IsConfig entry.config
    start : validate_start idx entry.config.starts_at_ms ps ≡ ok tt
    overlap : validate_overlap idx entry.config.starts_at_ms pe ≡ ok tt
    others : rest ≡ ok tt

  passed :
      (idx : ℕ) (seen : List String) (ps pe : Option ℤ) (entry : ScheduleEntry) (rest : Checked)
      → (fail_if (is_blank entry.race_id) (RaceConfigDomainError.empty_race_id idx)
          >> fail_if
              (any (λ id. id =ₛ entry.race_id) seen)
              (RaceConfigDomainError.duplicate_race_id idx entry.race_id)
          >> validate_input idx entry.config
          >> validate_ordering_and_overlap idx entry.config.starts_at_ms ps pe
          >> rest)
        ≡ ok tt
      → Passed seen entry ps pe idx rest
  unfolding validate_ordering_and_overlap
  passed idx seen ps pe entry rest e = record {
    id_given = ground (arith, e);
    id_fresh = ground (arith, e);
    config = input_sound idx entry.config (ground (arith, e));
    start = ground (arith, e);
    overlap = ground (arith, e);
    others = ground (arith, e);
  }

  -- How a later entry stands to the ids seen and to the entry before.
  abbrev Follows : List String → RaceConfigInput → ScheduleEntry → Type 0
  Follows seen prev later = (any (λ id. id =ₛ later.race_id) seen ≡ false) × After prev later.config

  follow_further :
      (seen : List String) (prev : RaceConfigInput) (entry : ScheduleEntry)
      (entries : List ScheduleEntry)
      → IsConfig entry.config
      → After prev entry.config
      → All (Follows (entry.race_id ∷ seen) entry.config) entries
      → All (Follows seen prev) entries
  follow_further seen prev entry [] c a f = tt
  follow_further seen prev entry (later ∷ entries) c a f = (
    (
      ground (arith, f.0.0),
      (ground (arith, f.0.1, a, c.window), ground (arith, f.0.1, a, c.window)),
    ),
    follow_further seen prev entry entries c a f.1,
  )

  follow_distinct :
      (seen : List String) (entry : ScheduleEntry) (entries : List ScheduleEntry)
      → All (Follows (entry.race_id ∷ seen) entry.config) entries
      → All
          (λ later. ((entry.race_id =ₛ later.race_id) ≡ false) × After entry.config later.config)
          entries
  follow_distinct seen entry [] f = tt
  follow_distinct seen entry (later ∷ entries) f =
      ((ground (arith, f.0.0), f.0.1), follow_distinct seen entry entries f.1)

  entries_sound :
      (idx : ℕ) (seen : List String) (prev : RaceConfigInput) (entries : List ScheduleEntry)
      → validate_entries idx seen (some prev.starts_at_ms) (some prev.ends_at_ms) entries ≡ ok tt
      → Valid entries × All (Follows seen prev) entries
  unfolding validate_entries validate_start validate_overlap
  entries_sound idx seen prev [] e = (tt, tt)
  entries_sound idx seen prev (entry ∷ entries) e =
      let p = passed idx seen (some prev.starts_at_ms) (some prev.ends_at_ms) entry _ e in
      let rest = entries_sound (suc idx) (entry.race_id ∷ seen) entry.config entries p.others in
      let after : After prev entry.config = (ground (arith, p.start), ground (arith, p.overlap)) in
      (
        (p.id_given, p.config, follow_distinct seen entry entries rest.1, rest.0),
        ((p.id_fresh, after), follow_further seen prev entry entries p.config after rest.1),
      )

  follow_next :
      (seen : List String) (prev : RaceConfigInput) (entry : ScheduleEntry)
      (entries : List ScheduleEntry)
      → All
          (λ later. ((entry.race_id =ₛ later.race_id) ≡ false) × After entry.config later.config)
          entries
      → All (Follows seen prev) entries
      → All (Follows (entry.race_id ∷ seen) entry.config) entries
  follow_next seen prev entry [] d f = tt
  follow_next seen prev entry (later ∷ entries) d f =
      ((ground (arith, d.0.0, f.0.0), d.0.1), follow_next seen prev entry entries d.1 f.1)

  entries_complete :
      (idx : ℕ) (seen : List String) (prev : RaceConfigInput) (entries : List ScheduleEntry)
      → Valid entries
      → All (Follows seen prev) entries
      → validate_entries idx seen (some prev.starts_at_ms) (some prev.ends_at_ms) entries ≡ ok tt
  unfolding validate_entries validate_ordering_and_overlap validate_start validate_overlap
  entries_complete idx seen prev [] v f = refl
  entries_complete idx seen prev (entry ∷ entries) v f =
      simp
        (
          v.0,
          f.0.0,
          f.0.1.0,
          f.0.1.1,
          input_complete idx entry.config v.1,
          entries_complete (suc idx) (entry.race_id ∷ seen) entry.config entries v.3
              (follow_next seen prev entry entries v.2 f.1),
        )
        refl

  follow_first :
      (entry : ScheduleEntry) (entries : List ScheduleEntry)
      → All
          (λ later. ((entry.race_id =ₛ later.race_id) ≡ false) × After entry.config later.config)
          entries
      → All (Follows (entry.race_id ∷ []) entry.config) entries
  follow_first entry [] d = tt
  follow_first entry (later ∷ entries) d =
      ((ground (arith, d.0.0), d.0.1), follow_first entry entries d.1)

  -- A schedule is accepted exactly when each of its entries has an id and a configuration that can
  -- be raced, no two entries share an id, and each entry starts behind every earlier one, not
  -- before that one's end.
  pub validate_schedule_iff :
      (entries : List ScheduleEntry) → (validate_schedule entries ≡ ok tt) ↔ Valid entries
  unfolding validate_schedule validate_entries validate_ordering_and_overlap validate_start
      validate_overlap
  validate_schedule_iff [] = (λ _. tt, λ _. refl)
  validate_schedule_iff (entry ∷ entries) = (
    (λ e.
        let p = passed 0 [] none none entry _ e in
        let rest = entries_sound 1 (entry.race_id ∷ []) entry.config entries p.others in
        (p.id_given, p.config, follow_distinct [] entry entries rest.1, rest.0)),
    (λ v.
        simp
          (
            v.0,
            input_complete 0 entry.config v.1,
            entries_complete 1 (entry.race_id ∷ []) entry.config entries v.3
                (follow_first entry entries v.2),
          )
          refl),
  )
