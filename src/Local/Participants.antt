-- ===== src/Local/Participants.antt =====
-- The participants of game-server/src/local/local_race_state.rs.
use hack_arena3_0_backend.Common.Action.{and_then}
use hack_arena3_0_backend.Common.Dict
use hack_arena3_0_backend.Common.Dict.{Dict, nat_eq, get-insert}
use hack_arena3_0_backend.Common.{
  ℕ, ◌+◌, ◌≤◌, ◌<◌, ◌≡◌, ◌⊎◌, inl, inr, refl, min, max, false, ◌&&◌, [], ◌∷◌, Option, none, some,
  String, Result, ok, err, arith, leb, ltb, ◌==◌, ◌=ₛ◌, u32_max, Bool-cases, Option-cases,
}
use hack_arena3_0_backend.Local.RaceState.{
  RaceApi, LocalRaceRuntimeInfo, LocalRaceState, LocalRaceStateError, LocalRaceParticipantRecord,
  check_race, the_race, joined, normalize_race_phase_at, race_phase, is_staging, write_count,
  add_participant, register_participant, remove_participant, set_active_race, clear_active_race,
}

module _ ⦃api : RaceApi⦄ where
  -- The indices of the participants are below the next one, and no two are the same.
  abbrev pub Below : ℕ → Dict ℕ LocalRaceParticipantRecord → Type 0
  Below n [] = Unit
  Below n ((k, p) ∷ d) = (1 ≤ p.participant_index) × (p.participant_index < n) × Below n d

  abbrev pub Unlike : ℕ → Dict ℕ LocalRaceParticipantRecord → Type 0
  Unlike i [] = Unit
  Unlike i ((k, p) ∷ d) = ((p.participant_index == i) ≡ false) × Unlike i d

  abbrev pub Unique : Dict ℕ LocalRaceParticipantRecord → Type 0
  Unique [] = Unit
  Unique ((k, p) ∷ d) = Unlike p.participant_index d × Unique d

  pub record Indexed (s : LocalRaceState) : Type 0 where
    pub below : Below s.next_participant_index s.participants
    pub unique : Unique s.participants

  Below-more : (n m : ℕ) (d : Dict ℕ LocalRaceParticipantRecord) → n ≤ m → Below n d → Below m d
  Below-more n m [] h b = tt
  Below-more n m ((k, p) ∷ d) h b = (b.0, omega (arith, b.1), Below-more n m d h b.2)

  Below-Unlike : (n : ℕ) (d : Dict ℕ LocalRaceParticipantRecord) → Below n d → Unlike n d
  Below-Unlike n [] b = tt
  Below-Unlike n ((k, p) ∷ d) b = (ground (arith, b.1), Below-Unlike n d b.2)

  insert-Below :
      (n k : ℕ) (q : LocalRaceParticipantRecord) (d : Dict ℕ LocalRaceParticipantRecord)
      → 1 ≤ q.participant_index
      → q.participant_index < n
      → Below n d
      → Below n (Dict.insert k q d)
  unfolding Dict.insert
  insert-Below n k q [] g h b = (g, h, tt)
  insert-Below n k q ((j, p) ∷ d) g h b = ground (arith, b, insert-Below n k q d g h b.2)

  insert-Unlike :
      (i k : ℕ) (q : LocalRaceParticipantRecord) (d : Dict ℕ LocalRaceParticipantRecord)
      → (q.participant_index == i) ≡ false
      → Unlike i d
      → Unlike i (Dict.insert k q d)
  unfolding Dict.insert
  insert-Unlike i k q [] h u = (h, tt)
  insert-Unlike i k q ((j, p) ∷ d) h u = ground (arith, u, insert-Unlike i k q d h u.1)

  insert-Unique :
      (k : ℕ) (q : LocalRaceParticipantRecord) (d : Dict ℕ LocalRaceParticipantRecord)
      → Unlike q.participant_index d
      → Unique d
      → Unique (Dict.insert k q d)
  unfolding Dict.insert
  insert-Unique k q [] h u = (tt, tt)
  insert-Unique k q ((j, p) ∷ d) h u = ground (
    arith,
    u,
    h,
    insert-Unique k q d h.1 u.1,
    insert-Unlike p.participant_index k q d (ground (arith, h.0)) u.0,
  )

  remove-Below :
      (n k : ℕ) (d : Dict ℕ LocalRaceParticipantRecord) → Below n d → Below n (Dict.remove k d)
  unfolding Dict.remove
  remove-Below n k [] b = tt
  remove-Below n k ((j, p) ∷ d) b = ground (arith, b, remove-Below n k d b.2)

  remove-Unlike :
      (i k : ℕ) (d : Dict ℕ LocalRaceParticipantRecord) → Unlike i d → Unlike i (Dict.remove k d)
  unfolding Dict.remove
  remove-Unlike i k [] u = tt
  remove-Unlike i k ((j, p) ∷ d) u = ground (arith, u, remove-Unlike i k d u.1)

  remove-Unique :
      (k : ℕ) (d : Dict ℕ LocalRaceParticipantRecord) → Unique d → Unique (Dict.remove k d)
  unfolding Dict.remove
  remove-Unique k [] u = tt
  remove-Unique k ((j, p) ∷ d) u =
      ground (arith, u, remove-Unique k d u.1, remove-Unlike p.participant_index k d u.0)

  -- What a successful registration does.
  pub record Registered (car_id : ℕ) (display_name : String) (s : LocalRaceState)
      (p : LocalRaceParticipantRecord) (t : LocalRaceState) : Type 0 where
    pub named : (p.car_id ≡ car_id) × (p.display_name ≡ display_name)
    pub index : p.participant_index ≡ max s.next_participant_index 1
    pub stored : t.participants ≡ Dict.insert car_id p s.participants
    pub next : t.next_participant_index ≡ min (p.participant_index + 1) u32_max

  pub data Registration (car_id : ℕ) (display_name : String) (s : LocalRaceState)
      : Result LocalRaceStateError LocalRaceParticipantRecord × LocalRaceState → Type 0 where
    refused :
        (e : LocalRaceStateError) {t : LocalRaceState}
        → t.participants ≡ s.participants
        → t.next_participant_index ≡ s.next_participant_index
        → Registration car_id display_name s (err e, t)
    registered :
        {p : LocalRaceParticipantRecord} {t : LocalRaceState}
        → Registered car_id display_name s p t
        → Registration car_id display_name s (ok p, t)

  add-Registered :
      (car_id : ℕ) (display_name : String) (s t : LocalRaceState)
      → t.participants ≡ s.participants
      → t.next_participant_index ≡ s.next_participant_index
      → Registration car_id display_name s (add_participant car_id display_name t)
  unfolding add_participant write_count
  add-Registered car_id display_name s t p n = elim (Option-cases t.active) [
    | inl none_active ↦ simp none_active (
        registered
          (record { named = (refl, refl); index = rw n refl; stored = rw p refl; next = refl }))
    | inr (race, is) ↦ simp is (
        registered
          (record { named = (refl, refl); index = rw n refl; stored = rw p refl; next = refl }))
  ]

  check_race-cases :
      (race_id : String) (active : Option LocalRaceRuntimeInfo) (s : LocalRaceState)
      → ((e : LocalRaceStateError) × (check_race race_id active s ≡ (err e, s)))
        ⊎ ((race : LocalRaceRuntimeInfo) × (active ≡ some race)
            × (check_race race_id active s ≡ (ok race, s)))
  unfolding check_race
  check_race-cases race_id none s = inl (LocalRaceStateError.no_active_race, refl)
  check_race-cases race_id (some race) s = elim (Bool-cases (race.race_id =ₛ race_id)) [
    | inl same ↦ inr (race, refl, simp same refl)
    | inr other ↦ inl (LocalRaceStateError.race_mismatch, simp other refl)
  ]

  the_race-cases :
      (race_id : String) (s : LocalRaceState)
      → ((e : LocalRaceStateError) × (the_race race_id s ≡ (err e, s)))
        ⊎ ((race : LocalRaceRuntimeInfo) × (s.active ≡ some race)
            × (the_race race_id s ≡ (ok race, s)))
  unfolding the_race
  the_race-cases race_id s = check_race-cases race_id s.active s

  -- A registration is refused and leaves the participants and the next index as they were, or it
  -- stores the participant under the car with the next index, which it moves on by one.
  pub register-Registration :
      (race_id : String) (car_id : ℕ) (display_name : String) (now_ms : ℕ) (s : LocalRaceState)
      → Registration car_id display_name s
          (register_participant race_id car_id display_name now_ms s)
  unfolding register_participant and_then
  register-Registration race_id car_id display_name now_ms s = elim (the_race-cases race_id s) [
    | inl (e, fails) ↦ simp fails (refused e refl refl)
    | inr (race, is, found) ↦
        let r = normalize_race_phase_at race now_ms in
        simp found (elim (Bool-cases (is_staging (race_phase r.phase))) [
          | inr closed ↦ simp closed (refused _ refl refl)
          | inl open_phase ↦
              simp open_phase
                (elim (Bool-cases (
                  ltb 0 r.max_participants
                  && leb r.max_participants (joined (record s { active = some r })))) [
                    | inl full ↦ simp full (refused _ refl refl)
                    | inr room ↦ simp room (
                        add-Registered car_id display_name s (record s { active = some r }) refl
                          refl)
                  ])
        ])
  ]

  -- A registration keeps the indices of the participants apart, also when a car registers again, as
  -- long as the next index is below the bound of u32.
  pub register-Indexed :
      (race_id : String) (car_id : ℕ) (display_name : String) (now_ms : ℕ) (s : LocalRaceState)
      → s.next_participant_index < u32_max
      → Indexed s
      → Indexed (register_participant race_id car_id display_name now_ms s).1
  register-Indexed race_id car_id display_name now_ms s small k =
      kept (register-Registration race_id car_id display_name now_ms s)
    where
      kept :
          {r : Result LocalRaceStateError LocalRaceParticipantRecord × LocalRaceState}
          → Registration car_id display_name s r
          → Indexed r.1
      kept (refused e {t = t} p n) = record { below = rw n (rw p k.below); unique = rw p k.unique }
      kept (registered {p = p} {t = t} g) = record {
        below = rw g.stored (
            insert-Below t.next_participant_index car_id p s.participants (omega (arith, g.index))
              (omega (arith, g.index, g.next))
              (Below-more s.next_participant_index t.next_participant_index s.participants
                (omega (arith, g.index, g.next)) k.below));
        unique = rw g.stored (
            insert-Unique car_id p s.participants
              (Below-Unlike p.participant_index s.participants (
                Below-more s.next_participant_index p.participant_index s.participants
                  (omega (arith, g.index)) k.below))
              k.unique);
      }

  -- Removing a participant keeps the indices apart, and a new race or a cleared one starts with none.
  pub others-Indexed :
      (race_id : String) (car_id : ℕ) (race : LocalRaceRuntimeInfo) (now_ms : ℕ)
      (s : LocalRaceState)
      → Indexed s
      → Indexed (remove_participant car_id s)
        × Indexed (set_active_race race now_ms s)
        × Indexed (clear_active_race race_id s).1
  unfolding set_active_race clear_active_race and_then remove_participant write_count
  others-Indexed race_id car_id race now_ms s k = (
    elim (Option-cases s.active) [
      | inl none_active ↦ simp none_active (record {
        below = remove-Below _ car_id s.participants k.below;
        unique = remove-Unique car_id s.participants k.unique;
      })
      | inr (old, is) ↦ simp is (record {
        below = remove-Below _ car_id s.participants k.below;
        unique = remove-Unique car_id s.participants k.unique;
      })
    ],
    record { below = tt; unique = tt },
    elim (the_race-cases race_id s) [
      | inl (e, fails) ↦ simp fails k
      | inr (old, is, found) ↦ simp found (record { below = tt; unique = tt })
    ],
  )
