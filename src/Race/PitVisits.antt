-- ===== src/Race/PitVisits.antt =====
-- The history of pit visits that game-server/src/services/race/runtime_store.rs keeps.
use hack_arena3_0_backend.Common.{
  ℕ, zero, suc, ◌≤◌, ◌≡◌, refl, sym, subst, ap, ◌∙◌, List, [], ◌∷◌, Option, none, some, arith,
  length, is_some,
}
use hack_arena3_0_backend.Race.PitState.{
  FloatApi, RuntimeActiveFixSession, RuntimePitState, default_pit_state,
}
use hack_arena3_0_backend.Race.PitUpdate.{
  VehicleState, pit_history_max_entries, keep_first, completed_pit, push_history, enter_fix_zone,
  session_entry, close_session, follow_zone, stop_entry, follow_stop, settle_stop, update_official,
  update_local,
}

length-keep_first {ℓ} : {A : Type ℓ} (n : ℕ) (xs : List A) → length (keep_first n xs) ≤ n
unfolding keep_first
length-keep_first n [] = omega arith
length-keep_first zero (x ∷ xs) = omega arith
length-keep_first (suc n) (x ∷ xs) = omega (arith, length-keep_first n xs)

module _ ⦃api : FloatApi⦄ where
  -- The history is bounded, a session is open exactly while the car was last seen in the zone, and
  -- the two flags for a full stop agree.
  pub record Tracked (entry : RuntimePitState) : Type 0 where
    pub bounded : length entry.history ≤ pit_history_max_entries
    pub session : entry.was_in_fix_zone ≡ is_some entry.active_fix_session
    pub stopped : entry.in_stationary_fix ≡ entry.was_fix_stationary_full_pit

  -- The parts of the state that a full stop does not touch.
  abbrev Same : RuntimePitState → RuntimePitState → Type 0
  Same s t =
      (t.history ≡ s.history)
      × (t.active_fix_session ≡ s.active_fix_session)
      × (t.was_in_fix_zone ≡ s.was_in_fix_zone)
      × (t.pit_request_active ≡ s.pit_request_active)
      × (t.emergency_intent_pending ≡ s.emergency_intent_pending)
      × (t.last_pit_time_ms ≡ s.last_pit_time_ms)

  settle-Same :
      (vehicle : VehicleState) (entry : RuntimePitState) → Same entry (settle_stop vehicle entry)
  unfolding settle_stop
  settle-Same vehicle entry = ground arith

  settle-stopped :
      (vehicle : VehicleState) (entry : RuntimePitState)
      → let t = settle_stop vehicle entry in
        (t.in_stationary_fix ≡ t.was_fix_stationary_full_pit)
        × (t.was_fix_stationary_full_pit ≡ completed_pit vehicle)
  unfolding settle_stop
  settle-stopped vehicle entry = ground arith

  close-bounded :
      (vehicle : VehicleState) (bot_slot now_ms : ℕ) (session : Option RuntimeActiveFixSession)
      (entry : RuntimePitState)
      → length entry.history ≤ pit_history_max_entries
      → length (close_session vehicle bot_slot now_ms session entry).history
        ≤ pit_history_max_entries
  unfolding close_session push_history
  close-bounded vehicle bot_slot now_ms none entry h = h
  close-bounded vehicle bot_slot now_ms (some session) entry h =
      length-keep_first 32 (session_entry vehicle bot_slot session ∷ entry.history)

  enter-history :
      (vehicle : VehicleState) (laps : Option ℕ) (bot_slot now_ms : ℕ) (entry : RuntimePitState)
      → (enter_fix_zone vehicle laps bot_slot now_ms entry).history ≡ entry.history
  unfolding enter_fix_zone
  enter-history vehicle laps bot_slot now_ms entry = refl

  zone-bounded :
      (vehicle : VehicleState) (laps : Option ℕ) (bot_slot now_ms : ℕ) (entry : RuntimePitState)
      → length entry.history ≤ pit_history_max_entries
      → length (follow_zone vehicle laps bot_slot now_ms entry).history ≤ pit_history_max_entries
  unfolding follow_zone
  zone-bounded vehicle laps bot_slot now_ms entry h = ground (
    arith,
    h,
    close-bounded vehicle bot_slot now_ms entry.active_fix_session entry h,
    enter-history vehicle laps bot_slot now_ms entry,
  )

  zone-open :
      (vehicle : VehicleState) (laps : Option ℕ) (bot_slot now_ms : ℕ) (entry : RuntimePitState)
      → entry.was_in_fix_zone ≡ is_some entry.active_fix_session
      → let t = follow_zone vehicle laps bot_slot now_ms entry in
        t.was_in_fix_zone ≡ is_some t.active_fix_session
  unfolding follow_zone enter_fix_zone close_session push_history
  zone-open vehicle laps bot_slot now_ms entry h = ground (arith, h)

  stop-bounded :
      (vehicle : VehicleState) (laps : Option ℕ) (now_ms : ℕ) (entry : RuntimePitState)
      → length entry.history ≤ pit_history_max_entries
      → length (follow_stop vehicle laps now_ms entry).history ≤ pit_history_max_entries
  unfolding follow_stop push_history
  stop-bounded vehicle laps now_ms entry h =
      ground (arith, h, length-keep_first 32 (stop_entry vehicle laps now_ms entry ∷ entry.history))

  stop-session :
      (vehicle : VehicleState) (laps : Option ℕ) (now_ms : ℕ) (entry : RuntimePitState)
      → let t = follow_stop vehicle laps now_ms entry in
        (t.was_in_fix_zone ≡ entry.was_in_fix_zone)
        × (t.active_fix_session ≡ entry.active_fix_session)
  unfolding follow_stop push_history
  stop-session vehicle laps now_ms entry = ground arith

  settle-Tracked :
      (vehicle : VehicleState) (entry : RuntimePitState)
      → length entry.history ≤ pit_history_max_entries
      → entry.was_in_fix_zone ≡ is_some entry.active_fix_session
      → Tracked (settle_stop vehicle entry)
  settle-Tracked vehicle entry h o =
      let same = settle-Same vehicle entry in
      record {
        bounded = subst (λ x. length x ≤ pit_history_max_entries) (sym same.0) h;
        session = same.2 ∙ o ∙ ap is_some (sym same.1);
        stopped = (settle-stopped vehicle entry).0;
      }

  -- Both builds of the update keep the history within 32 entries, a session open exactly while the
  -- car was last seen in the fix zone, and the two flags for a full stop in agreement.
  pub update-Tracked :
      (vehicle : VehicleState) (laps : Option ℕ) (bot_slot now_ms : ℕ) (entry : RuntimePitState)
      → Tracked entry
      → Tracked (update_official vehicle laps bot_slot now_ms entry)
        × Tracked (update_local vehicle laps now_ms entry)
  unfolding update_official update_local
  update-Tracked vehicle laps bot_slot now_ms entry t =
      let kept = stop-session vehicle laps now_ms entry in
      (
        settle-Tracked vehicle (follow_zone vehicle laps bot_slot now_ms entry)
            (zone-bounded vehicle laps bot_slot now_ms entry t.bounded)
            (zone-open vehicle laps bot_slot now_ms entry t.session),
        settle-Tracked vehicle (follow_stop vehicle laps now_ms entry)
            (stop-bounded vehicle laps now_ms entry t.bounded)
            (kept.0 ∙ t.session ∙ ap is_some (sym kept.1)),
      )

  pub default-Tracked : Tracked default_pit_state
  unfolding default_pit_state
  default-Tracked = record { bounded = omega arith; session = refl; stopped = refl }
