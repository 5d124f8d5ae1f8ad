-- ===== src/Race/PitStops.antt =====
-- What one full stop leaves in the history of game-server/src/services/race/runtime_store.rs in the
-- builds that are not official.
use hack_arena3_0_backend.Common.{◌≡◌, true, false, List, [], ◌∷◌, arith, All}
use hack_arena3_0_backend.Race.PitState.{FloatApi, RuntimePitHistoryEntry, RuntimePitState}
use hack_arena3_0_backend.Race.PitUpdate.{
  pit_history_max_entries, keep_first, stop_entry, follow_stop, push_history, settle_stop,
  update_local,
}
use hack_arena3_0_backend.Race.PitHistory.{Frame, local, locals, Stopped}

module _ ⦃api : FloatApi⦄ where
  -- A car that was last seen at a full stop, with a history.
  record Standing (history : List RuntimePitHistoryEntry) (entry : RuntimePitState) : Type 0 where
    standing : entry.was_fix_stationary_full_pit ≡ true
    past : entry.history ≡ history

  first_stop :
      (f : Frame) (entry : RuntimePitState)
      → entry.was_fix_stationary_full_pit ≡ false
      → Stopped f
      → Standing
          (keep_first pit_history_max_entries
            (stop_entry f.vehicle f.laps f.now_ms entry ∷ entry.history))
          (local f entry)
  unfolding update_local follow_stop settle_stop push_history
  first_stop f entry o h = record { standing = ground (arith, o, h); past = ground (arith, o, h) }

  still-Standing :
      (history : List RuntimePitHistoryEntry) (fs : List Frame) (entry : RuntimePitState)
      → All Stopped fs
      → Standing history entry
      → Standing history (locals fs entry)
  unfolding update_local follow_stop settle_stop
  still-Standing history [] entry a s = s
  still-Standing history (f ∷ fs) entry a s =
      still-Standing history fs (local f entry) a.1 (record {
        standing = ground (arith, a.0, s.standing);
        past = ground (arith, a.0, s.standing, s.past);
      })

  -- In the other builds a full stop, over any number of frames, puts exactly one entry in front of
  -- the history, that of its first frame.
  pub stop-once :
      (f : Frame) (fs : List Frame) (entry : RuntimePitState)
      → entry.was_fix_stationary_full_pit ≡ false
      → Stopped f
      → All Stopped fs
      → (locals fs (local f entry)).history
        ≡ keep_first pit_history_max_entries
            (stop_entry f.vehicle f.laps f.now_ms entry ∷ entry.history)
  stop-once f fs entry o h a = (still-Standing _ fs (local f entry) a (first_stop f entry o h)).past
