-- ===== src/Local/Moments.antt =====
-- When a time of game-server/src/local/local_race_state.rs has come.
use hack_arena3_0_backend.Common.Int.{ℤ, pos, negsuc}
use hack_arena3_0_backend.Common.{
  ℕ, ◌+◌, ◌*◌, ◌/◌, ◌≤◌, ◌<◌, ◌≡◌, ◌↔◌, refl, true, Option, none, some, arith, u64_max,
}
use hack_arena3_0_backend.Local.RaceState.{RaceApi, Timestamp, timestamp_ms, has_come}

-- There is a time, neither of its numbers is negative, and it is at most `now_ms` milliseconds, its
-- last one not counted in part.
abbrev pub Past : Option Timestamp → ℕ → Type 0
Past none now_ms = ⊥
Past (some t) now_ms =
    (seconds nanos : ℕ) × (t.seconds ≡ pos seconds)
    × (t.nanos ≡ pos nanos)
    × (seconds * 1000 + nanos / 1000000 ≤ now_ms)

module _ ⦃api : RaceApi⦄ where
  some_iff :
      (seconds nanos : ℤ) (now_ms : ℕ)
      → now_ms < u64_max
      → let value : Option Timestamp = some (record { seconds = seconds; nanos = nanos }) in
        (has_come value now_ms ≡ true) ↔ Past value now_ms
  unfolding has_come timestamp_ms
  some_iff (pos s) (pos n) now_ms h =
      ((λ c. (s, n, refl, refl, ground (arith, c, h))), (λ p. ground (arith, p.2, p.3, p.4, h)))
  some_iff (pos s) (negsuc n) now_ms h = (λ c. ground (arith, c), λ p. ground (arith, p.3))
  some_iff (negsuc s) y now_ms h = (λ c. ground (arith, c), λ p. ground (arith, p.2))

  -- Below the bound of u64, the test holds exactly of the times that have come.
  pub has_come_iff :
      (value : Option Timestamp) (now_ms : ℕ)
      → now_ms < u64_max
      → (has_come value now_ms ≡ true) ↔ Past value now_ms
  unfolding has_come timestamp_ms
  has_come_iff none now_ms h = (λ c. ground (arith, c), λ p. elim p [ ])
  has_come_iff (some t) now_ms h = some_iff t.seconds t.nanos now_ms h
