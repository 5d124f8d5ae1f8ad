-- ===== src/Domain/WindowWeather.antt =====
-- What game-server/src/domain/weather.rs computes for a window: the rain, the temperature and the
-- weather type that holds longest, against the weather at its milliseconds.
use hack_arena3_0_backend.Common.Int.{
  ℤ, pos, ◌+ℤ◌, ◌-ℤ◌, ltb_ℤ, int_laws, +ℤ_parts, i64_max, wrap_i64, wrap_i64_small,
}
use hack_arena3_0_backend.Common.{
  ℕ, ◌+◌, ◌*◌, ◌≤◌, ◌≡◌, refl, subst, ap, ◌∙◌, true, false, List, [], ◌∷◌, Option, none, some,
  arith, inl, inr, Bool-cases, All,
}
use hack_arena3_0_backend.Domain.Weather.{
  ScheduleEntry, split_at_time, weather_at, sweep, has_started,
}
use hack_arena3_0_backend.Domain.Windows.{sum_to, Later, Sorted, value_at, sum_to_same}
use hack_arena3_0_backend.Domain.WindowSums.{Weighs, sweep-sum}

pub Later-Sorted : (t : ℤ) (entries : List ScheduleEntry) → Later t entries → Sorted entries
Later-Sorted t [] l = tt
Later-Sorted t (entry ∷ entries) l = l.1

pub split-Later :
    (start_ms : ℤ) (last : Option ScheduleEntry) (entries : List ScheduleEntry)
    → Sorted entries
    → Later start_ms (split_at_time start_ms last entries).1
unfolding split_at_time
split-Later start_ms last [] s = tt
split-Later start_ms last (entry ∷ entries) s = ground (
  arith,
  s,
  split-Later start_ms (some entry) entries (Later-Sorted entry.starts_at_ms entries s),
)

pub split-All :
    (P : ScheduleEntry → Type 0) (start_ms : ℤ) (last : Option ScheduleEntry)
    (entries : List ScheduleEntry)
    → All P entries
    → All P (split_at_time start_ms last entries).1
unfolding split_at_time
split-All P start_ms last [] a = tt
split-All P start_ms last (entry ∷ entries) a =
    ground (arith, a, split-All P start_ms (some entry) entries a.1)

still :
    (entry : ScheduleEntry) (s t : ℤ)
    → ltb_ℤ t s ≡ false
    → has_started entry s ≡ true
    → has_started entry t ≡ true
still entry s t h k = ground (arith, h, k)

module _ {V : Type 0} (value : ScheduleEntry → V) (of : Option ScheduleEntry → V)
    (agree : (entry : ScheduleEntry) → of (some entry) ≡ value entry) where
  -- The value that holds after the last entry that has started.
  last_started :
      (last : Option ScheduleEntry) (entries : List ScheduleEntry) (t : ℤ)
      → value_at value (of last) entries t ≡ of (split_at_time t last entries).0
  unfolding split_at_time value_at
  last_started last [] t = refl
  last_started last (entry ∷ entries) t = ground (
    arith,
    ap (λ v. value_at value v entries t) (agree entry),
    last_started (some entry) entries t,
  )

  pub resumed :
      (start_ms : ℤ) (last : Option ScheduleEntry) (entries : List ScheduleEntry) (t : ℤ)
      → ltb_ℤ t start_ms ≡ false
      → let rest = split_at_time start_ms last entries in
        value_at value (of rest.0) rest.1 t ≡ of (split_at_time t last entries).0
  unfolding split_at_time
  resumed start_ms last [] t h = last_started last [] t
  resumed start_ms last (entry ∷ entries) t h = elim (Bool-cases (has_started entry start_ms)) [
    | inl started ↦
        rw (started, still entry start_ms t h started) (resumed start_ms (some entry) entries t h)
    | inr coming ↦ rw coming (last_started last (entry ∷ entries) t)
  ]

pub elapsed : (a : ℤ) (n : ℕ) → n ≤ i64_max → wrap_i64 (a +ℤ pos n -ℤ a) ≡ pos n
elapsed a n h =
    let e : a +ℤ pos n -ℤ a ≡ pos n = omega int_laws in ap wrap_i64 e ∙ wrap_i64_small n h

pub grown : (acc n : ℕ) → acc + n ≤ i64_max → wrap_i64 (pos acc +ℤ pos n) ≡ pos (acc + n)
grown acc n h =
    let e : pos acc +ℤ pos n ≡ pos (acc + n) = omega int_laws in
    ap wrap_i64 e ∙ wrap_i64_small (acc + n) h

zero_sum : (n : ℕ) → 0 + n ≡ n
zero_sum n = omega arith

not_before : (a : ℤ) (i : ℕ) → ltb_ℤ (a +ℤ pos i) a ≡ false
not_before a i = ground (arith, +ℤ_parts a (pos i))

-- What adds up over the milliseconds of a window: `weight` of the entry that holds at each.
abbrev pub over_window : (Option ScheduleEntry → ℕ) → List ScheduleEntry → ℤ → ℕ → ℕ
over_window weight entries start_ms n =
    sum_to n (λ i. weight (weather_at entries (start_ms +ℤ pos i)))

module _ {S V : Type 0} (value : ScheduleEntry → V) (of : Option ScheduleEntry → V)
    (agree : (entry : ScheduleEntry) → of (some entry) ≡ value entry) (visit : V → ℤ → ℤ → S → S)
    (w : V → ℕ) (most : ℕ) (Q : V → Type 0) (R : ℕ → S → Type 0)
    (law : Weighs visit w most Q R) where
  -- The loop from the start of the window.
  pub window-sum :
      (entries : List ScheduleEntry) (start_ms : ℤ) (n : ℕ) (s : S)
      → Sorted entries
      → Q (of (split_at_time start_ms none entries).0)
      → All (λ entry. Q (value entry)) entries
      → n ≤ i64_max
      → most * n ≤ i64_max
      → R 0 s
      → let rest = split_at_time start_ms none entries in
        R
          (over_window (λ found. w (of found)) entries start_ms n)
          (sweep value visit (start_ms +ℤ pos n) rest.1 start_ms (of rest.0) s)
  unfolding weather_at
  window-sum entries start_ms n s sorted q a l b r =
      let rest = split_at_time start_ms none entries in
      let swept =
        sweep-sum value visit w most Q R law rest.1 (of rest.0) start_ms n 0 s
          (split-Later start_ms none entries sorted) q
          (split-All (λ entry. Q (value entry)) start_ms none entries a) l (omega (arith, b)) r in
      subst (λ k. R k (sweep value visit (start_ms +ℤ pos n) rest.1 start_ms (of rest.0) s))
        (zero_sum _
          ∙ sum_to_same n _ _ (λ i k. ap w (
              resumed value of agree start_ms none entries (start_ms +ℤ pos i)
                (not_before start_ms i))))
        swept
