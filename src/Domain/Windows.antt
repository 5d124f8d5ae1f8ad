-- ===== src/Domain/Windows.antt =====
-- The loops of game-server/src/domain/weather.rs over a window, against sums over its milliseconds.
use native.Mathlib.Numerals.{unary_clauses}
use hack_arena3_0_backend.Common.Int.{
  ℤ, pos, pos_part, neg_part, ◌+ℤ◌, ltb_ℤ, min_ℤ, ◌≤ℤ◌, int_laws, eq_of_parts,
}
use hack_arena3_0_backend.Common.{
  ℕ, zero, suc, ◌+◌, ◌-◌, ◌*◌, ◌<◌, ◌≡◌, refl, true, false, List, [], ◌∷◌, arith, if◌then◌else◌,
}
use hack_arena3_0_backend.Domain.Weather.{ScheduleEntry, sweep, has_started}

-- The sum over the offsets below n.
unfoldable pub sum_to : ℕ → (ℕ → ℕ) → ℕ
sum_to zero g = 0
sum_to (suc n) g = sum_to n g + g n

pub sum_to-add : (n m : ℕ) (g : ℕ → ℕ) → sum_to (n + m) g ≡ sum_to n g + sum_to m (λ i. g (n + i))
unfolding sum_to
sum_to-add n zero g = simp unary_clauses refl
sum_to-add n (suc m) g = simp unary_clauses (omega (arith, sum_to-add n m g))

pub sum_to_same : (n : ℕ) (g h : ℕ → ℕ) → ((i : ℕ) → i < n → g i ≡ h i) → sum_to n g ≡ sum_to n h
unfolding sum_to
sum_to_same zero g h e = refl
sum_to_same (suc n) g h e =
    omega (arith, sum_to_same n g h (λ i l. e i (omega arith)), e n (omega arith))

pub sum_to_const : (n c : ℕ) (g : ℕ → ℕ) → ((i : ℕ) → i < n → g i ≡ c) → sum_to n g ≡ c * n
unfolding sum_to
sum_to_const zero c g e = simp unary_clauses refl
sum_to_const (suc n) c g e =
    simp unary_clauses
      (omega (arith, sum_to_const n c g (λ i l. e i (omega arith)), e n (omega arith)))

-- The entries lie strictly after a time, in strictly increasing order.
abbrev pub Later : ℤ → List ScheduleEntry → Type 0
Later time_ms [] = Unit
Later time_ms (entry ∷ entries) =
    (ltb_ℤ time_ms entry.starts_at_ms ≡ true) × Later entry.starts_at_ms entries

-- In strictly increasing order.
abbrev pub Sorted : List ScheduleEntry → Type 0
Sorted [] = Unit
Sorted (entry ∷ entries) = Later entry.starts_at_ms entries

-- The value that holds at a time when `current` holds before the entries.
unfoldable pub value_at : {V : Type 0} → (ScheduleEntry → V) → V → List ScheduleEntry → ℤ → V
value_at value current [] time_ms = current
value_at value current (entry ∷ entries) time_ms =
    let later = value_at value (value entry) entries time_ms in
    if has_started entry time_ms then later else current

pub gap_end :
    (a b : ℤ) → a ≤ℤ b → b ≡ a +ℤ pos (pos_part b + neg_part a - (pos_part a + neg_part b))
gap_end a b h = omega int_laws

pub far : (a : ℤ) (d i : ℕ) → a +ℤ pos d +ℤ pos i ≡ a +ℤ pos (d + i)
far a d i = omega int_laws

pub min_last : (a b : ℤ) → ltb_ℤ a b ≡ false → min_ℤ a b ≡ b
min_last a b h = ground (arith, h, eq_of_parts a b)

pub min_first : (a b : ℤ) → ltb_ℤ a b ≡ true → min_ℤ a b ≡ a
min_first a b h = ground (arith, h)

pub ltb_self : (a : ℤ) → ltb_ℤ a a ≡ false
ltb_self a = ground arith

pub ltb_trans : (a b c : ℤ) → ltb_ℤ a b ≡ true → ltb_ℤ b c ≡ true → ltb_ℤ a c ≡ true
ltb_trans a b c h k = ground (arith, h, k)

module _ {V : Type 0} (value : ScheduleEntry → V) where
  pub early :
      (v : V) (entry : ScheduleEntry) (entries : List ScheduleEntry) (t : ℤ)
      → ltb_ℤ t entry.starts_at_ms ≡ true
      → value_at value v (entry ∷ entries) t ≡ v
  unfolding value_at
  early v entry entries t h = ground (arith, h)

  pub late :
      (v : V) (entry : ScheduleEntry) (entries : List ScheduleEntry) (t : ℤ)
      → ltb_ℤ t entry.starts_at_ms ≡ false
      → value_at value v (entry ∷ entries) t ≡ value_at value (value entry) entries t
  unfolding value_at
  late v entry entries t h = ground (arith, h)

module _ {S V : Type 0} (value : ScheduleEntry → V) (visit : V → ℤ → ℤ → S → S) where
  pub sweep_none :
      (end_ms : ℤ) (entries : List ScheduleEntry) (cursor : ℤ) (v : V) (s : S)
      → ltb_ℤ cursor end_ms ≡ false
      → sweep value visit end_ms entries cursor v s ≡ s
  unfolding sweep
  sweep_none end_ms [] cursor v s h = ground (arith, h)
  sweep_none end_ms (entry ∷ entries) cursor v s h = ground (arith, h)

  pub sweep_nil :
      (end_ms cursor : ℤ) (v : V) (s : S)
      → ltb_ℤ cursor end_ms ≡ true
      → sweep value visit end_ms [] cursor v s ≡ visit v cursor end_ms s
  unfolding sweep
  sweep_nil end_ms cursor v s h = ground (arith, h)

  pub sweep_last :
      (end_ms : ℤ) (entry : ScheduleEntry) (entries : List ScheduleEntry) (cursor : ℤ) (v : V)
      (s : S)
      → ltb_ℤ cursor end_ms ≡ true
      → ltb_ℤ entry.starts_at_ms end_ms ≡ false
      → sweep value visit end_ms (entry ∷ entries) cursor v s ≡ visit v cursor end_ms s
  unfolding sweep
  sweep_last end_ms entry entries cursor v s h l =
      rw (min_last entry.starts_at_ms end_ms l) (simp (h, ltb_self end_ms) refl)

  pub sweep_on :
      (end_ms : ℤ) (entry : ScheduleEntry) (entries : List ScheduleEntry) (cursor : ℤ) (v : V)
      (s : S)
      → ltb_ℤ cursor entry.starts_at_ms ≡ true
      → ltb_ℤ entry.starts_at_ms end_ms ≡ true
      → sweep value visit end_ms (entry ∷ entries) cursor v s
        ≡ sweep value visit end_ms entries entry.starts_at_ms
            (value entry)
            (visit v cursor entry.starts_at_ms s)
  unfolding sweep
  sweep_on end_ms entry entries cursor v s h l =
      rw (min_first entry.starts_at_ms end_ms l)
        (simp (h, l, ltb_trans cursor entry.starts_at_ms end_ms h l) refl)
