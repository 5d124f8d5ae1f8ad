-- ===== src/Domain/WindowSums.antt =====
-- The loop of game-server/src/domain/weather.rs over a window adds up what holds at its
-- milliseconds.
use native.Mathlib.Nat
use hack_arena3_0_backend.Common.Int.{ℤ, pos, pos_part, neg_part, ◌+ℤ◌, ltb_ℤ, +ℤ_parts, i64_max}
use hack_arena3_0_backend.Common.{
  ℕ, zero, suc, ◌+◌, ◌-◌, ◌*◌, ◌≤◌, ◌<◌, ◌≡◌, refl, sym, subst, ap, ◌∙◌, true, false, List, [], ◌∷◌,
  arith, inl, inr, Bool-cases, All,
}
use hack_arena3_0_backend.Domain.Weather.{ScheduleEntry, sweep}
use hack_arena3_0_backend.Domain.Windows.{
  sum_to, sum_to-add, sum_to_same, sum_to_const, Later, value_at, gap_end, far, early, late,
  sweep_none, sweep_nil, sweep_last, sweep_on,
}

-- Visiting a segment of n milliseconds adds n times the weight of its value, at most `most` a
-- millisecond, as long as the sum is an i64. `R acc s` says that s stands for the sum acc.
pub record Weighs {S V : Type 0} (visit : V → ℤ → ℤ → S → S) (w : V → ℕ) (most : ℕ) (Q : V → Type 0)
    (R : ℕ → S → Type 0) : Type 0 where
  pub bounded : (v : V) → Q v → w v ≤ most
  pub step :
      (v : V) (a : ℤ) (n acc : ℕ) (s : S)
      → Q v
      → n ≤ i64_max
      → acc + w v * n ≤ i64_max
      → R acc s
      → R (acc + w v * n) (visit v a (a +ℤ pos n) s)

stays : (a : ℤ) → ltb_ℤ a (a +ℤ pos 0) ≡ false
stays a = ground (arith, +ℤ_parts a (pos 0))

moves : (a : ℤ) (n : ℕ) → ltb_ℤ a (a +ℤ pos (suc n)) ≡ true
moves a n = ground (arith, +ℤ_parts a (pos (suc n)))

inside : (a b : ℤ) (n i : ℕ) → i < n → ltb_ℤ b (a +ℤ pos n) ≡ false → ltb_ℤ (a +ℤ pos i) b ≡ true
inside a b n i k h = ground (arith, h, +ℤ_parts a (pos n), +ℤ_parts a (pos i))

-- How far the one lies behind the other.
abbrev gap : ℤ → ℤ → ℕ
gap a b = pos_part b + neg_part a - (pos_part a + neg_part b)

reached : (a b : ℤ) → ltb_ℤ a b ≡ true → b ≡ a +ℤ pos (gap a b)
reached a b h = gap_end a b (ground (arith, h))

before : (a b : ℤ) (d i : ℕ) → b ≡ a +ℤ pos d → i < d → ltb_ℤ (a +ℤ pos i) b ≡ true
before a b d i e k = ground (arith, e, +ℤ_parts a (pos d), +ℤ_parts a (pos i))

after : (a b : ℤ) (d i : ℕ) → b ≡ a +ℤ pos d → ltb_ℤ (a +ℤ pos (d + i)) b ≡ false
after a b d i e = ground (arith, e, +ℤ_parts a (pos d), +ℤ_parts a (pos (d + i)))

moved : (a b : ℤ) (d i : ℕ) → b ≡ a +ℤ pos d → a +ℤ pos (d + i) ≡ b +ℤ pos i
moved a b d i e = sym (far a d i) ∙ ap (λ t. t +ℤ pos i) (sym e)

-- Room for the weights of the first d and of the other m milliseconds.
room :
    (most d m n c acc : ℕ)
    → d + m ≡ n
    → c ≤ most
    → acc + most * n ≤ i64_max
    → (acc + most * d ≤ i64_max) × (acc + c * d + most * m ≤ i64_max)
room most d m n c acc e h b =
    let whole : most * n ≡ most * d + most * m =
      ap (λ k. most * k) (sym e) ∙ Nat.mul-add most d m in
    let part = Nat.mul-le-mul_right d h in (omega (arith, whole, b), omega (arith, whole, b, part))

two_parts :
    (d m n acc : ℕ) (g h : ℕ → ℕ)
    → d + m ≡ n
    → ((i : ℕ) → i < m → g (d + i) ≡ h i)
    → acc + sum_to d g + sum_to m h ≡ acc + sum_to n g
two_parts d m n acc g h e same =
    let whole = ap (λ k. sum_to k g) (sym e) ∙ sum_to-add d m g in
    omega (arith, whole, sum_to_same m (λ i. g (d + i)) h same)

split_within : (a : ℤ) (n d : ℕ) → ltb_ℤ (a +ℤ pos d) (a +ℤ pos n) ≡ true → d ≤ n
split_within a n d h = ground (arith, h, +ℤ_parts a (pos n), +ℤ_parts a (pos d))

sum_zero : (acc : ℕ) (g : ℕ → ℕ) → acc + sum_to 0 g ≡ acc
unfolding sum_to
sum_zero acc g = omega arith

module _ {S V : Type 0} (value : ScheduleEntry → V) (visit : V → ℤ → ℤ → S → S) (w : V → ℕ)
    (most : ℕ) (Q : V → Type 0) (R : ℕ → S → Type 0) (law : Weighs visit w most Q R) where
  -- The weights of the milliseconds behind the cursor.
  abbrev weights : V → List ScheduleEntry → ℤ → ℕ → ℕ
  weights v entries cursor i = w (value_at value v entries (cursor +ℤ pos i))

  -- One segment.
  segment :
      (v : V) (cursor : ℤ) (n acc : ℕ) (s : S) (g : ℕ → ℕ)
      → Q v
      → n ≤ i64_max
      → acc + most * n ≤ i64_max
      → ((i : ℕ) → i < n → g i ≡ w v)
      → R acc s
      → R (acc + sum_to n g) (visit v cursor (cursor +ℤ pos n) s)
  segment v cursor n acc s g q l b e r =
      rw (sum_to_const n (w v) g e) (
        law.step v cursor n acc s q l (omega (arith, b, Nat.mul-le-mul_right n (law.bounded v q)))
          r)

  -- Up to an entry the value is the current one, and from there on that of the entry.
  weights-before :
      (entry : ScheduleEntry) (entries : List ScheduleEntry) (v : V) (cursor : ℤ) (d : ℕ)
      → entry.starts_at_ms ≡ cursor +ℤ pos d
      → (i : ℕ) → i < d
      → weights v (entry ∷ entries) cursor i ≡ w v
  weights-before entry entries v cursor d at i k =
      ap w
        (early value v entry entries (cursor +ℤ pos i) (before cursor entry.starts_at_ms d i at k))

  weights-after :
      (entry : ScheduleEntry) (entries : List ScheduleEntry) (v : V) (cursor : ℤ) (d m : ℕ)
      → entry.starts_at_ms ≡ cursor +ℤ pos d
      → (i : ℕ) → i < m
      → weights v (entry ∷ entries) cursor (d + i)
        ≡ weights (value entry) entries entry.starts_at_ms i
  weights-after entry entries v cursor d m at i k = ap w (
      late value v entry entries (cursor +ℤ pos (d + i)) (after cursor entry.starts_at_ms d i at)
      ∙ ap (value_at value (value entry) entries) (moved cursor entry.starts_at_ms d i at))

  -- The sum of the rest, counted from the entry on, is that of the whole.
  joined_parts :
      (entry : ScheduleEntry) (entries : List ScheduleEntry) (cursor : ℤ) (d m n : ℕ) (s : S)
      → entry.starts_at_ms ≡ cursor +ℤ pos d
      → d + m ≡ n
      → (a b : ℕ) → a ≡ b
      → R a (
          sweep value visit
            (entry.starts_at_ms +ℤ pos m)
            entries
            entry.starts_at_ms
            (value entry)
            s)
      → R b (sweep value visit (cursor +ℤ pos n) entries entry.starts_at_ms (value entry) s)
  joined_parts entry entries cursor d m n s at total a b same r =
      subst (λ t. R b (sweep value visit t entries entry.starts_at_ms (value entry) s))
        (sym (moved cursor entry.starts_at_ms d m at) ∙ ap (λ k. cursor +ℤ pos k) total)
        (subst
          (λ x. R x (
            sweep value visit (entry.starts_at_ms +ℤ pos m) entries entry.starts_at_ms (value entry)
              s))
          same r)

  pub sweep-sum :
      (entries : List ScheduleEntry) (v : V) (cursor : ℤ) (n acc : ℕ) (s : S)
      → Later cursor entries
      → Q v
      → All (λ entry. Q (value entry)) entries
      → n ≤ i64_max
      → acc + most * n ≤ i64_max
      → R acc s
      → R
          (acc + sum_to n (weights v entries cursor))
          (sweep value visit (cursor +ℤ pos n) entries cursor v s)
  unfolding value_at
  sweep-sum entries v cursor zero acc s later q a l b r =
      rw
        (sweep_none value visit (cursor +ℤ pos 0) entries cursor v s (stays cursor), sum_zero acc _)
        r
  sweep-sum [] v cursor (suc n) acc s later q a l b r =
      rw (sweep_nil value visit (cursor +ℤ pos (suc n)) cursor v s (moves cursor n))
        (segment v cursor (suc n) acc s (weights v [] cursor) q l b (λ i k. refl) r)
  sweep-sum (entry ∷ entries) v cursor (suc n) acc s later q a l b r =
      elim (Bool-cases (ltb_ℤ entry.starts_at_ms (cursor +ℤ pos (suc n)))) [
        | inr h ↦
            rw
              (sweep_last value visit (cursor +ℤ pos (suc n)) entry entries cursor v s
                (moves cursor n) h)
              (segment v cursor (suc n) acc s (weights v (entry ∷ entries) cursor) q l b
                (λ i k. ap w (
                  early value v entry entries (cursor +ℤ pos i)
                    (inside cursor entry.starts_at_ms (suc n) i k h)))
                r)
        | inl h ↦
            let d = gap cursor entry.starts_at_ms in
            let m = suc n - d in
            let at : entry.starts_at_ms ≡ cursor +ℤ pos d =
              reached cursor entry.starts_at_ms later.0 in
            let within : d ≤ suc n =
              split_within cursor (suc n) d
                (subst (λ t. ltb_ℤ t (cursor +ℤ pos (suc n)) ≡ true) at h) in
            let total : d + m ≡ suc n = omega (arith, within) in
            let weight = weights v (entry ∷ entries) cursor in
            let same = weights-before entry entries v cursor d at in
            let onward = weights-after entry entries v cursor d m at in
            let bound = room most d m (suc n) (w v) acc total (law.bounded v q) b in
            let first : R (acc + sum_to d weight) (visit v cursor entry.starts_at_ms s) =
              subst (λ t. R (acc + sum_to d weight) (visit v cursor t s)) (sym at)
                (segment v cursor d acc s weight q (omega (arith, within, l)) bound.0 same r) in
            let rest =
              sweep-sum entries (value entry) entry.starts_at_ms m (acc + sum_to d weight) _ later.1
                a.0 a.1 (omega (arith, total, l))
                (subst (λ x. acc + x + most * m ≤ i64_max) (sym (sum_to_const d (w v) weight same))
                  bound.1)
                first in
            rw (sweep_on value visit (cursor +ℤ pos (suc n)) entry entries cursor v s later.0 h) (
              joined_parts entry entries cursor d m (suc n) _ at total _ _
                (two_parts d m (suc n) acc weight (weights (value entry) entries entry.starts_at_ms)
                  total onward)
                rest)
      ]
