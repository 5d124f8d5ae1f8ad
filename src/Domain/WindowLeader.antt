-- ===== src/Domain/WindowLeader.antt =====
-- The weather type that game-server/src/domain/weather.rs finds dominant in a window.
use hack_arena3_0_backend.Common.Dict
use hack_arena3_0_backend.Common.Dict.{Dict, get-insert, insert-IsDict, IsDict, Absent, get-Absent}
use hack_arena3_0_backend.Common.Int.{ℤ, pos, ◌+ℤ◌, ◌-ℤ◌, ltb_ℤ, ◌≤ℤ◌, +ℤ_parts, i64_max, wrap_i64}
use hack_arena3_0_backend.Common.{
  ℕ, ◌+◌, ◌*◌, ◌≤◌, ◌<◌, ◌≡◌, ◌⊎◌, refl, sym, subst, ap, ◌∙◌, Bool, true, false, List, [], ◌∷◌,
  Option, none, some, arith, inl, inr, Bool-cases, Option-cases, if◌then◌else◌, is_empty,
}
use hack_arena3_0_backend.Domain.Weather.{
  WeatherType, ScheduleEntry, WeatherApi, type_or_unspecified,
}
use hack_arena3_0_backend.Domain.WeatherDominant.{
  same_type, same_type_iff, weather_type_eq, Stats, add_duration, stats_for_window, at_least,
  max_from, max_by_key, chosen_type, dominant_weather_type_for_window,
}
use hack_arena3_0_backend.Domain.Windows.{Sorted}
use hack_arena3_0_backend.Domain.WindowSums.{Weighs}
use hack_arena3_0_backend.Domain.WindowWeather.{elapsed, grown, over_window, window-sum}
use hack_arena3_0_backend.Domain.WindowTotals.{all_unit}
use mathlib.Core.Option.{get_or}

-- The time that the statistics have for a type.
abbrev held : Option (ℤ × ℤ) → ℤ
held none = pos 0
held (some (duration_ms, first_seen)) = duration_ms

abbrev one_if : Bool → ℕ
one_if b = if b then 1 else 0

-- 1 where the type holds and 0 elsewhere.
abbrev pub holds : WeatherType → Option ScheduleEntry → ℕ
holds u found = if same_type (type_or_unspecified found) u then 1 else 0

record Tracks (u : WeatherType) (acc : ℕ) (stats : Stats) : Type 0 where
  sum : held (Dict.get u stats) ≡ pos acc
  dict : IsDict stats

-- The entry of the visited type when it is updated.
held-default : (found : Option (ℤ × ℤ)) (cursor : ℤ) → (get_or found (pos 0, cursor)).0 ≡ held found
held-default none cursor = refl
held-default (some (d, f)) cursor = refl

-- What is stored for the visited type.
abbrev added : WeatherType → ℤ → ℕ → Stats → ℤ × ℤ
added v a n s = (
  wrap_i64 ((get_or (Dict.get v s) (pos 0, a)).0 +ℤ wrap_i64 (a +ℤ pos n -ℤ a)),
  (get_or (Dict.get v s) (pos 0, a)).1,
)

visit-sum :
    (u v : WeatherType) (a : ℤ) (n acc : ℕ) (s : Stats)
    → n ≤ i64_max
    → acc + one_if (same_type v u) * n ≤ i64_max
    → held (Dict.get u s) ≡ pos acc
    → held (Dict.get u (add_duration v a (a +ℤ pos n) s)) ≡ pos (acc + one_if (same_type v u) * n)
unfolding add_duration
visit-sum u v a n acc s l b r = elim (Bool-cases (same_type v u)) [
  | inl h ↦
      let same = (same_type_iff v u).0 h in
      let before : (get_or (Dict.get v s) (pos 0, a)).0 ≡ pos acc =
        held-default (Dict.get v s) a ∙ ap (λ t. held (Dict.get t s)) same ∙ r in
      let room : acc + n ≤ i64_max = ground (arith, h, b) in
      rw (get-insert v u (added v a n s) s, h, before, elapsed a n l, grown acc n room)
        (ap pos (omega arith))
  | inr h ↦ rw (get-insert v u (added v a n s) s, h, r) (ap pos (omega arith))
]

add_duration-Weighs :
    (u : WeatherType)
    → Weighs add_duration (λ v. one_if (same_type v u)) 1 (λ t. Unit {0}) (Tracks u)
unfolding add_duration
add_duration-Weighs u = record {
  bounded = λ v q. ground arith;
  step = λ v a n acc s q l b r. record {
    sum = visit-sum u v a n acc s l b r.sum;
    dict = insert-IsDict v _ s r.dict;
  };
}

-- The statistics hold, for every type, the number of milliseconds at which it holds.
stats-Tracks :
    (u : WeatherType) (entries : List ScheduleEntry) (start_ms : ℤ) (n : ℕ)
    → Sorted entries
    → n ≤ i64_max
    → Tracks u
        (over_window (holds u) entries start_ms n)
        (stats_for_window entries start_ms (start_ms +ℤ pos n))
unfolding stats_for_window Dict.get
stats-Tracks u entries start_ms n sorted l =
    window-sum (λ entry. entry.weather_type) type_or_unspecified (λ entry. refl) add_duration
      (λ v. one_if (same_type v u)) 1 (λ t. Unit {0}) (Tracks u) (add_duration-Weighs u) entries
      start_ms n [] sorted tt (all_unit entries) l (omega (arith, l))
      (record { sum = refl; dict = tt })

-- The entry of the first candidate of a dictionary, and that of another one.
head_found : (c : WeatherType × (ℤ × ℤ)) (cs : Stats) → Dict.get c.0 (c ∷ cs) ≡ some c.1
unfolding Dict.get
head_found c cs = ground (arith, same_type_iff c.0 c.0)

tail_found :
    (c : WeatherType × (ℤ × ℤ)) (cs : Stats) (u : WeatherType) (p : ℤ × ℤ)
    → IsDict (c ∷ cs)
    → Dict.get u cs ≡ some p
    → Dict.get u (c ∷ cs) ≡ some p
unfolding Dict.get
tail_found c cs u p d h = ground (arith, h, same_type_iff c.0 u, get-Absent c.0 cs d.0)

inner_found :
    (best c : WeatherType × (ℤ × ℤ)) (cs : Stats) (u : WeatherType) (p : ℤ × ℤ)
    → IsDict (best ∷ c ∷ cs)
    → Dict.get u (best ∷ cs) ≡ some p
    → Dict.get u (best ∷ c ∷ cs) ≡ some p
unfolding Dict.get
inner_found best c cs u p d h = ground (arith, h, tail_found c cs u p d.1)

tail_or_head :
    (c : WeatherType × (ℤ × ℤ)) (cs : Stats) (u : WeatherType) (p : ℤ × ℤ)
    → Dict.get u (c ∷ cs) ≡ some p
    → (c.1 ≡ p) ⊎ (Dict.get u cs ≡ some p)
unfolding Dict.get
tail_or_head c cs u p h = ground (arith, h)

opened : (start_ms : ℤ) (n : ℕ) → 0 < n → ltb_ℤ start_ms (start_ms +ℤ pos n) ≡ true
opened start_ms n p = ground (arith, p, +ℤ_parts start_ms (pos n))

module _ ⦃api : WeatherApi⦄ where
  pick : WeatherType × (ℤ × ℤ) → WeatherType × (ℤ × ℤ) → WeatherType × (ℤ × ℤ)
  pick c best = if at_least c best then c else best

  pick-Longer :
      (c best : WeatherType × (ℤ × ℤ))
      → (c.1.0 ≤ℤ (pick c best).1.0) × (best.1.0 ≤ℤ (pick c best).1.0)
  unfolding pick at_least
  pick-Longer c best = (ground arith, ground arith)

  -- The greatest candidate lasts as long as each.
  max-Longest :
      (best : WeatherType × (ℤ × ℤ)) (cs : Stats)
      → (best.1.0 ≤ℤ (max_from best cs).1.0)
        × ((u : WeatherType) (p : ℤ × ℤ) → Dict.get u cs ≡ some p → p.0 ≤ℤ (max_from best cs).1.0)
  unfolding max_from Dict.get pick
  max-Longest best [] = (omega arith, λ u p h. ground (arith, h))
  max-Longest best (c ∷ cs) =
      let longer = pick-Longer c best in
      let rest = max-Longest (pick c best) cs in
      (
        omega (arith, longer.1, rest.0),
        λ u p h. elim (Bool-cases (same_type c.0 u)) [
          | inl e ↦
              let here : c.1 ≡ p = ground (arith, e, h) in
              subst (λ q. q.0 ≤ℤ (max_from (pick c best) cs).1.0) here
                (omega (arith, longer.0, rest.0))
          | inr n ↦ rest.1 u p (ground (arith, n, h))
        ],
      )

  stepped :
      (best c : WeatherType × (ℤ × ℤ)) (cs : Stats) (b : Bool)
      → at_least c best ≡ b
      → max_from best (c ∷ cs) ≡ max_from (if b then c else best) cs
  unfolding max_from
  stepped best c cs b h = ap (λ b. max_from (if b then c else best) cs) h

  abbrev Among : WeatherType × (ℤ × ℤ) → Stats → WeatherType × (ℤ × ℤ) → Type 0
  Among best cs found = Dict.get found.0 (best ∷ cs) ≡ some found.1

  -- It is one of the list.
  max-Member :
      (best : WeatherType × (ℤ × ℤ)) (cs : Stats)
      → IsDict (best ∷ cs)
      → Among best cs (max_from best cs)
  unfolding max_from
  max-Member best [] d = head_found best []
  max-Member best (c ∷ cs) d = elim (Bool-cases (at_least c best)) [
    | inl h ↦
        subst (Among best (c ∷ cs)) (sym (stepped best c cs true h))
          (tail_found best (c ∷ cs) _ _ d (max-Member c cs d.1))
    | inr h ↦
        subst (Among best (c ∷ cs)) (sym (stepped best c cs false h))
          (inner_found best c cs _ _ d (max-Member best cs (d.0.1, d.1.1)))
  ]

  best_found :
      (stats : Stats) (best : WeatherType × (ℤ × ℤ))
      → IsDict stats
      → max_by_key stats ≡ some best
      → (Dict.get best.0 stats ≡ some best.1)
        × ((u : WeatherType) (p : ℤ × ℤ) → Dict.get u stats ≡ some p → p.0 ≤ℤ best.1.0)
  unfolding max_by_key
  best_found [] best d h = ground (arith, h)
  best_found (c ∷ cs) best d h =
      let top : max_from c cs ≡ best = ground (arith, h) in
      let longest = max-Longest c cs in
      subst
        (λ b.
          (Dict.get b.0 (c ∷ cs) ≡ some b.1)
          × ((u : WeatherType) (p : ℤ × ℤ) → Dict.get u (c ∷ cs) ≡ some p → p.0 ≤ℤ b.1.0))
        top
        (
          max-Member c cs d,
          λ u p e. elim (tail_or_head c cs u p e) [
            | inl same ↦ subst (λ q. q.0 ≤ℤ (max_from c cs).1.0) same longest.0
            | inr later ↦ longest.1 u p later
          ],
        )

  none_left : (stats : Stats) (u : WeatherType) → max_by_key stats ≡ none → Dict.get u stats ≡ none
  unfolding max_by_key Dict.get
  none_left [] u h = refl
  none_left (c ∷ cs) u h = ground (arith, h)

  pos_le : (a b : ℕ) → pos a ≤ℤ pos b → a ≤ b
  pos_le a b h = omega (arith, h)

  leads :
      (stats : Stats) (count : WeatherType → ℕ) (u : WeatherType)
      → ((t : WeatherType) → Tracks t (count t) stats)
      → count u ≤ count (chosen_type (max_by_key stats))
  unfolding chosen_type
  leads stats count u tracks = elim (Option-cases (Dict.get u stats)) [
    | inl absent ↦ ground (arith, absent, (tracks u).sum)
    | inr (p, there) ↦ elim (Option-cases (max_by_key stats)) [
      | inl nothing ↦ ground (arith, there, none_left stats u nothing)
      | inr (best, top) ↦
          let found = best_found stats best (tracks u).dict top in
          let least = found.1 u p there in
          rw top (
            pos_le (count u) (count best.0) (
              subst (λ x. x ≤ℤ pos (count best.0)) (sym (ap held there) ∙ (tracks u).sum)
                (subst (λ y. p.0 ≤ℤ y) (sym (ap held found.0) ∙ (tracks best.0).sum) least)))
    ]
  ]

  -- No weather type holds at more milliseconds of a window of n > 0 milliseconds than the dominant
  -- one, in a schedule with entries in strictly increasing order.
  pub dominant-leads :
      (entries : List ScheduleEntry) (start_ms : ℤ) (n : ℕ) (u : WeatherType)
      → Sorted entries
      → is_empty entries ≡ false
      → 0 < n
      → n ≤ i64_max
      → over_window (holds u) entries start_ms n
        ≤ over_window
            (holds (dominant_weather_type_for_window entries start_ms (start_ms +ℤ pos n)))
            entries
            start_ms
            n
  unfolding dominant_weather_type_for_window
  dominant-leads entries start_ms n u sorted e p l =
      rw (opened start_ms n p, e)
        (leads (stats_for_window entries start_ms (start_ms +ℤ pos n))
          (λ t. over_window (holds t) entries start_ms n) u
          (λ t. stats-Tracks t entries start_ms n sorted l))
