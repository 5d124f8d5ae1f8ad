-- ===== src/Common/Dict.antt =====
-- Hash maps as association lists over keys with a lawful equality test, and the names of the keys.
use hack_arena3_0_backend.Common.{
  ℕ, ◌≡◌, refl, ◌↔◌, Bool, true, false, List, [], ◌∷◌, Option, none, some, arith, ◌==◌, ==_iff,
  String, ◌&&◌, ◌=ₛ◌, =ₛ_iff, if◌then◌else◌,
}

pub record Eq {ℓ} (A : Type ℓ) : Type ℓ where
  pub beq : A → A → Bool
  pub beq_iff : (a b : A) → (beq a b ≡ true) ↔ (a ≡ b)

instance abbrev pub nat_eq : Eq ℕ
nat_eq = record { beq = ◌==◌; beq_iff = ==_iff }

instance abbrev pub string_eq : Eq String
string_eq = record { beq = ◌=ₛ◌; beq_iff = =ₛ_iff }

abbrev pub pair_beq : String × String → String × String → Bool
pair_beq (a, b) (c, d) = (a =ₛ c) && (b =ₛ d)

pub pair_beq_iff : (p q : String × String) → (pair_beq p q ≡ true) ↔ (p ≡ q)
pair_beq_iff (a, b) (c, d) = ground (arith, =ₛ_iff a c, =ₛ_iff b d)

instance abbrev pub pair_eq : Eq (String × String)
pair_eq = record { beq = pair_beq; beq_iff = pair_beq_iff }

abbrev pub Dict {ℓ κ} : Type ℓ → Type κ → Type (ℓ ⊔ κ)
Dict K V = List (K × V)

module _ {ℓ} {K : Type ℓ} ⦃e : Eq K⦄ where
  pub beq_sym : (j k : K) → e.beq j k ≡ false → e.beq k j ≡ false
  beq_sym j k h = ground (arith, e.beq_iff j k, e.beq_iff k j)

module _ {ℓ κ} {K : Type ℓ} {V : Type κ} ⦃e : Eq K⦄ where
  unfoldable pub get : K → Dict K V → Option V
  get k [] = none
  get k ((j, v) ∷ d) = if e.beq j k then some v else get k d

  -- `HashMap::insert`: the entry of the key is overwritten where it stands.
  unfoldable pub insert : K → V → Dict K V → Dict K V
  insert k v [] = (k, v) ∷ []
  insert k v ((j, w) ∷ d) = if e.beq j k then (j, v) ∷ d else (j, w) ∷ insert k v d

  unfoldable pub remove : K → Dict K V → Dict K V
  remove k [] = []
  remove k ((j, w) ∷ d) = if e.beq j k then d else (j, w) ∷ remove k d

  -- The key stands in no entry.
  abbrev pub Absent : K → Dict K V → Type 0
  Absent k [] = Unit
  Absent k ((j, w) ∷ d) = (e.beq j k ≡ false) × Absent k d

  -- No key stands in two entries.
  abbrev pub IsDict : Dict K V → Type 0
  IsDict [] = Unit
  IsDict ((j, w) ∷ d) = Absent j d × IsDict d

  pub get-insert :
      (k j : K) (v : V) (d : Dict K V)
      → get j (insert k v d) ≡ (if e.beq k j then some v else get j d)
  unfolding get insert
  get-insert k j v [] = refl
  get-insert k j v ((i, w) ∷ d) =
      ground (arith, e.beq_iff k j, e.beq_iff i k, e.beq_iff i j, get-insert k j v d)

  pub get-Absent : (k : K) (d : Dict K V) → Absent k d → get k d ≡ none
  unfolding get
  get-Absent k [] a = refl
  get-Absent k ((i, w) ∷ d) a = ground (arith, get-Absent k d a.1)

  pub get-remove :
      (k j : K) (d : Dict K V)
      → IsDict d
      → get j (remove k d) ≡ (if e.beq k j then none else get j d)
  unfolding get remove
  get-remove k j [] h = ground arith
  get-remove k j ((i, w) ∷ d) h =
      ground (
        arith,
        e.beq_iff k j,
        e.beq_iff i k,
        e.beq_iff i j,
        get-remove k j d h.1,
        get-Absent i d h.0,
      )

  pub Absent-insert :
      (k j : K) (v : V) (d : Dict K V) → e.beq k j ≡ false → Absent j d → Absent j (insert k v d)
  unfolding insert
  Absent-insert k j v [] n a = (n, tt)
  Absent-insert k j v ((i, w) ∷ d) n a = ground (arith, Absent-insert k j v d n a.1)

  pub Absent-remove : (k j : K) (d : Dict K V) → Absent j d → Absent j (remove k d)
  unfolding remove
  Absent-remove k j [] a = tt
  Absent-remove k j ((i, w) ∷ d) a = ground (arith, Absent-remove k j d a.1)

  pub insert-IsDict : (k : K) (v : V) (d : Dict K V) → IsDict d → IsDict (insert k v d)
  unfolding insert
  insert-IsDict k v [] h = (tt, tt)
  insert-IsDict k v ((i, w) ∷ d) h =
      ground (arith, beq_sym i k, insert-IsDict k v d h.1, Absent-insert k i v d)

  pub remove-IsDict : (k : K) (d : Dict K V) → IsDict d → IsDict (remove k d)
  unfolding remove
  remove-IsDict k [] h = tt
  remove-IsDict k ((i, w) ∷ d) h = ground (arith, remove-IsDict k d h.1, Absent-remove k i d h.0)
