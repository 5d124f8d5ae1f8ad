-- ===== src/Common/Action.antt =====
-- Code that changes a state and may fail: an error leaves the state as it was when it was raised.
use hack_arena3_0_backend.Common.{Bool, Result, ok, err, if◌then◌else◌}

abbrev pub Action : Type 0 → Type 0 → Type 0 → Type 0
Action S E A = S → Result E A × S

unfoldable pub and_then : {S E A B : Type 0} → Result E A × S → (A → Action S E B) → Result E B × S
and_then (ok a, s) f = f a s
and_then (err e, s) f = (err e, s)

infixl 5 ◌>>=◌ ◌>>◌
abbrev pub ◌>>=◌ : {S E A B : Type 0} → Action S E A → (A → Action S E B) → Action S E B
◌>>=◌ m f s = and_then (m s) f

abbrev pub ◌>>◌ : {S E B : Type 0} → Action S E (Unit {0}) → Action S E B → Action S E B
◌>>◌ m k s = and_then (m s) (λ _. k)

abbrev pub pure : {S E A : Type 0} → A → Action S E A
pure a s = (ok a, s)

-- `?` on a result that changes nothing.
abbrev pub lift : {S E A : Type 0} → Result E A → Action S E A
lift r s = (r, s)

abbrev pub modify : {S E : Type 0} → (S → S) → Action S E (Unit {0})
modify f s = (ok tt, f s)

abbrev pub gets : {S E A : Type 0} → (S → A) → Action S E A
gets f s = (ok (f s), s)

-- An early `return Err(e)` under a test of the state.
abbrev pub fail_when : {S E : Type 0} → (S → Bool) → (S → E) → Action S E (Unit {0})
fail_when test e s = if test s then (err (e s), s) else (ok tt, s)
