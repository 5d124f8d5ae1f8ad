-- ===== src/Runtime/Counts.antt =====
-- Counting the names of step tasks: what `abort` and the tables of
-- game-server/src/runtime/engine_worker.rs do to the counts.
use hack_arena3_0_backend.Common.{
  ◌≡◌, List, [], ◌∷◌, Option, none, some, String, arith, if◌then◌else◌, ℕ, ◌+◌, ◌-◌, ◌==◌,
}
use hack_arena3_0_backend.Runtime.Model.{EngineApi, EngineWorldSlot, SandboxEngineHandle}
use hack_arena3_0_backend.Runtime.State.{abort, abort_entry, abort_all}
use hack_arena3_0_backend.Common.Dict
use hack_arena3_0_backend.Common.Dict.{Dict, string_eq}

-- How often a name stands in a list of tasks.
abbrev pub one_if : ℕ → ℕ → ℕ
one_if t x = if x == t then 1 else 0

abbrev pub count : ℕ → List ℕ → ℕ
count t [] = 0
count t (x ∷ xs) = one_if t x + count t xs

module _ ⦃api : EngineApi⦄ where
  abbrev pub tasks : Dict String SandboxEngineHandle → List ℕ
  tasks [] = []
  tasks ((k, handle) ∷ d) = handle.step_task ∷ tasks d

  abbrev pub entry_count : ℕ → Option SandboxEngineHandle → ℕ
  entry_count t none = 0
  entry_count t (some handle) = one_if t handle.step_task

  pub count-abort :
      (t task : ℕ) (xs : List ℕ) → count t (abort task xs) ≡ count t xs - one_if t task
  unfolding abort
  count-abort t task [] = ground arith
  count-abort t task (x ∷ xs) = ground (arith, count-abort t task xs)

  pub count-abort_entry :
      (t : ℕ) (o : Option SandboxEngineHandle) (xs : List ℕ)
      → count t (abort_entry o xs) ≡ count t xs - entry_count t o
  unfolding abort_entry
  count-abort_entry t none xs = omega arith
  count-abort_entry t (some handle) xs = count-abort t handle.step_task xs

  pub count-abort_all :
      (t : ℕ) (d : Dict String SandboxEngineHandle) (xs : List ℕ)
      → count t (abort_all d xs) ≡ count t xs - count t (tasks d)
  unfolding abort_all
  count-abort_all t [] xs = omega arith
  count-abort_all t ((k, handle) ∷ d) xs =
      omega
        (arith, count-abort_all t d (abort handle.step_task xs), count-abort t handle.step_task xs)

  pub count-remove :
      (t : ℕ) (k : String) (d : Dict String SandboxEngineHandle)
      → count t (tasks (Dict.remove k d)) + entry_count t (Dict.get k d) ≡ count t (tasks d)
  unfolding Dict.remove Dict.get
  count-remove t k [] = omega arith
  count-remove t k ((j, handle) ∷ d) = ground (arith, count-remove t k d)

  pub count-insert :
      (t : ℕ) (k : String) (h : SandboxEngineHandle) (d : Dict String SandboxEngineHandle)
      → count t (tasks (Dict.insert k h d)) + entry_count t (Dict.get k d)
        ≡ count t (tasks d) + one_if t h.step_task
  unfolding Dict.insert Dict.get
  count-insert t k h [] = omega arith
  count-insert t k h ((j, handle) ∷ d) = ground (arith, count-insert t k h d)

  -- A world that was put back leaves the tasks alone.
  pub count-put :
      (t : ℕ) (k : String) (h : SandboxEngineHandle) (slot : EngineWorldSlot)
      (d : Dict String SandboxEngineHandle)
      → Dict.get k d ≡ some h
      → count t (tasks (Dict.insert k (record h { slot = slot }) d)) ≡ count t (tasks d)
  count-put t k h slot d e = ground (arith, count-insert t k (record h { slot = slot }) d)
