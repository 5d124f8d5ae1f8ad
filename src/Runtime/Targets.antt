-- ===== src/Runtime/Targets.antt =====
-- Which world a command of game-server/src/runtime/engine_worker.rs reaches through
-- `with_target_slot_mut`.
use hack_arena3_0_backend.Common.Action.{and_then}
use hack_arena3_0_backend.Common.Dict
use hack_arena3_0_backend.Common.Dict.{string_eq, get-insert}
use hack_arena3_0_backend.Common.{
  ◌≡◌, ◌≢◌, refl, sym, ap, Bool, true, false, not, ◌&&◌, Option, none, some, String, Result, err,
  arith, is_blank, ◌=ₛ◌, =ₛ_iff, Bool-cases, inl, inr, is_some,
}
use hack_arena3_0_backend.Runtime.Model.{
  EngineCommandTarget, EngineApi, EngineWorldSlot, SandboxEngineHandle, EngineWorkerError, Worker,
}
use hack_arena3_0_backend.Runtime.State.{require}
use hack_arena3_0_backend.Runtime.LocalRace.{is_official_kind, is_race}
use hack_arena3_0_backend.Runtime.Commands.{
  SlotOp, put_local_slot, put_sandbox_slot, on_handle, on_official, with_target_slot_mut,
}

module _ ⦃api : EngineApi⦄ where
  abbrev slot_of : Option SandboxEngineHandle → Option EngineWorldSlot
  slot_of none = none
  slot_of (some handle) = some handle.slot

  -- The world that a target names.
  unfoldable pub world : EngineCommandTarget → Worker → Option EngineWorldSlot
  world EngineCommandTarget.official_race w = w.official_engine
  world (EngineCommandTarget.local_race id) w = slot_of (Dict.get id w.local_race_engines)
  world (EngineCommandTarget.sandbox id) w = slot_of (Dict.get id w.sandbox_engines)

  -- The conditions under which a command may use it.
  unfoldable pub may_use : EngineCommandTarget → Worker → Bool
  may_use EngineCommandTarget.official_race w = is_official_kind w.runtime_state.activity_kind
  may_use (EngineCommandTarget.local_race id) w =
      not (is_blank id) && is_race id w.runtime_state.active_local_race
  may_use (EngineCommandTarget.sandbox id) w = not (is_blank id)

  -- What the operation does to the world it was given, and to nothing else.
  pub record Runs {A : Type 0} (t : EngineCommandTarget) (op : SlotOp A) (slot : EngineWorldSlot)
      (v : Worker) (r : Result EngineWorkerError A × Worker) : Type 0 where
    pub answer : r.0 ≡ (op slot).0
    pub written : world t r.1 ≡ some (op slot).1
    pub others : (u : EngineCommandTarget) → u ≢ t → world u r.1 ≡ world u v
    pub state : r.1.runtime_state ≡ v.runtime_state

  official-Runs :
      {A : Type 0} (op : SlotOp A) (slot : EngineWorldSlot) (v : Worker)
      → Runs EngineCommandTarget.official_race op slot v (on_official (some slot) op v)
  unfolding world on_official
  official-Runs op slot v = record {
    answer = refl;
    written = refl;
    others = elsewhere;
    state = refl;
  }
    where
      elsewhere :
          (u : EngineCommandTarget)
          → u ≢ EngineCommandTarget.official_race
          → world u (on_official (some slot) op v).1 ≡ world u v
      elsewhere EngineCommandTarget.official_race ne = elim (ne refl) [ ]
      elsewhere (EngineCommandTarget.local_race id) ne = refl
      elsewhere (EngineCommandTarget.sandbox id) ne = refl

  race-Runs :
      {A : Type 0} (id message : String) (op : SlotOp A) (handle : SandboxEngineHandle) (v : Worker)
      → Runs
          (EngineCommandTarget.local_race id)
          op
          handle.slot
          v
          (on_handle (put_local_slot id) message (some handle) op v)
  unfolding world on_handle put_local_slot
  race-Runs id message op handle v = record {
    answer = refl;
    written = written_race (op handle.slot).1;
    others = elsewhere;
    state = refl;
  }
    where
      written_race :
          (slot : EngineWorldSlot)
          → slot_of
              (Dict.get id (Dict.insert id (record handle { slot = slot }) v.local_race_engines))
            ≡ some slot
      written_race slot = ground (
        arith,
        get-insert id id (record handle { slot = slot }) v.local_race_engines,
        =ₛ_iff id id,
      )

      elsewhere :
          (u : EngineCommandTarget)
          → u ≢ EngineCommandTarget.local_race id
          → world u (on_handle (put_local_slot id) message (some handle) op v).1 ≡ world u v
      elsewhere EngineCommandTarget.official_race ne = refl
      elsewhere (EngineCommandTarget.local_race j) ne =
          let slot = (op handle.slot).1 in
          elim (Bool-cases (id =ₛ j)) [
            | inl same ↦
                elim (ne (ap EngineCommandTarget.local_race (sym ((=ₛ_iff id j).0 same)))) [ ]
            | inr differs ↦ ap slot_of (
                rw (get-insert id j (record handle { slot = slot }) v.local_race_engines)
                  (rw differs refl))
          ]
      elsewhere (EngineCommandTarget.sandbox j) ne = refl

  sandbox-Runs :
      {A : Type 0} (id message : String) (op : SlotOp A) (handle : SandboxEngineHandle) (v : Worker)
      → Runs
          (EngineCommandTarget.sandbox id)
          op
          handle.slot
          v
          (on_handle (put_sandbox_slot id) message (some handle) op v)
  unfolding world on_handle put_sandbox_slot
  sandbox-Runs id message op handle v = record {
    answer = refl;
    written = written_sandbox (op handle.slot).1;
    others = elsewhere;
    state = refl;
  }
    where
      written_sandbox :
          (slot : EngineWorldSlot)
          → slot_of (Dict.get id (Dict.insert id (record handle { slot = slot }) v.sandbox_engines))
            ≡ some slot
      written_sandbox slot =
          ground (
            arith,
            get-insert id id (record handle { slot = slot }) v.sandbox_engines,
            =ₛ_iff id id,
          )

      elsewhere :
          (u : EngineCommandTarget)
          → u ≢ EngineCommandTarget.sandbox id
          → world u (on_handle (put_sandbox_slot id) message (some handle) op v).1 ≡ world u v
      elsewhere EngineCommandTarget.official_race ne = refl
      elsewhere (EngineCommandTarget.sandbox j) ne =
          let slot = (op handle.slot).1 in
          elim (Bool-cases (id =ₛ j)) [
            | inl same ↦ elim (ne (ap EngineCommandTarget.sandbox (sym ((=ₛ_iff id j).0 same)))) [ ]
            | inr differs ↦ ap slot_of (
                rw (get-insert id j (record handle { slot = slot }) v.sandbox_engines)
                  (rw differs refl))
          ]
      elsewhere (EngineCommandTarget.local_race j) ne = refl

  handle_of :
      (o : Option SandboxEngineHandle) (slot : EngineWorldSlot)
      → slot_of o ≡ some slot
      → (handle : SandboxEngineHandle) × (o ≡ some handle) × (handle.slot ≡ slot)
  handle_of none slot e = cc
  handle_of (some handle) slot e = (handle, refl, ground arith)

  -- A command that may use the world that its target names runs its operation on that world: it
  -- answers what the operation answers, leaves what the operation leaves, and neither another
  -- world nor the runtime state is touched.
  pub with_target-Runs :
      {A : Type 0} (t : EngineCommandTarget) (op : SlotOp A) (slot : EngineWorldSlot) (v : Worker)
      → may_use t v ≡ true
      → world t v ≡ some slot
      → Runs t op slot v (with_target_slot_mut t op v)
  unfolding world may_use with_target_slot_mut and_then require
  with_target-Runs EngineCommandTarget.official_race op slot v may is =
      simp (may, is) (official-Runs op slot v)
  with_target-Runs (EngineCommandTarget.local_race id) op slot v may is =
      let (handle, e, same) = handle_of _ slot is in
      let filled : is_blank id ≡ false = ground (arith, may) in
      let matches : is_race id v.runtime_state.active_local_race ≡ true = ground (arith, may) in
      rw filled (rw matches (rw e (rw (← same) (race-Runs id _ op handle v))))
  with_target-Runs (EngineCommandTarget.sandbox id) op slot v may is =
      let (handle, e, same) = handle_of _ slot is in
      let filled : is_blank id ≡ false = ground (arith, may) in
      rw filled (rw e (rw (← same) (sandbox-Runs id _ op handle v)))

  no_handle : (o : Option SandboxEngineHandle) → is_some (slot_of o) ≡ false → o ≡ none
  no_handle none h = refl
  no_handle (some handle) h = cc

  no_official : (o : Option EngineWorldSlot) → is_some o ≡ false → o ≡ none
  no_official none h = refl
  no_official (some slot) h = cc

  -- A command that may not use the world that its target names, or whose world is not there, fails
  -- and changes nothing.
  pub with_target-refused :
      {A : Type 0} (t : EngineCommandTarget) (op : SlotOp A) (v : Worker)
      → (may_use t v && is_some (world t v)) ≡ false
      → (e : EngineWorkerError) × (with_target_slot_mut t op v ≡ (err e, v))
  unfolding world may_use with_target_slot_mut and_then require on_official on_handle
  with_target-refused EngineCommandTarget.official_race op v lacks =
      elim (Bool-cases (is_official_kind v.runtime_state.activity_kind)) [
        | inl kind ↦
            simp (kind, no_official v.official_engine (ground (arith, kind, lacks))) (_, refl)
        | inr other ↦ simp other (_, refl)
      ]
  with_target-refused (EngineCommandTarget.local_race id) op v lacks =
      elim (Bool-cases (is_blank id)) [
        | inl blank ↦ simp blank (_, refl)
        | inr filled ↦
            simp filled (elim (Bool-cases (is_race id v.runtime_state.active_local_race)) [
              | inl matches ↦
                  simp
                    (
                      matches,
                      no_handle (Dict.get id v.local_race_engines)
                          (ground (arith, filled, matches, lacks)),
                    )
                    (_, refl)
              | inr other ↦ simp other (_, refl)
            ])
      ]
  with_target-refused (EngineCommandTarget.sandbox id) op v lacks =
      elim (Bool-cases (is_blank id)) [
        | inl blank ↦ simp blank (_, refl)
        | inr filled ↦
            simp (filled, no_handle (Dict.get id v.sandbox_engines) (ground (arith, filled, lacks)))
              (_, refl)
      ]
