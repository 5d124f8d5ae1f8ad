-- ===== src/Local/SandboxReload.antt =====
-- What game-server/src/local/sandbox_config_store/store.rs finds in its file after a restart.
use hack_arena3_0_backend.Common.Action.{and_then}
use hack_arena3_0_backend.Common.{
  All, Option, none, some, ℕ, ◌≡◌, inl, inr, true, false, Result, ok, arith, sym, subst, ap, ◌∙◌,
  Result-cases,
}
use hack_arena3_0_backend.Local.SandboxConfig.{
  StoreApi, LocalSandboxConfigStoreError, LocalGhostModeSettingsRecord,
}
use hack_arena3_0_backend.Local.SandboxConfigStore.{
  FilesApi, LocalSandboxConfigState, World, M, io, create_parent, persist, parse, load, make,
  load_or_create,
}
use hack_arena3_0_backend.Local.SandboxRequests.{Request, perform}
use hack_arena3_0_backend.Local.SandboxStore.{written-store}
use hack_arena3_0_backend.Local.SandboxEdits.{persist-store, written, Refines, perform-Refines}

-- A number that is read back from its text.
abbrev pub ReadBack : {F E B : Type 0} → (F → Result E B) → (B → Result E F) → F → Type 0
ReadBack {B = B} show read x = (raw : B) × (show x ≡ ok raw) × (read raw ≡ ok x)

-- The numbers of the ghost mode are read back from their texts.
abbrev pub Kept :
    ⦃api : StoreApi⦄
    → {B : Type 0} → (api.F32 → Result api.SerdeError B)
    → (B → Result api.SerdeError api.F32)
    → Option LocalGhostModeSettingsRecord
    → Type 0
Kept show read none = Unit
Kept show read (some ghost) =
    ReadBack show read ghost.enter_speed_max_mps × ReadBack show read ghost.exit_speed_min_mps

-- What a file system and serde_json promise: a file that was written can be read, and the text of a
-- state is not empty and is read back as the state if the text of each of its `f32` is read back as
-- that number. The text of a number that is not finite is `null`, which is read back as no number.
pub record FilesLaws ⦃api : StoreApi⦄ ⦃files : FilesApi⦄ : Type 0 where
  pub exists :
      (path : files.FilePath) (raw : files.Bytes) (disk : files.Disk)
      → (files.write path raw disk).0 ≡ ok tt
      → files.try_exists path (files.write path raw disk).1 ≡ ok true
  pub readable :
      (path : files.FilePath) (raw : files.Bytes) (disk : files.Disk)
      → (files.write path raw disk).0 ≡ ok tt
      → files.read path (files.write path raw disk).1 ≡ ok raw
  pub filled :
      (state : LocalSandboxConfigState) (raw : files.Bytes)
      → files.to_vec_pretty state ≡ ok raw
      → files.no_bytes raw ≡ false
  -- The two functions of serde_json at `f32`.
  pub number_to_vec : api.F32 → Result api.SerdeError files.Bytes
  pub number_from_slice : files.Bytes → Result api.SerdeError api.F32
  pub parsed :
      (state : LocalSandboxConfigState) (raw : files.Bytes)
      → All (λ entry. Kept number_to_vec number_from_slice entry.config.ghost_mode) state.sandboxes
      → files.to_vec_pretty state ≡ ok raw
      → files.from_slice raw ≡ ok state

module _ ⦃api : StoreApi⦄ ⦃files : FilesApi⦄ where
  -- The numbers of a state are read back from their texts.
  abbrev pub ReadsBack : FilesLaws → LocalSandboxConfigState → Type 0
  ReadsBack laws state =
      All (λ entry. Kept laws.number_to_vec laws.number_from_slice entry.config.ghost_mode)
        state.sandboxes

  -- What is known of the steps of a write that succeeded.
  record Saved (w : World) : Type 0 where
    raw : files.Bytes
    before : files.Disk
    shown : files.to_vec_pretty w.store.state ≡ ok raw
    done : (files.write w.store.path raw before).0 ≡ ok tt
    disk : (persist w).1.disk ≡ (files.write w.store.path raw before).1

  -- The steps after the serialiser, on the disk with the directory.
  io_done :
      (call : files.Disk → Result api.IoError (Unit {0}) × files.Disk) (m : M (Unit {0}))
      (w : World)
      → (and_then (m w) (λ _. io call)).0 ≡ ok tt
      → ((call (m w).1.disk).0 ≡ ok tt)
        × ((and_then (m w) (λ _. io call)).1.disk ≡ (call (m w).1.disk).1)
  unfolding io and_then
  io_done call m w h = (ground (arith, h), ground (arith, h))

  persist-Saved : (w : World) → (persist w).0 ≡ ok tt → Saved w
  unfolding persist and_then
  persist-Saved w h = elim (Result-cases (files.to_vec_pretty w.store.state)) [
    | inr (e, s) ↦ ground (arith, h, s)
    | inl (raw, s) ↦
        let steps =
          io_done (files.write w.store.path raw) (create_parent (files.parent w.store.path)) w
            (ground (arith, h, s)) in
        record {
          raw = raw;
          before = (create_parent (files.parent w.store.path) w).1.disk;
          shown = s;
          done = steps.0;
          disk = ground (arith, steps.1, s);
        }
  ]

  found :
      (path : files.FilePath) (disk : files.Disk) (raw : files.Bytes)
      (state : LocalSandboxConfigState)
      → files.try_exists path disk ≡ ok true
      → files.read path disk ≡ ok raw
      → files.no_bytes raw ≡ false
      → files.from_slice raw ≡ ok state
      → load_or_create path disk ≡ ok (make path disk state)
  unfolding load_or_create load parse
  found path disk raw state e r n p = ground (arith, e, r, n, p)

  -- The store with the disk that it left.
  renewed : (w v : World) → v.store ≡ w.store → make w.store.path v.disk w.store.state ≡ v
  renewed w v h = ap (λ store. record { store = store; disk = v.disk }) (sym h)

  persist-reload :
      (laws : FilesLaws) (w : World)
      → ReadsBack laws w.store.state
      → (persist w).0 ≡ ok tt
      → load_or_create w.store.path (persist w).1.disk ≡ ok (persist w).1
  persist-reload laws w k h =
      let s = persist-Saved w h in
      found w.store.path (persist w).1.disk s.raw w.store.state
        (rw s.disk (laws.exists w.store.path s.raw s.before s.done))
        (rw s.disk (laws.readable w.store.path s.raw s.before s.done))
        (laws.filled w.store.state s.raw s.shown) (laws.parsed w.store.state s.raw k s.shown)
      ∙ ap ok (renewed w (persist w).1 (persist-store w))

  written-reload :
      (laws : FilesLaws) (v : World) (revision : ℕ)
      → ReadsBack laws (written v).1.store.state
      → (written v).0 ≡ ok revision
      → load_or_create v.store.path (written v).1.disk ≡ ok (written v).1
  unfolding and_then
  written-reload laws v revision k h =
      let kept = subst (λ store. ReadsBack laws store.state) (written-store v) k in
      ground (arith, h, persist-reload laws v kept)

  Refines-reload :
      (laws : FilesLaws) (request : Request) (expected : ℕ) (w : World) (revision : ℕ)
      (out : Result LocalSandboxConfigStoreError ℕ × World)
      → Refines request expected w out
      → ReadsBack laws out.1.store.state
      → out.0 ≡ ok revision
      → load_or_create w.store.path out.1.disk ≡ ok out.1
  Refines-reload laws request expected w revision _ (Refines.invalid c) k h = ground (arith, h)
  Refines-reload laws request expected w revision _ (Refines.stale c n) k h = ground (arith, h)
  Refines-reload laws request expected w revision _ (Refines.inapplicable c e n) k h =
      ground (arith, h)
  Refines-reload laws request expected w revision _ (Refines.applied {v = v} a) k h =
      subst (λ path. load_or_create path (written v).1.disk ≡ ok (written v).1) a.untouched.0
        (written-reload laws v revision k h)

  -- On a file system that keeps what it is given, with a serialiser that reads a state back from its
  -- text if it reads the numbers of the ghost modes back from theirs: after every request that was
  -- answered with success and left such numbers only, a restart finds in the file the store as it
  -- is in memory.
  pub perform-reload :
      (laws : FilesLaws) (request : Request) (expected : ℕ) (w : World) (revision : ℕ)
      → ReadsBack laws (perform request expected w).1.store.state
      → (perform request expected w).0 ≡ ok revision
      → load_or_create w.store.path (perform request expected w).1.disk
        ≡ ok (perform request expected w).1
  perform-reload laws request expected w revision =
      Refines-reload laws request expected w revision _ (perform-Refines request expected w)
