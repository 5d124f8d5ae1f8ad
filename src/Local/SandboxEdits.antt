-- ===== src/Local/SandboxEdits.antt =====
-- How the methods of game-server/src/local/sandbox_config_store/store.rs answer a request.
use hack_arena3_0_backend.Common.Action.{and_then, pure}
use hack_arena3_0_backend.Common.{
  ℕ, ◌≡◌, inl, inr, refl, true, false, List, [], ◌∷◌, ◌++◌, Option, none, some, String, Result, ok,
  err, arith, is_some, ◌==◌, saturating_add, Bool-cases, Option-cases, Result-cases, sym,
}
use hack_arena3_0_backend.Local.SandboxConfig.{
  StoreApi, LocalSandboxConfigRecord, LocalSandboxConfigStoreError,
}
use hack_arena3_0_backend.Local.SandboxConfigStore.{
  FilesApi, World, M, change_first, has_id, without, io, create_parent, persist,
  ensure_expected_revision, put_sandboxes, bump_revision, change_entry, commit, create_entry,
  delete_entry, create_config, update_config, delete_config, update_time_of_day, update_weather,
  update_spawn_mode,
}
use hack_arena3_0_backend.Local.SandboxHealth.{
  Healthy, Keeps, change-Healthy, append-Healthy, without-Healthy, time_of_day-Sound, weather-Sound,
  spawn_mode-Sound,
}
use hack_arena3_0_backend.Local.SandboxRequests.{
  Request, id_of, check, lookup, after, applies, refusal, Edited, perform, lookup-append,
  any-lookup, lookup-without, without_missing, length-without, change_missing, change_found,
}

module _ ⦃api : StoreApi⦄ ⦃files : FilesApi⦄ where
  pub persist-store : (w : World) → (persist w).1.store ≡ w.store
  unfolding persist create_parent io and_then
  persist-store w = ground arith

  -- The file is written from the new state, and the caller gets the new revision.
  abbrev pub written : World → Result LocalSandboxConfigStoreError ℕ × World
  written v = and_then (persist v) (λ _. pure v.store.state.revision)

  -- What an accepted request makes of the memory of the store, before the file is written.
  pub record Applied (request : Request) (expected : ℕ) (w v : World) : Type 0 where
    pub valid : check request ≡ ok tt
    pub current : expected ≡ w.store.state.revision
    pub applicable : applies request (lookup (id_of request) w.store.state.sandboxes) ≡ true
    pub edited : Edited request w.store.state.sandboxes v.store.state.sandboxes
    pub revision : v.store.state.revision ≡ saturating_add w.store.state.revision 1
    pub healthy : Healthy w.store.state.sandboxes → Healthy v.store.state.sandboxes
    pub untouched : (v.store.path ≡ w.store.path) × (v.disk ≡ w.disk)

  -- The outcomes of a request. A refused one leaves memory and disk as they are.
  pub data Refines (request : Request) (expected : ℕ) (w : World)
      : Result LocalSandboxConfigStoreError ℕ × World → Type 0 where
    invalid :
        {e : LocalSandboxConfigStoreError}
        → check request ≡ err e
        → Refines request expected w (err e, w)
    stale :
        check request ≡ ok tt
        → (expected == w.store.state.revision) ≡ false
        → Refines request expected w (
          err (LocalSandboxConfigStoreError.revision_mismatch expected w.store.state.revision),
          w,
        )
    inapplicable :
        check request ≡ ok tt
        → expected ≡ w.store.state.revision
        → applies request (lookup (id_of request) w.store.state.sandboxes) ≡ false
        → Refines request expected w (err (refusal request), w)
    applied : {v : World} → Applied request expected w v → Refines request expected w (written v)

  committed : (w : World) → commit w ≡ written (bump_revision w)
  unfolding commit and_then
  committed w = ground arith

  guarded :
      (request : Request) (expected : ℕ) (w : World) (body : M ℕ)
      → (check request ≡ ok tt
          → expected ≡ w.store.state.revision
          → Refines request expected w (body w))
      → Refines request expected w (
          and_then
            (check request, w)
            (λ _ v. and_then (ensure_expected_revision expected v) (λ _. body)))
  unfolding and_then ensure_expected_revision
  guarded request expected w body k = elim (Result-cases (check request)) [
    | inr (e, c) ↦ rw c (Refines.invalid c)
    | inl (_, c) ↦ elim (Bool-cases (expected == w.store.state.revision)) [
      | inl e ↦ rw (c, e) (k c (ground (arith, e)))
      | inr n ↦ rw (c, n) (Refines.stale c n)
    ]
  ]

  entry_missing :
      (id : String) (change : LocalSandboxConfigRecord → LocalSandboxConfigRecord) (w : World)
      → change_first (has_id id) change w.store.state.sandboxes ≡ none
      → change_entry id change w ≡ (err (LocalSandboxConfigStoreError.not_found id), w)
  unfolding change_entry
  entry_missing id change w h = ground (arith, h)

  entry_found :
      (id : String) (change : LocalSandboxConfigRecord → LocalSandboxConfigRecord) (w : World)
      (new : List LocalSandboxConfigRecord)
      → change_first (has_id id) change w.store.state.sandboxes ≡ some new
      → change_entry id change w ≡ (ok tt, put_sandboxes new w)
  unfolding change_entry
  entry_found id change w new h = ground (arith, h)

  changed :
      (request : Request) (expected : ℕ) (w : World)
      (change : LocalSandboxConfigRecord → LocalSandboxConfigRecord)
      → check request ≡ ok tt
      → expected ≡ w.store.state.revision
      → Keeps (id_of request) change
      → ((found : LocalSandboxConfigRecord) → after request (some found) ≡ some (change found))
      → ((found : Option LocalSandboxConfigRecord) → applies request found ≡ is_some found)
      → refusal request ≡ LocalSandboxConfigStoreError.not_found (id_of request)
      → Refines request expected w (and_then (change_entry (id_of request) change w) (λ _. commit))
  unfolding and_then put_sandboxes bump_revision
  changed request expected w change c e keeps result applying refused =
      elim (Option-cases (lookup (id_of request) w.store.state.sandboxes)) [
        | inl there ↦
            let missing = change_missing (id_of request) change w.store.state.sandboxes there in
            rw (entry_missing (id_of request) change w missing, sym refused)
              (Refines.inapplicable c e (ground (arith, there, applying none)))
        | inr (found, there) ↦
            let done =
              change_found (id_of request) change keeps.same_id w.store.state.sandboxes found
                there in
            rw
              (
                entry_found (id_of request) change w done.0 done.1,
                committed (put_sandboxes done.0 w),
              )
              (Refines.applied (record {
                valid = c;
                current = e;
                applicable = ground (arith, there, applying (some found));
                edited = λ id. ground (arith, there, result found, done.2 id);
                revision = refl;
                healthy =
                    change-Healthy (id_of request) change keeps w.store.state.sandboxes done.0
                      done.1;
                untouched = (refl, refl);
              }))
      ]

  created :
      (sandbox : LocalSandboxConfigRecord) (expected : ℕ) (w : World)
      → check (Request.create sandbox) ≡ ok tt
      → expected ≡ w.store.state.revision
      → Refines (Request.create sandbox) expected w (create_entry sandbox w)
  unfolding create_entry and_then put_sandboxes bump_revision
  created sandbox expected w c e =
      elim (Option-cases (lookup sandbox.sandbox_id w.store.state.sandboxes)) [
        | inl there ↦
            rw
              (
                any-lookup sandbox.sandbox_id w.store.state.sandboxes,
                there,
                committed (put_sandboxes (w.store.state.sandboxes ++ sandbox ∷ []) w),
              )
              (Refines.applied (record {
                valid = c;
                current = e;
                applicable = ground (arith, there);
                edited = λ id. lookup-append id w.store.state.sandboxes sandbox there;
                revision = refl;
                healthy = append-Healthy w.store.state.sandboxes sandbox c there;
                untouched = (refl, refl);
              }))
        | inr (found, there) ↦
            rw (any-lookup sandbox.sandbox_id w.store.state.sandboxes, there)
              (Refines.inapplicable c e (ground (arith, there)))
      ]

  deleted :
      (id : String) (expected : ℕ) (w : World)
      → expected ≡ w.store.state.revision
      → Refines (Request.delete id) expected w (delete_entry id w)
  unfolding delete_entry and_then put_sandboxes bump_revision
  deleted id expected w e = elim (Option-cases (lookup id w.store.state.sandboxes)) [
    | inl there ↦
        rw
          (
            length-without id w.store.state.sandboxes,
            there,
            without_missing id w.store.state.sandboxes there,
          )
          (Refines.inapplicable refl e (ground (arith, there)))
    | inr (found, there) ↦
        rw
          (
            length-without id w.store.state.sandboxes,
            there,
            committed (put_sandboxes (without id w.store.state.sandboxes) w),
          )
          (Refines.applied (record {
            valid = refl;
            current = e;
            applicable = ground (arith, there);
            edited = λ j. lookup-without id j w.store.state.sandboxes;
            revision = refl;
            healthy = without-Healthy id w.store.state.sandboxes;
            untouched = (refl, refl);
          }))
  ]

  -- Every request to the store has one of four outcomes: its input is invalid, its revision is stale,
  -- or its id is taken or missing, and then memory and disk are as they were; or the map from ids to
  -- sandboxes is changed at the id of the request only, as the request says, the revision moves on
  -- by one, and then the file is written.
  pub perform-Refines :
      (request : Request) (expected : ℕ) (w : World)
      → Refines request expected w (perform request expected w)
  unfolding perform create_config update_config delete_config update_time_of_day update_weather
      update_spawn_mode and_then
  perform-Refines (Request.create sandbox) expected w =
      guarded (Request.create sandbox) expected w _ (created sandbox expected w)
  perform-Refines (Request.update sandbox) expected w =
      guarded (Request.update sandbox) expected w _ (λ c e.
        changed (Request.update sandbox) expected w (λ _. sandbox) c e
          (record { same_id = λ found h. refl; sound = λ found h. c }) (λ found. refl)
          (λ found. refl) refl)
  perform-Refines (Request.delete id) expected w =
      guarded (Request.delete id) expected w (delete_entry id) (λ _. deleted id expected w)
  perform-Refines (Request.time_of_day id t) expected w =
      guarded (Request.time_of_day id t) expected w _ (λ c e.
        changed (Request.time_of_day id t) expected w _ c e
          (record { same_id = λ found h. h; sound = λ found. time_of_day-Sound found t })
          (λ found. refl) (λ found. refl) refl)
  perform-Refines (Request.weather id x) expected w =
      guarded (Request.weather id x) expected w _ (λ c e.
        changed (Request.weather id x) expected w _ c e
          (record { same_id = λ found h. h; sound = λ found. weather-Sound found x c })
          (λ found. refl) (λ found. refl) refl)
  perform-Refines (Request.spawn_mode id m) expected w =
      guarded (Request.spawn_mode id m) expected w _ (λ c e.
        changed (Request.spawn_mode id m) expected w _ c e
          (record { same_id = λ found h. h; sound = λ found. spawn_mode-Sound found m })
          (λ found. refl) (λ found. refl) refl)
