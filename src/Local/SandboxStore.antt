-- ===== src/Local/SandboxStore.antt =====
-- What the store of game-server/src/local/sandbox_config_store/store.rs promises its callers.
use hack_arena3_0_backend.Common.Action.{and_then}
use hack_arena3_0_backend.Common.{
  ℕ, ◌+◌, ◌<◌, ◌≡◌, refl, Bool, true, false, Option, none, some, String, Result, ok, err, fail_if,
  ◌>>◌, arith, ◌==◌, u64_max, sym, subst,
}
use hack_arena3_0_backend.Local.SandboxConfig.{
  StoreApi, Checked, invalid_config, LocalSandboxConfigStoreError,
  validate_local_sandbox_config_input, validate_local_weather_settings,
  validate_time_of_day_settings, validate_optional_ghost, validate_ghost_mode,
  LocalSandboxConfigInputRecord, LocalGhostModeSettingsRecord,
}
use hack_arena3_0_backend.Local.SandboxConfigStore.{FilesApi, World}
use hack_arena3_0_backend.Local.SandboxHealth.{Healthy}
use hack_arena3_0_backend.Local.SandboxRequests.{Request, check, refusal, Edited, perform}
use hack_arena3_0_backend.Local.SandboxEdits.{persist-store, written, Refines, perform-Refines}

module _ ⦃api : StoreApi⦄ ⦃files : FilesApi⦄ where
  pub written-store : (v : World) → (written v).1.store ≡ v.store
  unfolding and_then
  written-store v = ground (arith, persist-store v)

  Refines-Healthy :
      (request : Request) (expected : ℕ) (w : World)
      (out : Result LocalSandboxConfigStoreError ℕ × World)
      → Refines request expected w out
      → Healthy w.store.state.sandboxes
      → Healthy out.1.store.state.sandboxes
  Refines-Healthy request expected w _ (Refines.invalid c) h = h
  Refines-Healthy request expected w _ (Refines.stale c n) h = h
  Refines-Healthy request expected w _ (Refines.inapplicable c e n) h = h
  Refines-Healthy request expected w _ (Refines.applied {v = v} a) h =
      subst (λ store. Healthy store.state.sandboxes) (sym (written-store v)) (a.healthy h)

  -- In a store whose configurations all passed their validation and whose ids are distinct, this
  -- still holds after every request, refused, written to the file or not.
  pub perform-Healthy :
      (request : Request) (expected : ℕ) (w : World)
      → Healthy w.store.state.sandboxes
      → Healthy (perform request expected w).1.store.state.sandboxes
  perform-Healthy request expected w =
      Refines-Healthy request expected w _ (perform-Refines request expected w)

  -- An answer that is an error of the file system or of the serialiser.
  abbrev pub is_write_error : LocalSandboxConfigStoreError → Bool
  is_write_error (LocalSandboxConfigStoreError.io e) = true
  is_write_error (LocalSandboxConfigStoreError.serde e) = true
  is_write_error _ = false

  -- A check whose errors name what is wrong with the input.
  abbrev Plain : Checked → Type 0
  Plain r = (e : LocalSandboxConfigStoreError) → r ≡ err e → is_write_error e ≡ false

  Plain-fail : (b : Bool) (s : String) → Plain (fail_if b (invalid_config s))
  Plain-fail b s e h = ground (arith, h)

  Plain-both : (m k : Checked) → Plain m → Plain k → Plain (m >> k)
  Plain-both (ok tt) k p q e h = q e h
  Plain-both (err f) k p q e h = p e h

  then_fail :
      (m : Checked) (b : Bool) (s : String) → Plain m → Plain (m >> fail_if b (invalid_config s))
  then_fail m b s p = Plain-both m _ p (Plain-fail b s)

  Plain-ghost : (g : Option LocalGhostModeSettingsRecord) → Plain (validate_optional_ghost g)
  unfolding validate_optional_ghost validate_ghost_mode
  Plain-ghost none = λ e h. ground (arith, h)
  Plain-ghost (some g) = then_fail _ _ _ (
      then_fail _ _ _
        (then_fail _ _ _ (then_fail _ _ _ (then_fail _ _ _ (then_fail _ _ _ (Plain-fail _ _))))))

  Plain-config :
      (config : LocalSandboxConfigInputRecord) → Plain (validate_local_sandbox_config_input config)
  unfolding validate_local_sandbox_config_input validate_local_weather_settings
      validate_time_of_day_settings
  Plain-config config =
      Plain-both _ _
        (then_fail _ _ _
          (then_fail _ _ _ (then_fail _ _ _ (then_fail _ _ _ (then_fail _ _ _ (Plain-fail _ _))))))
        (Plain-ghost config.ghost_mode)

  invalid_input : (request : Request) → Plain (check request)
  unfolding validate_local_weather_settings
  invalid_input (Request.create sandbox) = Plain-config sandbox.config
  invalid_input (Request.update sandbox) = Plain-config sandbox.config
  invalid_input (Request.delete id) = λ e h. ground (arith, h)
  invalid_input (Request.time_of_day id t) = λ e h. ground (arith, h)
  invalid_input (Request.weather id x) = Plain-fail _ _
  invalid_input (Request.spawn_mode id m) = λ e h. ground (arith, h)

  plain_refusal : (request : Request) → is_write_error (refusal request) ≡ false
  plain_refusal (Request.create sandbox) = refl
  plain_refusal (Request.update sandbox) = refl
  plain_refusal (Request.delete id) = refl
  plain_refusal (Request.time_of_day id t) = refl
  plain_refusal (Request.weather id x) = refl
  plain_refusal (Request.spawn_mode id m) = refl

  -- A request with another revision than the one that stands is answered with an error and changes
  -- nothing.
  abbrev pub Refused : Request → ℕ → World → Type 0
  Refused request expected w =
      (e : LocalSandboxConfigStoreError) × (perform request expected w ≡ (err e, w))

  Refines-Refused :
      (request : Request) (expected : ℕ) (w : World)
      (out : Result LocalSandboxConfigStoreError ℕ × World)
      → (expected == w.store.state.revision) ≡ false
      → Refines request expected w out
      → (e : LocalSandboxConfigStoreError) × (out ≡ (err e, w))
  Refines-Refused request expected w _ n (Refines.invalid {e = e} c) = (e, refl)
  Refines-Refused request expected w _ n (Refines.stale c m) = (_, refl)
  Refines-Refused request expected w _ n (Refines.inapplicable c e m) = (_, refl)
  Refines-Refused request expected w _ n (Refines.applied a) = ground (arith, n, a.current)

  outdated :
      (request : Request) (expected : ℕ) (w : World)
      → (expected == w.store.state.revision) ≡ false
      → Refused request expected w
  outdated request expected w n =
      Refines-Refused request expected w _ n (perform-Refines request expected w)

  -- What a request leaves whose file could not be written.
  pub record Unsaved (request : Request) (expected : ℕ) (w t : World) : Type 0 where
    pub edited : Edited request w.store.state.sandboxes t.store.state.sandboxes
    pub moved : t.store.state.revision ≡ w.store.state.revision + 1
    pub retry : (again : Request) → Refused again expected t

  Refines-Unsaved :
      (request : Request) (expected : ℕ) (w : World)
      (out : Result LocalSandboxConfigStoreError ℕ × World)
      → Refines request expected w out
      → (e : LocalSandboxConfigStoreError) → out.0 ≡ err e
      → is_write_error e ≡ true
      → w.store.state.revision < u64_max
      → Unsaved request expected w out.1
  Refines-Unsaved request expected w _ (Refines.invalid {e = f} c) e h x l =
      ground (arith, h, x, invalid_input request f c)
  Refines-Unsaved request expected w _ (Refines.stale c n) e h x l = ground (arith, h, x)
  Refines-Unsaved request expected w _ (Refines.inapplicable c q n) e h x l =
      ground (arith, h, x, plain_refusal request)
  Refines-Unsaved request expected w _ (Refines.applied {v = v} a) e h x l =
      let moved : (written v).1.store.state.revision ≡ w.store.state.revision + 1 =
        ground (arith, written-store v, a.revision, l) in
      record {
        edited =
            subst (λ store. Edited request w.store.state.sandboxes store.state.sandboxes)
              (sym (written-store v)) a.edited;
        moved = moved;
        retry = λ again. outdated again expected _ (ground (arith, moved, a.current));
      }

  -- If the file cannot be written, the caller gets an error, but the change stands in memory and
  -- the revision has moved on, so that no request with the old revision is accepted.
  pub perform-Unsaved :
      (request : Request) (expected : ℕ) (w : World) (e : LocalSandboxConfigStoreError)
      → (perform request expected w).0 ≡ err e
      → is_write_error e ≡ true
      → w.store.state.revision < u64_max
      → Unsaved request expected w (perform request expected w).1
  perform-Unsaved request expected w =
      Refines-Unsaved request expected w _ (perform-Refines request expected w)
