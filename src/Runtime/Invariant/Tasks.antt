-- ===== src/Runtime/Invariant/Tasks.antt =====
-- The step tasks of game-server/src/runtime/engine_worker.rs: each spawned loop that is not aborted
-- belongs to one world, and each world has its loop.
use hack_arena3_0_backend.Common.{◌≡◌, refl, ◌∷◌, Option, some, String, arith, ℕ, suc, ◌+◌, ◌≤◌}
use hack_arena3_0_backend.Runtime.Model.{
  EngineActivityKind, EngineApi, EngineRuntimeTimeOfDayPreset, EngineWorldSlot, SandboxEngineHandle,
  Worker,
}
use hack_arena3_0_backend.Runtime.State.{
  drain_sandbox_engines, insert_sandbox_engine, insert_local_race_engine, remove_sandbox_engine,
  remove_local_race_engine, abort_entry,
}
use hack_arena3_0_backend.Runtime.Sandbox.{leave_sandbox_runtime}
use hack_arena3_0_backend.Runtime.Commands.{put_local_slot, put_sandbox_slot}
use hack_arena3_0_backend.Runtime.Steps.{
  switched, sandbox_started, sandbox_stopped, preset_changed, scheduled, weather_changed,
  race_started, race_stopped, Step,
}
use hack_arena3_0_backend.Common.Dict
use hack_arena3_0_backend.Common.Dict.{Dict, string_eq}
use hack_arena3_0_backend.Runtime.Counts.{
  count, tasks, count-abort_entry, count-abort_all, count-remove, count-insert, count-put,
}

module _ ⦃api : EngineApi⦄ where
  -- `running` lists the tasks of the two tables, each once, and all below `next_task`.
  pub record Tasks (w : Worker) : Type 0 where
    pub owned :
        (t : ℕ)
        → count t w.running
          ≡ count t (tasks w.sandbox_engines) + count t (tasks w.local_race_engines)
    pub fresh : (t : ℕ) → w.next_task ≤ t → count t w.running ≡ 0
    pub single : (t : ℕ) → count t w.running ≤ 1

  -- The same worlds' tasks with some aborted, or under new slots.
  kept :
      (v w : Worker)
      → w.next_task ≡ v.next_task
      → ((t : ℕ) → count t w.running ≤ count t v.running)
      → ((t : ℕ)
          → count t w.running
            ≡ count t (tasks w.sandbox_engines) + count t (tasks w.local_race_engines))
      → Tasks v
      → Tasks w
  kept v w n le o k = record {
    owned = o;
    fresh = λ t h. omega (arith, le t, k.fresh t (omega arith));
    single = λ t. omega (arith, le t, k.single t);
  }

  switched-Tasks :
      (kind : EngineActivityKind) (official : Option EngineWorldSlot) (map_id : String)
      (preset : EngineRuntimeTimeOfDayPreset) (v : Worker)
      → Tasks v
      → Tasks (switched kind official map_id preset v)
  unfolding switched drain_sandbox_engines
  switched-Tasks kind official map_id preset v k =
      kept v _ refl (λ t. omega (arith, count-abort_all t v.sandbox_engines v.running))
        (λ t. omega (arith, count-abort_all t v.sandbox_engines v.running, k.owned t)) k

  removed-Tasks : (id : String) (v : Worker) → Tasks v → Tasks (remove_sandbox_engine id v)
  unfolding remove_sandbox_engine
  removed-Tasks id v k =
      kept v _ refl
        (λ t. omega (arith, count-abort_entry t (Dict.get id v.sandbox_engines) v.running))
        (λ t. omega (
          arith,
          count-abort_entry t (Dict.get id v.sandbox_engines) v.running,
          count-remove t id v.sandbox_engines,
          k.owned t,
        ))
        k

  removed_race-Tasks : (id : String) (v : Worker) → Tasks v → Tasks (remove_local_race_engine id v)
  unfolding remove_local_race_engine
  removed_race-Tasks id v k =
      kept v _ refl
        (λ t. omega (arith, count-abort_entry t (Dict.get id v.local_race_engines) v.running))
        (λ t. omega (
          arith,
          count-abort_entry t (Dict.get id v.local_race_engines) v.running,
          count-remove t id v.local_race_engines,
          k.owned t,
        ))
        k

  -- The new task is counted once, and takes the place of the one that its entry had.
  spawned-Tasks :
      (v w : Worker) (o : Option SandboxEngineHandle)
      → w.next_task ≡ suc v.next_task
      → w.running ≡ abort_entry o (v.next_task ∷ v.running)
      → ((t : ℕ)
          → count t w.running
            ≡ count t (tasks w.sandbox_engines) + count t (tasks w.local_race_engines))
      → Tasks v
      → Tasks w
  spawned-Tasks v w o n e ow k = record {
    owned = ow;
    fresh = λ t h.
        ground (arith, count-abort_entry t o (v.next_task ∷ v.running), k.fresh t (omega arith));
    single = λ t. ground (
      arith,
      count-abort_entry t o (v.next_task ∷ v.running),
      k.fresh v.next_task (omega arith),
      k.single t,
    );
  }

  sandbox_started-Tasks :
      (id map_id : String) (preset : EngineRuntimeTimeOfDayPreset) (slot : EngineWorldSlot)
      (v : Worker)
      → Tasks v
      → Tasks (sandbox_started id map_id preset slot v)
  unfolding sandbox_started insert_sandbox_engine
  sandbox_started-Tasks id map_id preset slot v k =
      let h : SandboxEngineHandle = record { slot = slot; step_task = v.next_task } in
      spawned-Tasks v _ (Dict.get id v.sandbox_engines) refl refl
        (λ t. omega (
          arith,
          count-abort_entry t (Dict.get id v.sandbox_engines) (v.next_task ∷ v.running),
          count-insert t id h v.sandbox_engines,
          count-remove t id v.sandbox_engines,
          k.owned t,
        ))
        k

  race_started-Tasks :
      (race_id map_id : String) (preset : EngineRuntimeTimeOfDayPreset) (slot : EngineWorldSlot)
      (v : Worker)
      → Tasks v
      → Tasks (race_started race_id map_id preset slot v)
  unfolding race_started insert_local_race_engine
  race_started-Tasks race_id map_id preset slot v k =
      let h : SandboxEngineHandle = record { slot = slot; step_task = v.next_task } in
      spawned-Tasks v _ (Dict.get race_id v.local_race_engines) refl refl
        (λ t. omega (
          arith,
          count-abort_entry t (Dict.get race_id v.local_race_engines) (v.next_task ∷ v.running),
          count-insert t race_id h v.local_race_engines,
          count-remove t race_id v.local_race_engines,
          k.owned t,
        ))
        k

  -- What the runtime state and the official world are does not matter.
  same-Tasks :
      (v w : Worker)
      → w.next_task ≡ v.next_task
      → w.running ≡ v.running
      → w.sandbox_engines ≡ v.sandbox_engines
      → w.local_race_engines ≡ v.local_race_engines
      → Tasks v
      → Tasks w
  same-Tasks v w n r s l k = kept v w n (λ t. ground arith) (λ t. ground (arith, k.owned t)) k

  left-Tasks : (v : Worker) → Tasks v → Tasks (leave_sandbox_runtime v)
  unfolding leave_sandbox_runtime
  left-Tasks v k = same-Tasks v _ (ground arith) (ground arith) (ground arith) (ground arith) k

  pub Step-Tasks : (v w : Worker) → Step v w → Tasks v → Tasks w
  unfolding sandbox_stopped preset_changed scheduled weather_changed race_stopped put_local_slot
      put_sandbox_slot remove_sandbox_engine remove_local_race_engine
  Step-Tasks v w (Step.to_none map_id preset e) k = rw e (switched-Tasks _ _ map_id preset v k)
  Step-Tasks v w (Step.to_official map_id preset slot e) k =
      rw e (switched-Tasks _ (some slot) map_id preset v k)
  Step-Tasks v w (Step.start_sandbox id map_id preset slot filled given fresh e) k =
      rw e (sandbox_started-Tasks id map_id preset slot v k)
  Step-Tasks v w (Step.stop_sandbox id e) k = rw e (
      same-Tasks (leave_sandbox_runtime _) _ refl refl refl refl (
        left-Tasks _
          (same-Tasks (remove_sandbox_engine id v) _ refl refl refl refl (removed-Tasks id v k))))
  Step-Tasks v w (Step.change_preset id preset given active e) k =
      rw e (same-Tasks v _ refl refl refl refl k)
  Step-Tasks v w (Step.change_weather id now e) k = rw e (same-Tasks v _ refl refl refl refl k)
  Step-Tasks v w (Step.schedule p payload e) k = rw e (same-Tasks v _ refl refl refl refl k)
  Step-Tasks v w (Step.forget id e) k = rw e (same-Tasks v _ refl refl refl refl k)
  Step-Tasks v w (Step.start_race race_id map_id preset slot filled given idle e) k =
      rw e (race_started-Tasks race_id map_id preset slot v k)
  Step-Tasks v w (Step.stop_race race_id matches e) k = rw e (
      same-Tasks (remove_local_race_engine race_id v) _ refl refl refl refl
        (removed_race-Tasks race_id v k))
  Step-Tasks v w (Step.bump_state e) k = rw e (same-Tasks v _ refl refl refl refl k)
  Step-Tasks v w (Step.use_official old slot o e) k = rw e (same-Tasks v _ refl refl refl refl k)
  Step-Tasks v w (Step.use_sandbox id handle slot g e) k = rw e (
      kept v _ refl (λ t. omega arith)
        (λ t. omega (arith, count-put t id handle slot v.sandbox_engines g, k.owned t)) k)
  Step-Tasks v w (Step.use_race id handle slot g e) k = rw e (
      kept v _ refl (λ t. omega arith)
        (λ t. omega (arith, count-put t id handle slot v.local_race_engines g, k.owned t)) k)
