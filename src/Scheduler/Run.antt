-- ===== src/Scheduler/Run.antt =====
-- `scheduler::run` in src/runtime.cpp, as a whole.
use tang.Prelude.{
  ℕ, zero, suc, ◌+◌, ◌⊎◌, ◌<◌, ◌≡◌, refl, Bool, true, false, Option, none, some, if◌then◌else◌,
  arith, inl,
}
use tang.Scheduler.Defs.{Machine, Program}
use tang.Scheduler.Ops.{all_completed, set_sched}
use tang.Scheduler.Loop.{init, spawn, main_loop, extended_wait}

-- What the worker threads do beside the main thread: in its main loop, in the extended wait, and in
-- the last wait for completion.
pub record Workers {ℓ} (U : Type ℓ) : Type ℓ where
  pub in_loop : ℕ → Machine U → Machine U
  pub in_wait : ℕ → Machine U → Machine U
  pub at_end : Machine U → Machine U

-- How `run` ends: out of fuel, by an exception of `init`, or with `all_completed`.
pub data Outcome {ℓ} (U : Type ℓ) : Type ℓ where
  unfinished : Outcome U
  threw : Machine U → Outcome U
  ran : Machine U → Bool → Outcome U

module _ {ℓ} {U : Type ℓ} where
  unfoldable pub run_loops : ℕ → Program U → Workers U → Option (Machine U) → Outcome U
  run_loops fuel resume ws none = unfinished
  run_loops fuel resume ws (some m) =
      let t = ws.at_end (extended_wait 100 resume ws.in_wait 0 m) in ran t (all_completed t)

  unfoldable pub run : ℕ → Program U → (ℕ → Bool) → Workers U → Machine U → Outcome U
  unfolding run_loops
  run fuel resume can_spawn ws m =
      let (t, failed) = init can_spawn m in
      if failed
      then threw t
      else run_loops fuel resume ws (
          main_loop fuel resume ws.in_loop 0
            (record { last_active_tasks = 0; no_progress_count = 0 }) t)

  -- All threads made; or an exception, with fewer threads and the scheduler marked as stopped.
  abbrev pub Spawns : ℕ → Machine U → Machine U × Bool → Type 0
  Spawns n m r =
      (r.0.task_queue ≡ m.task_queue)
      × (((r.1 ≡ false) × (r.0.threads ≡ m.threads + n) × (r.0.running ≡ m.running))
          ⊎ ((r.1 ≡ true) × (r.0.threads < m.threads + n) × (r.0.running ≡ false)))

  spawn-Spawns :
      (can_spawn : ℕ → Bool) (n i : ℕ) (m : Machine U) → Spawns n m (spawn can_spawn n i m)
  unfolding spawn
  spawn-Spawns can_spawn zero i m = (refl, inl (refl, omega arith, refl))
  spawn-Spawns can_spawn (suc n) i m = ground (
    arith,
    spawn-Spawns can_spawn n (i + 1) (set_sched (record (m.sched) { threads = m.threads + 1 }) m),
  )

  -- `init` on a scheduler that is not running either makes `capacity` worker threads and marks it as
  -- running, or fails with an exception at the first thread that cannot be made and marks it as
  -- stopped. The queue stays as it is.
  pub init_lem :
      (can_spawn : ℕ → Bool) (m : Machine U)
      → m.running ≡ false
      → ((init can_spawn m).0.task_queue ≡ m.task_queue)
        × ((((init can_spawn m).1 ≡ false)
              × ((init can_spawn m).0.threads ≡ m.threads + m.capacity)
              × ((init can_spawn m).0.running ≡ true))
            ⊎ (((init can_spawn m).1 ≡ true)
                × ((init can_spawn m).0.threads < m.threads + m.capacity)
                × ((init can_spawn m).0.running ≡ false)))
  unfolding init
  init_lem can_spawn m e =
      rw (e, init)
        (spawn-Spawns can_spawn m.capacity 0 (set_sched (record (m.sched) { running = true }) m))
