-- ===== src/Sleep/Early.antt =====
-- A coroutine that sleeps by include/tang/sleep.h under the loops of src/runtime.cpp.
use tang.Prelude.{ℕ, ◌+◌, ◌*◌, ◌≡◌, ◌≢◌, refl, false, List, [], ◌∷◌, ◌++◌, append_assoc, arith}
use tang.EventLoop.Defs.{nanos_per_milli}
use tang.Scheduler.Defs.{suspended, Machine, Program}
use tang.Scheduler.Ops.{schedule, run_handle}
use tang.Waiting.{machine_runtime}
use tang.Sleep.{Sleeper, await_suspend, wake}

abbrev pub sleeper : ℕ → ℕ → ℕ → Sleeper
sleeper now duration h = record { wake_time = now + duration * nanos_per_milli; continuation = h }

module _ {ℓ} {U : Type ℓ} where
  -- A coroutine `h` that is run, does what takes the machine to `n`, and then sleeps, is queued at once
  -- by the loop that ran it, while the thread that is to wake it still sleeps. If it is still suspended
  -- and queued when that thread wakes up, it is queued a second time.
  slept_early :
      (resume : Program U) (h now duration : ℕ) (m n : Machine U) (ss : List Sleeper)
      → h ≢ 0
      → m.frame h ≡ suspended
      → n.frame h ≡ suspended
      → resume h m ≡ (n, false)
      → let s = await_suspend now duration h (record { world = n; sleepers = ss }) in
        let r = run_handle resume h m in
        (s.sleepers ≡ ss ++ sleeper now duration h ∷ [])
        × (r.task_queue ≡ s.world.task_queue ++ h ∷ [])
        × ((wake ss (sleeper now duration h) [] (record s { world = r })).world.task_queue
            ≡ s.world.task_queue ++ (h ∷ h ∷ []))
  unfolding run_handle await_suspend wake schedule
  slept_early resume h now duration m n ss z f f' r =
      (refl, ground arith, ground (arith, append_assoc n.task_queue (h ∷ []) (h ∷ [])))
