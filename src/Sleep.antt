-- ===== src/Sleep.antt =====
-- include/tang/sleep.h, and `task<void>::sleep` of include/tang/task.h. A sleep is a thread of its own
-- that schedules the coroutine. Times are nanoseconds of the steady clock.
pub mod Early
pub mod Coroutine
use tang.Prelude.{
  ℕ, zero, suc, ◌+◌, ◌*◌, Bool, true, false, Option, none, some, List, [], ◌∷◌, ◌++◌, ltb, leb,
  if◌then◌else◌,
}
use tang.Channel.Runtime.{Runtime, schedule}
use tang.EventLoop.Defs.{nanos_per_milli}

-- A thread that sleeps until `wake_time`, and then schedules `continuation`.
pub record Sleeper : Type 0 where
  pub wake_time : ℕ
  pub continuation : ℕ

-- The runtime, and the threads that sleep.
pub record Night {ℓ} (W : Type ℓ) : Type ℓ where
  pub world : W
  pub sleepers : List Sleeper

module _ {ℓ} {W : Type ℓ} where
  -- `await_suspend` in `sleep`, at the time `now` for a time in milliseconds.
  unfoldable pub await_suspend : ℕ → ℕ → ℕ → Night W → Night W
  await_suspend now duration h n = record n {
    sleepers =
        n.sleepers
        ++ (record { wake_time = now + duration * nanos_per_milli; continuation = h }) ∷ [];
  }

module _ {ℓ} {W : Type ℓ} ⦃rt : Runtime W⦄ where
  -- The thread `s` wakes up, one of those that sleep.
  unfoldable pub wake : List Sleeper → Sleeper → List Sleeper → Night W → Night W
  wake before s after n = record {
    world = schedule s.continuation n.world;
    sleepers = before ++ after;
  }
