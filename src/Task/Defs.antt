-- ===== src/Task/Defs.antt =====
-- `task<T>` and `task<void>` of include/tang/task.h over the runtime of src/runtime.cpp. How a
-- coroutine starts and ends is in Task/Creation.
use tang.Prelude.{ℕ, ◌≡◌, Bool, not, ◌||◌, ◌&&◌, Option, none, some, ◌==◌, if◌then◌else◌, update}
use tang.Scheduler.Defs.{Frame, destroyed, is_finished}
use tang.Scheduler.Global
use tang.Scheduler.Global.{Global}

-- `promise_type`; an exception is named by a number.
pub record Promise {ℓ} (R : Type ℓ) : Type ℓ where
  pub result : Option R
  pub exception : Option ℕ
  pub continuation : Option ℕ

-- The promises by the address of their coroutine.
abbrev pub Promises {ℓ} : Type ℓ → Type ℓ
Promises R = ℕ → Promise R

-- `task`: the coroutine that it owns, or 0.
pub record Task : Type 0 where
  pub handle : ℕ

-- How `co_await task` goes on; `undefined` is a read of an empty `std::optional`.
pub data Awaited {ℓ} (R : Type ℓ) : Type ℓ where
  returned : R → Awaited R
  rethrown : ℕ → Awaited R
  logic_error : Awaited R
  undefined : Awaited R

-- The destructor of a result type, as what it does to the frames of coroutines: it can destroy some,
-- and brings none back.
pub record Destructor {ℓ} (R : Type ℓ) : Type ℓ where
  pub release : R → (ℕ → Frame) → ℕ → Frame
  pub keeps_destroyed :
      (r : R) (f : ℕ → Frame) (h : ℕ) → f h ≡ destroyed → release r f h ≡ destroyed

-- `task(task&& other)`: the new task and what is left of the other.
unfoldable pub move : Task → Task × Task
move other = (record { handle = other.handle }, record { handle = 0 })

module _ {ℓ} {R : Type ℓ} where
  abbrev pub done : ℕ → Global (Promises R) → Bool
  done h g = is_finished (g.frame h)

  -- `handle.destroy()` of a `task<void>`, whose promise has nothing to destroy.
  abbrev pub destroy_void : ℕ → Global (Promises R) → Global (Promises R)
  destroy_void h g = record g { frame = update g.frame h destroyed }

  -- The destructor of a `task<void>`.
  unfoldable pub drop_void : Task → Global (Promises R) → Global (Promises R)
  drop_void t g = if t.handle == 0 then g else destroy_void t.handle g

module _ {ℓ} {R : Type ℓ} ⦃d : Destructor R⦄ where
  unfoldable pub release_result : Option R → (ℕ → Frame) → ℕ → Frame
  release_result none f = f
  release_result (some r) f = d.release r f

  -- `handle.destroy()`, which destroys the promise and the result in it.
  abbrev pub destroy : ℕ → Global (Promises R) → Global (Promises R)
  destroy h g = record g { frame = release_result (g.user h).result (update g.frame h destroyed) }

  -- The destructor.
  unfoldable pub drop : Task → Global (Promises R) → Global (Promises R)
  drop t g = if t.handle == 0 then g else destroy t.handle g

  -- `operator=(task&& other)` on another task than `other`: this task, the other, the frames.
  unfoldable pub assign : Task → Task → Global (Promises R) → Task × Task × Global (Promises R)
  assign this other g = (
    record { handle = other.handle },
    record { handle = 0 },
    if this.handle == 0 then g else destroy this.handle g,
  )

module _ {ℓ} {R : Type ℓ} where
  unfoldable pub await_ready : Task → Global (Promises R) → Bool
  await_ready t g = t.handle == 0 || done t.handle g

  unfoldable pub resume_with : Promise R → Awaited R
  resume_with p = elim (p.exception) [
    | some e ↦ rethrown e
    | none ↦ elim (p.result) [ some r ↦ returned r | none ↦ undefined ]
  ]

  unfoldable pub await_resume : Task → Global (Promises R) → Awaited R
  unfolding resume_with
  await_resume t g = if t.handle == 0 then logic_error else resume_with (g.user t.handle)

  -- `await_resume` of a `task<void>`, whose promise has no result.
  unfoldable pub await_resume_void : Task → Global (Promises R) → Awaited (Unit {0})
  await_resume_void t g =
      if t.handle == 0
      then logic_error
      else elim ((g.user t.handle).exception) [ some e ↦ rethrown e | none ↦ returned tt ]

  -- `operator bool`.
  unfoldable pub operator_bool : Task → Global (Promises R) → Bool
  operator_bool t g = not (t.handle == 0) && not (done t.handle g)

  -- `return_value` and `unhandled_exception`.
  unfoldable pub return_value : ℕ → R → Global (Promises R) → Global (Promises R)
  return_value h r g = record g { user = update g.user h (record (g.user h) { result = some r }) }

  unfoldable pub unhandled_exception : ℕ → ℕ → Global (Promises R) → Global (Promises R)
  unhandled_exception h e g = record g {
    user = update g.user h (record (g.user h) { exception = some e });
  }

module _ {ℓ} {R : Type ℓ} (hardware : ℕ) where
  unfoldable pub await_suspend : Task → ℕ → Global (Promises R) → Global (Promises R)
  await_suspend t continuation g = Global.schedule hardware t.handle (record g {
    user = update g.user t.handle (record (g.user t.handle) { continuation = some continuation });
  })

  abbrev pub run_done_void : Task → Global (Promises R) → Task × Global (Promises R)
  run_done_void t g =
      (record { handle = 0 }, destroy_void t.handle (Global.task_completed hardware g))

  -- `task<void>::run`.
  unfoldable pub run_void : Task → Global (Promises R) → Task × Global (Promises R)
  run_void t g =
      if t.handle == 0
      then (t, g)
      else if done t.handle g
      then run_done_void t g
      else (t, Global.schedule hardware t.handle g)

module _ {ℓ} {R : Type ℓ} ⦃d : Destructor R⦄ (hardware : ℕ) where
  -- The branch of `run` for a coroutine that has ended.
  abbrev pub run_done : Task → Global (Promises R) → Task × Global (Promises R)
  run_done t g = (record { handle = 0 }, destroy t.handle (Global.task_completed hardware g))

  -- `task<T>::run`.
  unfoldable pub run : Task → Global (Promises R) → Task × Global (Promises R)
  run t g =
      if t.handle == 0
      then (t, g)
      else if done t.handle g
      then run_done t g
      else (t, Global.schedule hardware t.handle (Global.task_started hardware g))
