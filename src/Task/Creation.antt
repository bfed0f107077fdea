-- ===== src/Task/Creation.antt =====
-- How a coroutine of include/tang/task.h comes to be, and `go` and `spawn`. The address of the new
-- frame is a parameter.
use tang.Prelude.{ℕ, ◌≡◌, none, update, ◌==◌, if◌then◌else◌, arith}
use tang.Scheduler.Defs.{Frame, suspended, finished, destroyed}
use tang.Scheduler.Global.{Global}
use tang.Task.Defs.{
  Task, Promise, Promises, Destructor, return_value, unhandled_exception, run, run_void,
}

-- How a function ends: it returns, or an exception leaves it.
pub data Outcome {ℓ} (R : Type ℓ) : Type ℓ where
  returns : R → Outcome R
  throws : ℕ → Outcome R

-- `get_return_object`.
abbrev pub get_return_object : ℕ → Task
get_return_object h = record { handle = h }

-- A function that is called, on the runtime and the rest `V` of the program.
abbrev pub Function {ℓ} : Type ℓ → Type ℓ → Type ℓ → Type ℓ
Function V R Q = Global (Promises R) × V → (Global (Promises R) × V) × Outcome Q

module _ {ℓ} {R : Type ℓ} where
  abbrev pub promise : Promise R
  promise = record { result = none; exception = none; continuation = none }

  -- A new frame. `initial_suspend` never suspends, so its body is run at once.
  abbrev pub begin : ℕ → Global (Promises R) → Global (Promises R)
  begin h g = record g { frame = update g.frame h suspended; user = update g.user h promise }

  -- `final_suspend` always suspends.
  abbrev pub final_suspend : ℕ → Global (Promises R) → Global (Promises R)
  final_suspend h g = record g { frame = update g.frame h finished }

  -- The end of a coroutine with `return_value`, and of one with `return_void`.
  unfoldable pub settle : ℕ → Outcome R → Global (Promises R) → Global (Promises R)
  settle h (returns r) g = final_suspend h (return_value h r g)
  settle h (throws e) g = final_suspend h (unhandled_exception h e g)

  unfoldable pub settle_void :
      {Q : Type ℓ} → ℕ → Outcome Q → Global (Promises R) → Global (Promises R)
  settle_void h (returns q) g = final_suspend h g
  settle_void h (throws e) g = final_suspend h (unhandled_exception h e g)

  -- The coroutine `go_helper<R>::create`: its body calls the function and returns what it returns.
  unfoldable pub create :
      {V : Type ℓ} → ℕ → Function V R R → Global (Promises R) × V → Task × Global (Promises R) × V
  create h f (g, v) = let r = f (begin h g, v) in (get_return_object h, settle h r.1 r.0.0, r.0.1)

  -- `go_helper<void>::create`.
  unfoldable pub create_void :
      {V Q : Type ℓ} → ℕ → Function V R Q → Global (Promises R) × V → Task × Global (Promises R) × V
  create_void h f (g, v) =
      let r = f (begin h g, v) in (get_return_object h, settle_void h r.1 r.0.0, r.0.1)

  -- `go` and `spawn` of a function without a result.
  unfoldable pub go_void :
      {V Q : Type ℓ}
      → ℕ
      → ℕ
      → Function V R Q
      → Global (Promises R) × V
      → Task × Global (Promises R) × V
  unfolding create_void
  go_void hardware h f s =
      let (t, g, v) = create_void h f s in let (t', g') = run_void hardware t g in (t', g', v)

-- `~task` of a `task<void>`, on the frames.
unfoldable pub release_task : Task → (ℕ → Frame) → ℕ → Frame
release_task t f = if t.handle == 0 then f else update f t.handle destroyed

pub release_task-destroyed :
    (t : Task) (f : ℕ → Frame) (h : ℕ) → f h ≡ destroyed → release_task t f h ≡ destroyed
unfolding release_task
release_task-destroyed t f h e = ground arith

-- A result that is itself a task: its destructor destroys the coroutine that it owns.
instance abbrev pub task_destructor : Destructor Task
task_destructor = record { release = release_task; keeps_destroyed = release_task-destroyed }

-- A result of a type whose destructor does nothing to coroutines.
abbrev pub plain_destructor {ℓ} : {R : Type ℓ} → Destructor R
plain_destructor = record { release = λ r f. f; keeps_destroyed = λ r f h e. e }

module _ {ℓ} {R : Type ℓ} ⦃d : Destructor R⦄ where
  -- `go` and `spawn` of a function with a result.
  unfoldable pub go :
      {V : Type ℓ}
      → ℕ
      → ℕ
      → Function V R R
      → Global (Promises R) × V
      → Task × Global (Promises R) × V
  unfolding create
  go hardware h f s = let (t, g, v) = create h f s in let (t', g') = run hardware t g in (t', g', v)
