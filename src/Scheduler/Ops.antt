-- ===== src/Scheduler/Ops.antt =====
-- The methods of `scheduler` that move tasks, in src/runtime.cpp.
use tang.Prelude.{
  ℕ, ◌-◌, Bool, ◌&&◌, Option, none, some, List, [], ◌∷◌, ◌++◌, ◌==◌, if◌then◌else◌, is_nil,
}
use tang.Scheduler.Defs.{Scheduler, Machine, Program, is_positive, int_inc, is_finished}

module _ {ℓ} {U : Type ℓ} where
  abbrev pub set_sched : Scheduler → Machine U → Machine U
  set_sched c m = record m { sched = c }

  -- `handle.done()`.
  abbrev pub done : ℕ → Machine U → Bool
  done h m = is_finished (m.frame h)

  unfoldable pub task_started : Machine U → Machine U
  task_started m = set_sched (record (m.sched) { active_tasks = int_inc m.active_tasks }) m

  unfoldable pub task_completed : Machine U → Machine U
  task_completed m =
      if is_positive m.active_tasks
      then set_sched (record (m.sched) { active_tasks = m.active_tasks - 1 }) m
      else m

  abbrev pub push : ℕ → Machine U → Machine U
  push h m = set_sched (record (m.sched) { task_queue = m.task_queue ++ h ∷ [] }) m

  -- `scheduler::schedule`.
  unfoldable pub schedule : ℕ → Machine U → Machine U
  unfolding task_started
  schedule h m = if h == 0 then m else if done h m then m else push h (task_started m)

  -- Take the front of the queue under its lock; `none` is the null handle, which is what there is to
  -- run when the queue is empty.
  unfoldable pub pop_front : List ℕ → Machine U → Machine U × Option ℕ
  pop_front [] m = (m, none)
  pop_front (h ∷ hs) m =
      (set_sched (record (m.sched) { task_queue = hs }) m, if h == 0 then none else some h)

  unfoldable pub pop : Machine U → Machine U × Option ℕ
  unfolding pop_front
  pop m = pop_front m.task_queue m

  -- What the loop does after `resume` with what `resume` gave.
  unfoldable pub after_resume : ℕ → Machine U × Bool → Machine U
  unfolding task_completed schedule
  after_resume h (m, threw) =
      if threw then task_completed m else if done h m then task_completed m else schedule h m

  -- The treatment of a handle taken from the queue, the same in the worker threads' loop and in
  -- that of the main thread.
  unfoldable pub run_handle : Program U → ℕ → Machine U → Machine U
  unfolding task_completed after_resume
  run_handle resume h m =
      if done h m
      then task_completed m
      else if h == 0
      then task_completed m
      else after_resume h (resume h m)

  -- `scheduler::is_completed`.
  abbrev pub is_completed : Machine U → Bool
  is_completed m = is_nil m.task_queue

  -- The predicate that `wait_for_completion` and the end of `run` wait for.
  abbrev pub all_completed : Machine U → Bool
  all_completed m = m.active_tasks == 0 && is_nil m.task_queue
