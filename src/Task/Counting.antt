-- ===== src/Task/Counting.antt =====
-- How include/tang/task.h counts tasks in `active_tasks_`.
use tang.Prelude.{ℕ, ◌+◌, ◌^◌, ◌<◌, ◌≡◌, ◌≢◌, ap, some, [], ◌∷◌, ◌++◌, arith}
use tang.Scheduler.Defs.{suspended, finished, destroyed, Scheduler}
use tang.Scheduler.Ops
use tang.Scheduler.Global
use tang.Scheduler.Global.{Global}
use tang.Task.Defs.{Task, Promises, Destructor, run, run_void, drop}
use tang.Task.Ownership.{drop_destroys}

module _ {ℓ} {R : Type ℓ} ⦃d : Destructor R⦄ (hardware : ℕ) where
  -- `run` of a coroutine that has not ended queues it once. A `task<T>` counts it twice, since
  -- `schedule` counts what `run` has counted already; a `task<void>` counts it once.
  run_counts :
      (t : Task) (g : Global (Promises R)) (c : Scheduler)
      → t.handle ≢ 0
      → g.frame t.handle ≡ suspended
      → g.g_scheduler ≡ some c
      → c.active_tasks + 2 < 2 ^ 31
      → ((run hardware t g).1.g_scheduler
          ≡ some (record c {
            task_queue = c.task_queue ++ t.handle ∷ [];
            active_tasks = c.active_tasks + 2;
          }))
        × ((run_void hardware t g).1.g_scheduler
            ≡ some (record c {
              task_queue = c.task_queue ++ t.handle ∷ [];
              active_tasks = c.active_tasks + 1;
            }))
  unfolding run run_void Global.schedule Global.task_started Ops.schedule Ops.task_started
  run_counts t g c n f s b = (ground arith, ground arith)

  -- `run` of a coroutine that has ended, which nobody counted, takes one from the counter: with one
  -- other task counted and queued, the counter says that no task is active while the queue holds it.
  pub run_uncounted :
      (t : Task) (g : Global (Promises R)) (c : Scheduler) (k : ℕ)
      → t.handle ≢ 0
      → g.frame t.handle ≡ finished
      → g.g_scheduler ≡ some c
      → c.task_queue ≡ k ∷ []
      → c.active_tasks ≡ 1
      → (run hardware t g).1.g_scheduler ≡ some (record c { active_tasks = 0 })
  unfolding run Global.task_completed Ops.task_completed
  run_uncounted t g c k n f s q a = ground arith

  run_live :
      (t : Task) (g : Global (Promises R)) (c : Scheduler)
      → t.handle ≢ 0
      → g.frame t.handle ≡ suspended
      → g.g_scheduler ≡ some c
      → c.active_tasks + 2 < 2 ^ 31
      → run hardware t g ≡ (
        t,
        record g {
          g_scheduler = some (record c {
            task_queue = c.task_queue ++ t.handle ∷ [];
            active_tasks = c.active_tasks + 2;
          });
        },
      )
  unfolding run Global.schedule Global.task_started Ops.schedule Ops.task_started
  run_live t g c n f s b = ground arith

  -- A task whose coroutine is suspended is run and then goes out of scope: the handle is the last one
  -- in the queue, but its frame is destroyed.
  pub run_dropped :
      (t : Task) (g : Global (Promises R)) (c : Scheduler)
      → t.handle ≢ 0
      → g.frame t.handle ≡ suspended
      → g.g_scheduler ≡ some c
      → c.active_tasks + 2 < 2 ^ 31
      → let r = run hardware t g in
        (Global.pending (drop r.0 r.1) ≡ c.task_queue ++ t.handle ∷ [])
        × ((drop r.0 r.1).frame t.handle ≡ destroyed)
  unfolding drop Global.pending
  run_dropped t g c n f s b =
      let r = run hardware t g in
      (
        rw (run_live t g c n f s b) (ground arith),
        rw (ap (λ (x : Task × Global (Promises R)). x.0) (run_live t g c n f s b))
            (drop_destroys t r.1 n),
      )
