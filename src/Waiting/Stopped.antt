-- ===== src/Waiting/Stopped.antt =====
-- A coroutine that yields (include/tang/runtime.h) and a scheduler that is stopped (src/runtime.cpp).
use tang.Prelude.{ℕ, ◌+◌, ◌^◌, ◌<◌, ◌≡◌, ◌≢◌, ap, false, [], ◌∷◌, ◌++◌, arith}
use tang.Scheduler.Defs.{suspended, Machine, Program, is_finished}
use tang.Scheduler.Ops
use tang.Scheduler.Ops.{run_handle}
use tang.Scheduler.Stop.{signal_stop, is_defined, stop_twice}
use tang.Waiting.{yield_suspend, yield_twice}

module _ {ℓ} {U : Type ℓ} where
  run_handle-frame :
      (resume : Program U) (h : ℕ) (m n : Machine U)
      → h ≢ 0
      → m.frame h ≡ suspended
      → resume h m ≡ (yield_suspend h n, false)
      → n.frame h ≡ suspended
      → (run_handle resume h m).frame h ≡ suspended
  unfolding run_handle yield_suspend Ops.schedule
  run_handle-frame resume h m n z f r f' = ground arith

  -- A coroutine `h` that is run, does what takes the machine to `n`, and then yields, is queued twice,
  -- once by `yield` and once by the loop that ran it, and counted twice. If a scheduler that runs is
  -- stopped then, and the workers do nothing more, the loop of `stop` that destroys the queued coroutines
  -- is undefined: it looks at the frame that it has destroyed.
  pub yield_stopped :
      (resume : Program U) (h : ℕ) (m n : Machine U)
      → h ≢ 0
      → m.frame h ≡ suspended
      → resume h m ≡ (yield_suspend h n, false)
      → n.frame h ≡ suspended
      → n.active_tasks + 2 < 2 ^ 31
      → let r = run_handle resume h m in
        (r.task_queue ≡ n.task_queue ++ (h ∷ h ∷ []))
        × (r.active_tasks ≡ n.active_tasks + 2)
        × (is_defined (signal_stop r).task_queue (signal_stop r).frame ≡ false)
  yield_stopped resume h m n z f r f' b =
      let (queue, counter) = yield_twice resume h m n z f r f' b in
      let live = ap is_finished (run_handle-frame resume h m n z f r f') in
      (
        queue,
        counter,
        stop_twice (λ x. x) (run_handle resume h m) h n.task_queue (h ∷ []) z queue (ground arith)
            live,
      )
