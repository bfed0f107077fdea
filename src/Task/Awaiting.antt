-- ===== src/Task/Awaiting.antt =====
-- `co_await task` of include/tang/task.h under the loops of src/runtime.cpp.
use tang.Prelude.{
  ℕ, ◌≡◌, ◌≢◌, false, none, some, [], ◌∷◌, ◌++◌, ap, sym, ◌∙◌, append_assoc, arith, update,
}
use tang.Scheduler.Defs.{suspended, Machine, Program}
use tang.Scheduler.Ops
use tang.Scheduler.Ops.{run_handle}
use tang.Scheduler.Global
use tang.Scheduler.Global.{Global}
use tang.Task.Defs.{Task, Promises, undefined, await_suspend, await_resume}

-- The machine as the global state, with its scheduler as the global one.
abbrev pub as_global {ℓ} : {U : Type ℓ} → Machine U → Global U
as_global m = record { g_scheduler = some m.sched; frame = m.frame; user = m.user }

-- `co_await t` by the coroutine `k`, up to where it suspends.
abbrev pub awaiting {ℓ} : {R : Type ℓ} → Task → ℕ → Machine (Promises R) → Machine (Promises R)
awaiting t k m = Ops.schedule t.handle (record m {
  user = update m.user t.handle (record (m.user t.handle) { continuation = some k });
})

module _ {ℓ} {R : Type ℓ} (hardware : ℕ) where
  pub as_global-awaiting :
      (t : Task) (k : ℕ) (m : Machine (Promises R))
      → as_global (awaiting t k m) ≡ await_suspend hardware t k (as_global m)
  unfolding await_suspend Ops.schedule Global.schedule
  as_global-awaiting t k m = ground arith

  pub as_global-injective : (v w : Machine (Promises R)) → as_global v ≡ as_global w → v ≡ w
  as_global-injective v w e = ground arith

  awaiting_early :
      (resume : Program (Promises R)) (t : Task) (k : ℕ) (m n : Machine (Promises R))
      → t.handle ≢ 0
      → k ≢ 0
      → m.frame k ≡ suspended
      → n.frame k ≡ suspended
      → n.frame t.handle ≡ suspended
      → (n.user t.handle).exception ≡ none
      → (n.user t.handle).result ≡ none
      → resume k m ≡ (awaiting t k n, false)
      → ((run_handle resume k m).task_queue ≡ n.task_queue ++ (t.handle ∷ k ∷ []))
        × (await_resume t (as_global (run_handle resume k m)) ≡ undefined)
  unfolding run_handle await_resume Ops.schedule
  awaiting_early resume t k m n z y f f' ft x r e =
      (ground (arith, append_assoc n.task_queue (t.handle ∷ []) (k ∷ [])), ground arith)

  -- A coroutine `k` that is run, does what takes the machine to `n`, and then awaits a task whose
  -- coroutine is suspended and has no result yet, is queued by the loop that ran it, right behind the
  -- coroutine of the task. Resumed in that state, `co_await` would read an empty result.
  pub awaited_early :
      (resume : Program (Promises R)) (t : Task) (k : ℕ) (m n w : Machine (Promises R))
      → t.handle ≢ 0
      → k ≢ 0
      → m.frame k ≡ suspended
      → n.frame k ≡ suspended
      → n.frame t.handle ≡ suspended
      → (n.user t.handle).exception ≡ none
      → (n.user t.handle).result ≡ none
      → resume k m ≡ (w, false)
      → as_global w ≡ await_suspend hardware t k (as_global n)
      → ((run_handle resume k m).task_queue ≡ n.task_queue ++ (t.handle ∷ k ∷ []))
        × (await_resume t (as_global (run_handle resume k m)) ≡ undefined)
  awaited_early resume t k m n w z y f f' ft x r e a =
      awaiting_early resume t k m n z y f f' ft x r (
        e
        ∙ ap (λ (v : Machine (Promises R)). (v, false))
            (as_global-injective w (awaiting t k n) (a ∙ sym (as_global-awaiting t k n))))
