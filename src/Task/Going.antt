-- ===== src/Task/Going.antt =====
-- What `go` and `spawn` of include/tang/task.h do with the function that they are given.
use tang.Prelude.{ℕ, ◌≡◌, ◌≢◌, refl, ap, arith, update_self, Option-cases, inl, inr}
use tang.Scheduler.Defs.{finished, destroyed, new_scheduler}
use tang.Scheduler.Ops
use tang.Scheduler.Global
use tang.Scheduler.Global.{Global}
use tang.Task.Defs.{
  Task, Promises, Destructor, logic_error, run, run_done, await_resume, return_value,
  unhandled_exception,
}
use tang.Task.Creation.{
  Outcome, returns, throws, Function, get_return_object, begin, settle, task_destructor, go,
}
use tang.Task.Ownership.{destroy_destroys}

module _ {ℓ} {R : Type ℓ} where
  settled : (h : ℕ) (o : Outcome R) (g : Global (Promises R)) → (settle h o g).frame h ≡ finished
  unfolding settle return_value unhandled_exception
  settled h (returns r) g = update_self g.frame h finished
  settled h (throws e) g = update_self g.frame h finished

  settle-scheduler :
      (h : ℕ) (o : Outcome R) (g : Global (Promises R)) → (settle h o g).g_scheduler ≡ g.g_scheduler
  unfolding settle return_value unhandled_exception
  settle-scheduler h (returns r) g = refl
  settle-scheduler h (throws e) g = refl

  completed-scheduler :
      (hardware : ℕ) (a b : Global (Promises R))
      → a.g_scheduler ≡ b.g_scheduler
      → (Global.task_completed hardware a).g_scheduler
        ≡ (Global.task_completed hardware b).g_scheduler
  unfolding Global.task_completed Ops.task_completed
  completed-scheduler hardware a b e = elim (Option-cases b.g_scheduler) [
    | inl f ↦ ground (arith, e, f)
    | inr (c, f) ↦ ground (arith, e, f)
  ]

module _ {ℓ} {R : Type ℓ} ⦃d : Destructor R⦄ (hardware : ℕ) where
  run_settled :
      (h : ℕ) (g : Global (Promises R))
      → h ≢ 0
      → g.frame h ≡ finished
      → run hardware (record { handle = h }) g ≡ run_done hardware (record { handle = h }) g
  unfolding run
  run_settled h g z f = ground arith

  go-run_done :
      {V : Type ℓ} (h : ℕ) (f : Function V R R) (s : Global (Promises R) × V)
      → h ≢ 0
      → let r = f (begin h s.0, s.1) in
        let e = run_done hardware (get_return_object h) (settle h r.1 r.0.0) in
        go hardware h f s ≡ (e.0, e.1, r.0.1)
  unfolding go
  go-run_done {V} h f s z =
      let r = f (begin h s.0, s.1) in
      ap (λ (x : Task × Global (Promises R)). (x.0, x.1, r.0.1))
        (run_settled h (settle h r.1 r.0.0) z (settled h r.1 r.0.0))

  -- Whatever function with a result is given to `go`, and however it ends, if the new coroutine's
  -- address `h` is not null: the function has run to its end when `go` returns,
  -- and nothing is left to schedule. The task that `go` returns owns nothing, so that `co_await` of it
  -- throws, and what the function returned or threw is lost; the frame is destroyed; and a completion
  -- is reported that nobody announced.
  pub go_ends :
      {V : Type ℓ} (h : ℕ) (f : Function V R R) (s : Global (Promises R) × V)
      → h ≢ 0
      → let r = f (begin h s.0, s.1) in
        let e = go hardware h f s in
        (e.0.handle ≡ 0)
        × (await_resume e.0 e.1 ≡ logic_error)
        × (e.1.frame h ≡ destroyed)
        × (e.1.g_scheduler ≡ (Global.task_completed hardware r.0.0).g_scheduler)
        × (e.2 ≡ r.0.1)
  unfolding await_resume
  go_ends h f s z =
      let r = f (begin h s.0, s.1) in
      rw (go-run_done h f s z) (
        refl,
        refl,
        destroy_destroys h (Global.task_completed hardware (settle h r.1 r.0.0)),
        completed-scheduler hardware (settle h r.1 r.0.0) r.0.0 (settle-scheduler h r.1 r.0.0),
        refl,
      )

module _ (hardware : ℕ) where
  pub pending-completed :
      {R : Type 0} (g : Global (Promises R))
      → Global.pending (Global.task_completed hardware g) ≡ Global.pending g
  unfolding Global.pending Global.task_completed Ops.task_completed new_scheduler
  pending-completed g = elim (Option-cases g.g_scheduler) [
    | inl e ↦ ground arith
    | inr (c, e) ↦ ground arith
  ]
