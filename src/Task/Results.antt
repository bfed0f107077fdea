-- ===== src/Task/Results.antt =====
-- What `co_await task` of include/tang/task.h gives, against how the coroutine ended.
use tang.Prelude.{ℕ, ◌≡◌, ◌≢◌, none, arith}
use tang.Scheduler.Global.{Global}
use tang.Task.Defs.{
  Task, Promises, returned, rethrown, await_resume, return_value, unhandled_exception,
}

module _ {ℓ} {R : Type ℓ} where
  -- Awaiting a coroutine that no exception has left: once it returns a value, that is what it gives;
  -- once an exception leaves it, that is rethrown, also if it returned a value before or after.
  pub await_resume_lem :
      (t : Task) (g : Global (Promises R)) (r : R) (e : ℕ)
      → t.handle ≢ 0
      → (g.user t.handle).exception ≡ none
      → let h = t.handle in
        (await_resume t (return_value h r g) ≡ returned r)
        × (await_resume t (unhandled_exception h e g) ≡ rethrown e)
        × (await_resume t (unhandled_exception h e (return_value h r g)) ≡ rethrown e)
        × (await_resume t (return_value h r (unhandled_exception h e g)) ≡ rethrown e)
  unfolding await_resume return_value unhandled_exception
  await_resume_lem t g r e n x = (ground arith, ground arith, ground arith, ground arith)
