-- ===== src/Scheduler/Lifecycle.antt =====
-- `g_scheduler` of src/runtime.cpp across `runtime::stop` and a later `runtime::schedule`.
use tang.Prelude.{ℕ, ◌≡◌, ◌≢◌, refl, none, some, [], ◌∷◌, arith, Option-cases, inl, inr}
use tang.Scheduler.Defs.{suspended, Machine, new_scheduler}
use tang.Scheduler.Ops
use tang.Scheduler.Stop
use tang.Scheduler.Global.{Global, stop, schedule}

module _ {ℓ} {U : Type ℓ} (hardware : ℕ) (joined : Machine U → Machine U) where
  stop-none : (g : Global U) → (stop hardware joined g).g_scheduler ≡ none
  unfolding stop
  stop-none g = elim (Option-cases g.g_scheduler) [
    | inl e ↦ ground arith
    | inr (c, e) ↦ ground arith
  ]

  schedule_fresh :
      (h : ℕ) (g : Global U)
      → g.g_scheduler ≡ none
      → h ≢ 0
      → g.frame h ≡ suspended
      → schedule hardware h g ≡ record g {
        g_scheduler =
            some (record (new_scheduler hardware 0) { task_queue = h ∷ []; active_tasks = 1 });
      }
  unfolding schedule new_scheduler Ops.schedule
  schedule_fresh h g e z f = ground arith

  -- A handle that is scheduled after `runtime::stop` goes to a new scheduler, which has no thread and
  -- does not run. A second `runtime::stop` deletes that scheduler and leaves the frame suspended: the
  -- coroutine is neither run nor destroyed.
  schedule-stop :
      (h : ℕ) (g : Global U)
      → h ≢ 0
      → (stop hardware joined g).frame h ≡ suspended
      → let s = schedule hardware h (stop hardware joined g) in
        (s.g_scheduler
          ≡ some (record (new_scheduler hardware 0) { task_queue = h ∷ []; active_tasks = 1 }))
        × ((stop hardware joined s).g_scheduler ≡ none)
        × ((stop hardware joined s).frame h ≡ suspended)
  unfolding stop new_scheduler Stop.stop
  schedule-stop h g z f =
      rw (schedule_fresh h (stop hardware joined g) (stop-none g) z f) (refl, refl, f)
