-- ===== src/Scheduler/Threads/Idle.antt =====
-- When the main loop of `scheduler::run` in src/runtime.cpp finds no work.
use tang.Prelude.{
  ℕ, ◌^◌, ◌≤◌, ◌<◌, ◌≡◌, refl, ◌⊎◌, inl, inr, false, List, [], ◌∷◌, All, length, arith,
}
use tang.Scheduler.Defs.{is_positive}
use tang.Scheduler.Loop.{finds_work}
use tang.Scheduler.Threads.Defs.{
  Pc, idle, got, checked, resuming, scheduling, pushing, completing, decrementing, exited, System,
  Reach,
}
use tang.Scheduler.Threads.Counter.{weight, held}
use tang.Scheduler.Threads.Invariant.{Reach-Accounted}

-- The thread has no handle.
abbrev pub IsFree : Pc → Type 0
IsFree p = (p ≡ idle) ⊎ (p ≡ exited)

weight-IsFree : (p : Pc) → weight p ≤ 0 → IsFree p
weight-IsFree idle e = inl refl
weight-IsFree exited e = inr refl
weight-IsFree (got h) e = absurd (omega arith)
weight-IsFree (checked h) e = absurd (omega arith)
weight-IsFree (resuming h) e = absurd (omega arith)
weight-IsFree (scheduling h) e = absurd (omega arith)
weight-IsFree (pushing h) e = absurd (omega arith)
weight-IsFree completing e = absurd (omega arith)
weight-IsFree decrementing e = absurd (omega arith)

held-IsFree : (ps : List Pc) → held ps ≤ 0 → All IsFree ps
held-IsFree [] e = tt
held-IsFree (p ∷ ps) e = (weight-IsFree p (omega arith), held-IsFree ps (omega arith))

nil_of_length {ℓ} : {A : Type ℓ} (xs : List A) → length xs ≤ 0 → xs ≡ []
nil_of_length [] e = refl
nil_of_length (x ∷ xs) e = absurd (omega arith)

not_positive : (x : ℕ) → is_positive x ≡ false → x < 2 ^ 31 → x ≤ 0
not_positive x e b = ground arith

no_work : (x : ℕ) (hs : List ℕ) → finds_work x hs ≡ false → is_positive x ≡ false
no_work x hs e = ground arith

module _ {ℓ} {U : Type ℓ} where
  -- The main loop finds no work: its test has read the counter in the state `y`, and then, after
  -- whatever other threads have done since, the queue `hs`. However the threads interleave, as long as
  -- `task_started` was called fewer than 2 ^ 31 times before `y` and no `task_completed` outside the
  -- loops has decremented the counter: in `y`, when the counter was read, nothing was queued or about
  -- to be pushed, and no thread had a handle, so no coroutine was being resumed or put back. Of what
  -- is scheduled between the two reads this says nothing.
  pub finds_work-IsFree :
      (y : System U) (hs : List ℕ)
      → Reach y
      → y.past.starts < 2 ^ 31
      → y.past.reports ≡ 0
      → finds_work y.machine.active_tasks hs ≡ false
      → (y.machine.task_queue ≡ []) × (y.announced ≡ []) × IsFree y.main × All IsFree y.workers
  finds_work-IsFree y hs r b none_reported e =
      let i = Reach-Accounted r b none_reported in
      let z : y.machine.active_tasks ≤ 0 =
        not_positive _ (no_work y.machine.active_tasks hs e) (omega (arith, i.few)) in
      (
        nil_of_length _ (omega (arith, i.covered)),
        nil_of_length _ (omega (arith, i.covered)),
        weight-IsFree _ (omega (arith, i.covered)),
        held-IsFree _ (omega (arith, i.covered)),
      )
