-- ===== src/Scheduler/Progress.antt =====
-- How the main loop of `scheduler::run` in src/runtime.cpp ends.
use tang.Prelude.{
  ℕ, zero, suc, ◌+◌, ◌≤◌, ◌<◌, ◌≡◌, refl, true, false, [], Option, none, some, arith, ◌==◌,
  Bool-cases, leb, inl, inr, is_nil→nil,
}
use tang.Scheduler.Defs.{Machine, Program, is_positive}
use tang.Scheduler.Ops.{pop}
use tang.Scheduler.Loop.{
  Progress, has_work, round, round_with, main_loop, max_no_progress_iterations,
}

module _ {ℓ} {U : Type ℓ} where
  -- A round breaks only on an empty queue.
  round_break :
      (resume : Program U) (p : Progress) (r : Machine U × Option ℕ)
      → (round_with resume p r).2 ≡ true
      → (round_with resume p r).0.task_queue ≡ []
  unfolding round_with
  round_break resume p (m, none) e = is_nil→nil _ (ground arith)
  round_break resume p (m, some h) e = is_nil→nil _ (ground arith)

  -- Whatever the coroutines and the worker threads do, the main loop ends on an empty queue only:
  -- no handle that is queued when it ends is left behind.
  pub main_loop-queue :
      (fuel : ℕ) (resume : Program U) (others : ℕ → Machine U → Machine U) (k : ℕ) (p : Progress)
      (m n : Machine U)
      → main_loop fuel resume others k p m ≡ some n
      → n.task_queue ≡ []
  unfolding main_loop round
  main_loop-queue zero resume others k p m n e = cc
  main_loop-queue (suc fuel) resume others k p m n e = elim (Bool-cases (has_work m)) [
    | inl busy ↦ elim (Bool-cases (round resume p (others k m)).2) [
      | inl stop ↦ ground (arith, round_break resume p (pop (others k m)))
      | inr on ↦
          main_loop-queue fuel resume others (k + 1) (round resume p (others k m)).1
            (round resume p (others k m)).0 n (rw (busy, on, main_loop) at e)
    ]
    | inr idle ↦ is_nil→nil n.task_queue (ground arith)
  ]

  round_idle :
      (resume : Program U) (p : Progress) (m : Machine U)
      → m.task_queue ≡ []
      → p.last_active_tasks ≡ m.active_tasks
      → round resume p m ≡ (
        m,
        record p { no_progress_count = p.no_progress_count + 1 },
        leb max_no_progress_iterations (p.no_progress_count + 1),
      )
  unfolding round pop
  round_idle resume p m q l = ground arith

  round_reset :
      (resume : Program U) (p : Progress) (m : Machine U)
      → m.task_queue ≡ []
      → (m.active_tasks == p.last_active_tasks) ≡ false
      → round resume p m
        ≡ (m, record { last_active_tasks = m.active_tasks; no_progress_count = 0 }, false)
  unfolding round pop
  round_reset resume p m q l = ground arith

  stuck :
      (fuel : ℕ) (resume : Program U) (k : ℕ) (p : Progress) (m : Machine U)
      → m.task_queue ≡ []
      → is_positive m.active_tasks ≡ true
      → p.last_active_tasks ≡ m.active_tasks
      → p.no_progress_count < max_no_progress_iterations
      → max_no_progress_iterations ≤ p.no_progress_count + fuel
      → main_loop fuel resume (λ _ n. n) k p m ≡ some m
  unfolding main_loop
  stuck zero resume k p m q a l c f = absurd (omega arith)
  stuck (suc fuel) resume k p m q a l c f =
      elim (Bool-cases (leb max_no_progress_iterations (p.no_progress_count + 1))) [
        | inl last ↦ ground (arith, round_idle resume p m q l)
        | inr more ↦
            let p' : Progress = record p { no_progress_count = p.no_progress_count + 1 } in
            ground (
              arith,
              round_idle resume p m q l,
              stuck fuel resume (k + 1) p' m q a l (ground arith) (omega arith),
            )
      ]

  -- A main loop that has nothing to run but counts some task as active, while the worker threads do
  -- nothing, gives up: with fuel for one round more than `max_no_progress_iterations` it returns, and
  -- the machine is as it was, its counter still positive.
  pub main_loop_gives_up :
      (fuel : ℕ) (resume : Program U) (k : ℕ) (p : Progress) (m : Machine U)
      → m.task_queue ≡ []
      → is_positive m.active_tasks ≡ true
      → p.no_progress_count < max_no_progress_iterations
      → max_no_progress_iterations < fuel
      → main_loop fuel resume (λ _ n. n) k p m ≡ some m
  unfolding main_loop
  main_loop_gives_up zero resume k p m q a c f = absurd (omega arith)
  main_loop_gives_up (suc fuel) resume k p m q a c f =
      elim (Bool-cases (m.active_tasks == p.last_active_tasks)) [
        | inl same ↦ stuck (suc fuel) resume k p m q a (ground arith) c (omega arith)
        | inr fresh ↦
            let p' : Progress = record {
              last_active_tasks = m.active_tasks;
              no_progress_count = 0;
            } in
            ground (
              arith,
              round_reset resume p m q fresh,
              stuck fuel resume (k + 1) p' m q a refl (omega arith) (omega arith),
            )
      ]
