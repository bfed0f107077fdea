-- ===== src/Scheduler/Completion.antt =====
-- The main loop of `scheduler::run` in src/runtime.cpp on coroutines that end when they are resumed.
use mathlib.Core.List.{cons≢nil}
use tang.Prelude.{
  ℕ, zero, suc, ◌+◌, ◌-◌, ◌^◌, ◌<◌, ◌≡◌, ◌≢◌, refl, ◌∙◌, ◌⊎◌, inl, inr, true, false, some, List, [],
  ◌∷◌, length, All, arith, if◌then◌else◌, update,
}
use tang.Scheduler.Defs.{Frame, finished, Machine, Program, is_finished}
use tang.Scheduler.Ops.{pop, run_handle}
use tang.Scheduler.Loop.{Progress, has_work, check_progress, round, main_loop}
use tang.Scheduler.Counting.{taken}

module _ {ℓ} {U : Type ℓ} (effect : ℕ → U → U) where
  -- The program whose coroutines end when they are resumed, each with an effect on the program's data.
  abbrev pub ending : Program U
  ending h m = (record m { frame = update m.frame h finished; user = effect h m.user }, false)

  -- The coroutines of the list, ended one after the other, those that have ended by then left out.
  unfoldable pub end_each : List ℕ → (ℕ → Frame) → U → (ℕ → Frame) × U
  end_each [] f u = (f, u)
  end_each (h ∷ hs) f u =
      end_each hs (if is_finished (f h) then f else update f h finished)
        (if is_finished (f h) then u else effect h u)

  -- A round on a queue whose length is the counter.
  abbrev after : ℕ → List ℕ → Machine U → Machine U
  after h hs m = record m {
    sched = record (m.sched) { task_queue = hs; active_tasks = m.active_tasks - 1 };
    frame = if is_finished (m.frame h) then m.frame else update m.frame h finished;
    user = if is_finished (m.frame h) then m.user else effect h m.user;
  }

  run_handle-after :
      (h : ℕ) (hs : List ℕ) (m : Machine U)
      → h ≢ 0
      → 0 < m.active_tasks
      → m.active_tasks < 2 ^ 31
      → run_handle ending h (taken h hs m) ≡ after h hs m
  unfolding run_handle
  run_handle-after h hs m z p b = ground arith

  abbrev next_progress : ℕ → List ℕ → Progress → Machine U → Progress
  next_progress h hs p m =
      if is_finished (m.frame h) then p else (check_progress p (after h hs m)).0

  round-after :
      (h : ℕ) (hs : List ℕ) (p : Progress) (m : Machine U)
      → m.task_queue ≡ h ∷ hs
      → h ≢ 0
      → 0 < m.active_tasks
      → m.active_tasks < 2 ^ 31
      → p.no_progress_count ≡ 0
      → round ending p m ≡ (after h hs m, next_progress h hs p m, false)
  unfolding round pop check_progress
  round-after h hs p m e z a b c = ground (arith, run_handle-after h hs m z a b)

  next_progress-count :
      (h g : ℕ) (hs : List ℕ) (p : Progress) (m : Machine U)
      → p.no_progress_count ≡ 0
      → (next_progress h (g ∷ hs) p m).no_progress_count ≡ 0
  unfolding check_progress
  next_progress-count h g hs p m c = ground arith

  next_count :
      (h : ℕ) (hs : List ℕ) (p : Progress) (m : Machine U)
      → p.no_progress_count ≡ 0
      → (hs ≡ []) ⊎ ((next_progress h hs p m).no_progress_count ≡ 0)
  next_count h [] p m c = inl refl
  next_count h (g ∷ hs) p m c = inr (next_progress-count h g hs p m c)

  -- The machine after the queued coroutines have ended.
  abbrev pub completed : List ℕ → Machine U → Machine U
  completed hs m = record m {
    sched = record (m.sched) { task_queue = []; active_tasks = 0 };
    frame = (end_each hs m.frame m.user).0;
    user = (end_each hs m.frame m.user).1;
  }

  main_loop_idle :
      (fuel k : ℕ) (p : Progress) (m : Machine U)
      → m.task_queue ≡ []
      → m.active_tasks ≡ 0
      → main_loop (suc fuel) ending (λ _ n. n) k p m ≡ some m
  unfolding main_loop
  main_loop_idle fuel k p m q a = ground arith

  main_loop-round :
      (fuel k : ℕ) (p q : Progress) (m n : Machine U)
      → has_work m ≡ true
      → round ending p m ≡ (n, q, false)
      → main_loop (suc fuel) ending (λ _ n. n) k p m ≡ main_loop fuel ending (λ _ n. n) (k + 1) q n
  unfolding main_loop
  main_loop-round fuel k p q m n w r = ground arith

  pub main_loop-completed :
      (hs : List ℕ) (fuel k : ℕ) (p : Progress) (m : Machine U)
      → m.task_queue ≡ hs
      → m.active_tasks ≡ length hs
      → length hs < 2 ^ 31
      → All (λ h. h ≢ 0) hs
      → (hs ≡ []) ⊎ (p.no_progress_count ≡ 0)
      → length hs < fuel
      → main_loop fuel ending (λ _ n. n) k p m ≡ some (completed hs m)
  unfolding end_each
  main_loop-completed hs zero k p m q a b z c f = absurd (omega arith)
  main_loop-completed [] (suc fuel) k p m q a b z c f = main_loop_idle fuel k p m q a ∙ ground arith
  main_loop-completed (h ∷ hs) (suc fuel) k p m q a b z c f =
      main_loop-round fuel k p (next_progress h hs p m) m (after h hs m) (ground arith) (
        round-after h hs p m q z.0 (omega arith) (omega arith)
          (elim c [ inl e ↦ absurd (cons≢nil e) | inr e ↦ e ]))
      ∙ main_loop-completed hs fuel (k + 1) (next_progress h hs p m) (after h hs m) refl
          (omega arith) (omega arith) z.1
          (next_count h hs p m (elim c [ inl e ↦ absurd (cons≢nil e) | inr e ↦ e ])) (omega arith)

  end_each-finished :
      (hs : List ℕ) (f : ℕ → Frame) (u : U) (k : ℕ)
      → f k ≡ finished
      → (end_each hs f u).0 k ≡ finished
  unfolding end_each
  end_each-finished [] f u k e = e
  end_each-finished (h ∷ hs) f u k e =
      end_each-finished hs (if is_finished (f h) then f else update f h finished)
        (if is_finished (f h) then u else effect h u) k (ground arith)

  pub end_each-All :
      (hs : List ℕ) (f : ℕ → Frame) (u : U) → All (λ h. (end_each hs f u).0 h ≡ finished) hs
  unfolding end_each
  end_each-All [] f u = tt
  end_each-All (h ∷ hs) f u =
      let g = if is_finished (f h) then f else update f h finished in
      let v = if is_finished (f h) then u else effect h u in
      (end_each-finished hs g v h (ground arith), end_each-All hs g v)
