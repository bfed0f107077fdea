-- ===== src/Scheduler/Leftover.antt =====
-- `active_tasks_` of src/runtime.cpp after a coroutine that suspended and was run again.
use tang.Prelude.{
  ℕ, zero, suc, ◌+◌, ◌-◌, ◌^◌, ◌≤◌, ◌<◌, ◌≡◌, ◌≢◌, refl, ap, ◌∙◌, false, [], ◌∷◌, some, arith,
  update, ◌==◌, if◌then◌else◌,
}
use tang.Scheduler.Defs.{finished, suspended, Machine, Program}
use tang.Scheduler.Ops.{pop, run_handle, schedule}
use tang.Scheduler.Loop.{Progress, round, main_loop, max_no_progress_iterations}
use tang.Scheduler.Progress.{main_loop_gives_up}

-- The program of one coroutine that suspends as often as `user` says, and then ends.
unfoldable pub countdown : Program ℕ
countdown h m = elim (m.user) [
  | zero ↦ (record m { frame = update m.frame h finished }, false)
  | suc n ↦ (record m { user = n }, false)
]

-- The machine with that coroutine alone in the queue, to suspend `k` times more.
abbrev pub alone : ℕ → ℕ → ℕ → Machine ℕ → Machine ℕ
alone h k active m = record m {
  sched = record (m.sched) { task_queue = h ∷ []; active_tasks = active };
  user = k;
}

abbrev pub over : ℕ → ℕ → Machine ℕ → Machine ℕ
over h active m = record m {
  sched = record (m.sched) { task_queue = []; active_tasks = active };
  frame = update m.frame h finished;
  user = 0;
}

round_suspends :
    (h k a : ℕ) (p : Progress) (m : Machine ℕ)
    → h ≢ 0
    → m.frame h ≡ suspended
    → a + 1 < 2 ^ 31
    → round countdown p (alone h (suc k) a m)
      ≡ (alone h k (a + 1) m, record { last_active_tasks = a + 1; no_progress_count = 0 }, false)
unfolding round pop run_handle countdown
round_suspends h k a p m n e b = ground arith

scheduled :
    (h k : ℕ) (m : Machine ℕ)
    → h ≢ 0
    → m.frame h ≡ suspended
    → m.task_queue ≡ []
    → m.active_tasks ≡ 0
    → m.user ≡ k
    → schedule h m ≡ alone h k 1 m
unfolding schedule
scheduled h k m n e q a u = ground arith

abbrev end_progress : ℕ → Progress → Progress
end_progress a p =
    if a == p.last_active_tasks
    then record p { no_progress_count = p.no_progress_count + 1 }
    else record { last_active_tasks = a; no_progress_count = 0 }

round_ends :
    (h a : ℕ) (p : Progress) (m : Machine ℕ)
    → h ≢ 0
    → m.frame h ≡ suspended
    → 0 < a
    → a < 2 ^ 31
    → p.no_progress_count ≡ 0
    → round countdown p (alone h 0 a m) ≡ (over h (a - 1) m, end_progress (a - 1) p, false)
unfolding round pop run_handle countdown
round_ends h a p m n e b c z = ground arith

leftover_from :
    (k fuel i h a : ℕ) (p : Progress) (m : Machine ℕ)
    → h ≢ 0
    → m.frame h ≡ suspended
    → 1 < a + k
    → 0 < a
    → a + k < 2 ^ 31
    → p.no_progress_count ≡ 0
    → k + max_no_progress_iterations + 2 ≤ fuel
    → main_loop fuel countdown (λ _ n. n) i p (alone h k a m) ≡ some (over h (a + k - 1) m)
unfolding main_loop
leftover_from k zero i h a p m n e b pos c z f = absurd (omega arith)
leftover_from zero (suc fuel) i h a p m n e b pos c z f = ground (
  arith,
  round_ends h a p m n e (omega arith) (omega arith) z,
  main_loop_gives_up fuel countdown (i + 1) (end_progress (a - 1) p) (over h (a - 1) m) refl
      (ground arith) (ground arith) (omega arith),
)
leftover_from (suc k) (suc fuel) i h a p m n e b pos c z f = ground (
  arith,
  round_suspends h k a p m n e (omega arith),
  leftover_from k fuel (i + 1) h (a + 1)
      (record { last_active_tasks = a + 1; no_progress_count = 0 }) m n e (omega arith)
      (omega arith) (omega arith) refl (omega arith),
)

-- One live coroutine is scheduled once on a machine with nothing to do, suspends `k + 1` times and
-- then ends, with no worker thread at work. The main loop stops, and only by its limit on rounds
-- without progress: the coroutine is finished and the queue empty, yet `active_tasks_` is `k + 1`.
pub leftover :
    (fuel k h : ℕ) (m : Machine ℕ)
    → h ≢ 0
    → m.frame h ≡ suspended
    → m.task_queue ≡ []
    → m.active_tasks ≡ 0
    → m.user ≡ suc k
    → k + 2 < 2 ^ 31
    → k + max_no_progress_iterations + 3 ≤ fuel
    → main_loop fuel countdown
        (λ _ n. n)
        0
        (record { last_active_tasks = 0; no_progress_count = 0 })
        (schedule h m)
      ≡ some (over h (suc k) m)
leftover fuel k h m n e q a u b f =
    ap
      (main_loop fuel countdown (λ _ n. n) 0
        (record { last_active_tasks = 0; no_progress_count = 0 }))
      (scheduled h (suc k) m n e q a u)
    ∙ leftover_from (suc k) fuel 0 h 1 _ m n e (omega arith) (omega arith) (omega arith) refl
        (omega arith)
    ∙ ap (λ (x : ℕ). some (over h x m)) (let r : 1 + suc k - 1 ≡ suc k = omega arith in r)
