-- ===== src/Scheduler/Loop.antt =====
-- `scheduler::init` and `scheduler::run` in src/runtime.cpp.
use tang.Prelude.{
  List, ℕ, zero, suc, ◌+◌, Bool, true, false, not, ◌&&◌, ◌||◌, Option, none, some, ◌==◌, leb,
  if◌then◌else◌, is_nil,
}
use tang.Scheduler.Defs.{Machine, Program, is_positive}
use tang.Scheduler.Ops.{set_sched, done, pop, run_handle, after_resume, task_completed}

-- `MAX_NO_PROGRESS_ITERATIONS`.
abbrev pub max_no_progress_iterations : ℕ
max_no_progress_iterations = 500

-- The variables of the main loop.
pub record Progress : Type 0 where
  pub last_active_tasks : ℕ
  pub no_progress_count : ℕ

-- The test of the main loop: the counter that its first read finds, and the queue that its second one
-- finds, which no lock guards.
abbrev pub finds_work : ℕ → List ℕ → Bool
finds_work active_tasks task_queue = is_positive active_tasks || not (is_nil task_queue)

module _ {ℓ} {U : Type ℓ} where
  -- The loop of `init` that makes worker threads from the index `i` on. `can_spawn` says which
  -- threads the system makes; the result says whether an exception leaves `init`.
  unfoldable pub spawn : (ℕ → Bool) → ℕ → ℕ → Machine U → Machine U × Bool
  spawn can_spawn zero i m = (m, false)
  spawn can_spawn (suc n) i m =
      let made =
        spawn can_spawn n (i + 1) (set_sched (record (m.sched) { threads = m.threads + 1 }) m) in
      if can_spawn i then made else (set_sched (record (m.sched) { running = false }) m, true)

  unfoldable pub init : (ℕ → Bool) → Machine U → Machine U × Bool
  unfolding spawn
  init can_spawn m =
      if m.running
      then (m, false)
      else spawn can_spawn m.capacity 0 (set_sched (record (m.sched) { running = true }) m)

  -- The test for progress at the end of a round: the new counters, and whether to break.
  unfoldable pub check_progress : Progress → Machine U → Progress × Bool
  check_progress p m =
      if m.active_tasks == p.last_active_tasks && is_nil m.task_queue
      then (
        record p { no_progress_count = p.no_progress_count + 1 },
        leb max_no_progress_iterations (p.no_progress_count + 1),
      )
      else (record { last_active_tasks = m.active_tasks; no_progress_count = 0 }, false)

  -- The test of the main loop when no other thread comes between its two reads.
  abbrev pub has_work : Machine U → Bool
  has_work m = finds_work m.active_tasks m.task_queue

  -- A handle on which the code says `continue`, so that the round ends with no test for progress.
  abbrev pub skips : Program U → ℕ → Machine U → Bool
  skips resume h m = done h m || h == 0 || (resume h m).1

  -- One round of the main loop: the new state, the counters, and whether to break.
  unfoldable pub round_with :
      Program U → Progress → Machine U × Option ℕ → Machine U × Progress × Bool
  unfolding check_progress
  round_with resume p (m, none) = let (q, stop) = check_progress p m in (m, q, stop)
  round_with resume p (m, some h) =
      let n = run_handle resume h m in
      let (q, stop) = check_progress p n in if skips resume h m then (n, p, false) else (n, q, stop)

  unfoldable pub round : Program U → Progress → Machine U → Machine U × Progress × Bool
  unfolding round_with
  round resume p m = round_with resume p (pop m)

  -- The main loop. `others k` is what the worker threads do in the round `k`, while this thread does
  -- not hold the queue; `none` means that the fuel ran out.
  unfoldable pub main_loop :
      ℕ → Program U → (ℕ → Machine U → Machine U) → ℕ → Progress → Machine U → Option (Machine U)
  unfolding round
  main_loop zero resume others k p m = none
  main_loop (suc fuel) resume others k p m = elim (has_work m) [
    | true ↦
        let r = round resume p (others k m) in
        elim (r.2) [ true ↦ some r.0 | false ↦ main_loop fuel resume others (k + 1) r.1 r.0 ]
    | false ↦ some m
  ]

  -- A handle in the extended wait.
  unfoldable pub wait_handle : Program U → ℕ → Machine U → Machine U
  wait_handle resume h m =
      if not (done h m) && not (h == 0) then after_resume h (resume h m) else task_completed m

  unfoldable pub wait_with : Program U → Machine U × Option ℕ → Machine U
  wait_with resume (m, none) = m
  wait_with resume (m, some h) = wait_handle resume h m

  -- The extended wait, `n` rounds of it.
  unfoldable pub extended_wait :
      ℕ → Program U → (ℕ → Machine U → Machine U) → ℕ → Machine U → Machine U
  unfolding wait_with
  extended_wait zero resume others k m = m
  extended_wait (suc n) resume others k m =
      let t = others k m in
      let next =
        extended_wait n resume others (k + 1)
          (if is_positive t.active_tasks then wait_with resume (pop t) else t) in
      if is_nil t.task_queue && t.active_tasks == 0 then t else next
