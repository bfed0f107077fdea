-- ===== src/Scheduler/Counting.antt =====
-- `active_tasks_` against the queue, in src/runtime.cpp.
use tang.Prelude.{
  ℕ, ◌+◌, ◌^◌, ◌≤◌, ◌<◌, ◌≡◌, Bool, not, ◌&&◌, List, [], ◌∷◌, length, length-append, arith,
  if◌then◌else◌, ◌==◌,
}
use tang.Scheduler.Defs.{Machine, Program}
use tang.Scheduler.Ops.{done, run_handle, set_sched}
use tang.Scheduler.Loop.{wait_handle}

module _ {ℓ} {U : Type ℓ} where
  -- What a round does once it has taken `h` from the queue.
  abbrev pub taken : ℕ → List ℕ → Machine U → Machine U
  taken h hs m = set_sched (record (m.sched) { task_queue = hs }) m

  -- The coroutine `h`, resumed, suspends again.
  abbrev pub suspends : Program U → ℕ → Machine U → Bool
  suspends resume h m =
      not (done h m) && not (h == 0) && not (resume h m).1 && not (done h (resume h m).0)

  -- The counter covers the queue, and is far from overflow.
  pub record Covers (m : Machine U) : Type 0 where
    pub covered : length m.task_queue ≤ m.active_tasks
    pub small : m.active_tasks + 1 < 2 ^ 31

  -- The three loops treat a handle alike.
  pub wait_handle-run_handle :
      (resume : Program U) (h : ℕ) (m : Machine U) → wait_handle resume h m ≡ run_handle resume h m
  unfolding wait_handle run_handle
  wait_handle-run_handle resume h m = ground arith

  -- A round takes `h` from the queue of a machine whose counter covers the queue, and runs it; its
  -- body leaves the scheduler alone. Then the counter covers the queue again, and it exceeds the
  -- length of the queue by as much as before if `h` ended or failed, but by one more if `h` suspended.
  pub run_handle-surplus :
      (resume : Program U) (h : ℕ) (hs : List ℕ) (m : Machine U)
      → m.task_queue ≡ h ∷ hs
      → Covers m
      → ((resume h (taken h hs m)).0.sched ≡ (taken h hs m).sched)
      → let n = run_handle resume h (taken h hs m) in
        (length n.task_queue ≤ n.active_tasks)
        × (n.active_tasks + length m.task_queue
            ≡ m.active_tasks
              + length n.task_queue
              + (if suspends resume h (taken h hs m) then 1 else 0))
  unfolding run_handle
  run_handle-surplus resume h hs m e c same = ground (arith, length-append hs (h ∷ []))
