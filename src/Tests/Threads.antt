-- ===== src/Tests/Threads.antt =====
-- The scheduler with its threads, from a concrete start.
use tang.Prelude.{ℕ, ◌≡◌, refl, false, [], ◌∷◌, All, arith}
use tang.Scheduler.Defs.{suspended, Machine}
use tang.Scheduler.Ops.{task_started}
use tang.Scheduler.Threads.Defs.{idle, System, Reach, start, later, announces, enqueues, spawns}
use tang.Scheduler.Threads.Invariant.{Accounted, Reach-Accounted}
use tang.Scheduler.Threads.Idle.{IsFree, finds_work-IsFree}

abbrev empty : Machine ℕ
empty = record {
  sched = record {
    capacity = 2;
    threads = 0;
    task_queue = [];
    running = false;
    active_tasks = 0;
    event_loop_running = false;
  };
  frame = λ _. suspended;
  user = 0;
}

abbrev begun : System ℕ
begun = record {
  machine = empty;
  announced = [];
  main = idle;
  workers = idle ∷ [];
  past = record { starts = 0; pushed = []; gone = []; resumed = []; reports = 0 };
}

begun-Reach : Reach begun
begun-Reach = later (start empty refl refl) spawns

-- The coroutine 9 is counted and queued.
abbrev offered : System ℕ
offered = record begun {
  machine = record empty { sched = record (empty.sched) { task_queue = 9 ∷ []; active_tasks = 1 } };
  past = record { starts = 1; pushed = 9 ∷ []; gone = []; resumed = []; reports = 0 };
}

offered-Reach : Reach offered
unfolding task_started
offered-Reach = later (later begun-Reach (announces 9 (omega arith) refl)) (enqueues 9 [] [] refl)

Reach-Accounted_example : Accounted offered
Reach-Accounted_example = Reach-Accounted offered-Reach (omega arith) refl

finds_work-IsFree_example :
    (empty.task_queue ≡ []) × (begun.announced ≡ []) × IsFree idle × All IsFree (idle ∷ [])
finds_work-IsFree_example = finds_work-IsFree begun [] begun-Reach (omega arith) refl refl
