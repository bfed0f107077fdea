-- ===== src/Scheduler/Threads/Defs.antt =====
-- The loops of `scheduler::init` and `scheduler::run` as step relations, and the scheduler with all
-- of its threads. `task_completed` reads and decrements the counter, and `schedule` counts and pushes,
-- in two accesses.
use tang.Prelude.{ℕ, ◌+◌, ◌-◌, ◌%◌, ◌^◌, ◌≡◌, ◌≢◌, true, false, List, [], ◌∷◌, ◌++◌, All}
use tang.Scheduler.Defs.{Frame, Machine, is_positive}
use tang.Scheduler.Ops.{set_sched, done, task_started, push}
use tang.Scheduler.Stop.{signal_stop, clear}

-- Where a thread stands, with its `handle`.
pub data Pc : Type 0 where
  idle : Pc  -- before it takes a handle
  got : (h : ℕ) → Pc  -- before a worker looks at `running_` again
  checked : (h : ℕ) → Pc  -- before the tests for a null handle and of `done()`
  resuming : (h : ℕ) → Pc  -- within `resume()`
  scheduling : (h : ℕ) → Pc  -- within `schedule`, before `task_started`
  pushing : (h : ℕ) → Pc  -- within `schedule`, before the push
  completing : Pc  -- within `task_completed`, before the test
  decrementing : Pc  -- within `task_completed`, after the test
  exited : Pc

-- What a step does to the counter or to the queue, and a call of `resume()`.
pub data Label : Type 0 where
  quiet counted : Label
  queued removed woken : ℕ → Label

module _ {ℓ} {U : Type ℓ} where
  abbrev pub set_active : ℕ → Machine U → Machine U
  set_active a m = set_sched (record (m.sched) { active_tasks = a }) m

  abbrev pub set_queue : List ℕ → Machine U → Machine U
  set_queue hs m = set_sched (record (m.sched) { task_queue = hs }) m

  -- A thread that has a handle. What a coroutine does while it is resumed are steps of others.
  pub data Run (m : Machine U) : Pc → Machine U → Pc → Label → Type ℓ where
    finds_null : Run m (checked 0) m idle quiet
    finds_done : {h : ℕ} → h ≢ 0 → done h m ≡ true → Run m (checked h) m completing quiet
    resumes : {h : ℕ} → h ≢ 0 → done h m ≡ false → Run m (checked h) m (resuming h) (woken h)
    throws : {h : ℕ} → Run m (resuming h) m completing quiet
    ends : {h : ℕ} → done h m ≡ true → Run m (resuming h) m completing quiet
    suspends : {h : ℕ} → done h m ≡ false → Run m (resuming h) m (scheduling h) quiet
    declines : {h : ℕ} → done h m ≡ true → Run m (scheduling h) m idle quiet
    counts : {h : ℕ} → done h m ≡ false → Run m (scheduling h) (task_started m) (pushing h) counted
    pushes : {h : ℕ} → Run m (pushing h) (push h m) idle (queued h)
    sees_task : is_positive m.active_tasks ≡ true → Run m completing m decrementing quiet
    sees_none : is_positive m.active_tasks ≡ false → Run m completing m idle quiet
    decrements :
        Run m decrementing (set_active ((m.active_tasks + 2 ^ 32 - 1) % 2 ^ 32) m) idle quiet

  -- A worker thread.
  pub data Work (m : Machine U) : Pc → Machine U → Pc → Label → Type ℓ where
    runs : {p q : Pc} {n : Machine U} {l : Label} → Run m p n q l → Work m p n q l
    takes :
        {h : ℕ} {hs : List ℕ}
        → m.running ≡ true
        → m.task_queue ≡ h ∷ hs
        → Work m idle (set_queue hs m) (got h) (removed h)
    checks : {h : ℕ} → m.running ≡ true → Work m (got h) m (checked h) quiet
    drops : {h : ℕ} → m.running ≡ false → Work m (got h) m exited quiet
    leaves : m.running ≡ false → Work m idle m exited quiet

  -- The main thread.
  pub data Main (m : Machine U) : Pc → Machine U → Pc → Label → Type ℓ where
    runs : {p q : Pc} {n : Machine U} {l : Label} → Run m p n q l → Main m p n q l
    takes :
        {h : ℕ} {hs : List ℕ}
        → m.task_queue ≡ h ∷ hs
        → Main m idle (set_queue hs m) (checked h) (removed h)

-- How often `task_started` was called; the handles that were pushed, those that left the queue, and
-- those that were resumed; and the calls of `task_completed` outside the loops that decremented.
pub record Past : Type 0 where
  pub starts : ℕ
  pub pushed : List ℕ
  pub gone : List ℕ
  pub resumed : List ℕ
  pub reports : ℕ

abbrev pub note : Label → Past → Past
note quiet t = t
note counted t = record t { starts = t.starts + 1 }
note (queued h) t = record t { pushed = t.pushed ++ h ∷ [] }
note (removed h) t = record t { gone = t.gone ++ h ∷ [] }
note (woken h) t = record t { resumed = t.resumed ++ h ∷ [] }

-- `announced` are the handles that callers of `schedule` outside the loops have counted, but not
-- pushed yet.
pub record System {ℓ} (U : Type ℓ) : Type ℓ where
  pub machine : Machine U
  pub announced : List ℕ
  pub main : Pc
  pub workers : List Pc
  pub past : Past

module _ {ℓ} {U : Type ℓ} where
  -- `clears` is the end of `stop`, called by the main thread with nobody in the midst of `schedule`.
  pub data Step (y : System U) : System U → Type ℓ where
    main_moves :
        {m : Machine U} {q : Pc} {l : Label}
        → Main y.machine y.main m q l
        → Step y (record y { machine = m; main = q; past = note l y.past })
    worker_moves :
        {m : Machine U} (ps qs : List Pc) {p q : Pc} {l : Label}
        → y.workers ≡ ps ++ (p ∷ qs)
        → Work y.machine p m q l
        → Step y (record y { machine = m; workers = ps ++ (q ∷ qs); past = note l y.past })
    announces :
        (h : ℕ)
        → h ≢ 0
        → done h y.machine ≡ false
        → Step y (record y {
          machine = task_started y.machine;
          announced = h ∷ y.announced;
          past = note counted y.past;
        })
    enqueues :
        (h : ℕ) (hs ks : List ℕ)
        → y.announced ≡ hs ++ (h ∷ ks)
        → Step y (record y {
          machine = push h y.machine;
          announced = hs ++ ks;
          past = note (queued h) y.past;
        })
    -- A call of `task_started` outside `schedule`, as in `task::run`.
    starts_another :
        Step y (record y { machine = task_started y.machine; past = note counted y.past })
    -- The decrement in a `task_completed` that is called outside the loops, as in `task::run`; its test
    -- was a read some time before.
    reports_done : Step y (record y {
      machine = set_active ((y.machine.active_tasks + 2 ^ 32 - 1) % 2 ^ 32) y.machine;
      past = record (y.past) { reports = y.past.reports + 1 };
    })
    -- What coroutines and the rest of the program do to the frames and to their own data: anything, more
    -- than a program can, so that what every sequence of steps keeps, every run of a program keeps.
    elsewhere :
        (f : ℕ → Frame) (u : U)
        → Step y (record y { machine = record (y.machine) { frame = f; user = u } })
    spawns : Step y (record y { workers = y.workers ++ idle ∷ [] })
    starts_running :
        Step y
          (record y { machine = set_sched (record (y.machine.sched) { running = true }) y.machine })
    signals : Step y (record y { machine = signal_stop y.machine })
    clears :
        y.machine.running ≡ false
        → y.main ≡ idle
        → y.announced ≡ []
        → All (λ p. p ≡ exited) y.workers
        → Step y (record y {
          machine = clear y.machine;
          workers = [];
          past = record (y.past) { gone = y.past.gone ++ y.machine.task_queue };
        })

  -- The states of a scheduler that starts with nothing queued and no worker.
  pub data Reach : System U → Type ℓ where
    start :
        (m : Machine U)
        → m.task_queue ≡ []
        → m.active_tasks ≡ 0
        → Reach (record {
          machine = m;
          announced = [];
          main = idle;
          workers = [];
          past = record { starts = 0; pushed = []; gone = []; resumed = []; reports = 0 };
        })
    later : {x y : System U} → Reach x → Step x y → Reach y
