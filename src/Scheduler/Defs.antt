-- ===== src/Scheduler/Defs.antt =====
-- The state of src/runtime.cpp: the scheduler, the coroutine frames that its handles point to, and
-- the rest of the program.
use tang.Prelude.{ℕ, ◌+◌, ◌%◌, ◌^◌, Bool, true, false, ◌&&◌, List, [], ltb, if◌then◌else◌, ◌==◌}

-- A coroutine frame, as `done()` and `destroy()` see it. To touch a destroyed frame is undefined.
pub data Frame : Type 0 where
  suspended finished destroyed : Frame

-- `scheduler`, without its locks and condition variables: `capacity` is `threads_.capacity()` and
-- `threads` the number of worker threads. `active_tasks` is the bit pattern of an `atomic_int`. Of the
-- scheduler's event loop, which nothing runs, only its `running_` is kept.
pub record Scheduler : Type 0 where
  pub capacity : ℕ
  pub threads : ℕ
  pub task_queue : List ℕ
  pub running : Bool
  pub active_tasks : ℕ
  pub event_loop_running : Bool

-- A scheduler, the frames by address (0 is the null handle), and the data `user` of the program.
pub record Machine {ℓ} (U : Type ℓ) : Type ℓ where
  pub sched : Scheduler
  pub open sched use *
  pub frame : ℕ → Frame
  pub user : U

-- What the bodies of the program's coroutines do: `resume h` runs the coroutine `h` until it
-- suspends or ends, and says whether an exception left it.
abbrev pub Program {ℓ} : Type ℓ → Type ℓ
Program U = ℕ → Machine U → Machine U × Bool

-- `x > 0` and `x + 1` on the bits of a 32-bit `int`; an atomic one wraps around.
abbrev pub is_positive : ℕ → Bool
is_positive x = ltb 0 x && ltb x (2 ^ 31)

abbrev pub int_inc : ℕ → ℕ
int_inc x = (x + 1) % 2 ^ 32

abbrev pub is_finished : Frame → Bool
is_finished finished = true
is_finished suspended = false
is_finished destroyed = false

-- `scheduler::scheduler`; `hardware` is `std::thread::hardware_concurrency()`.
unfoldable pub new_scheduler : ℕ → ℕ → Scheduler
new_scheduler hardware num_threads = record {
  capacity = if num_threads == 0 then (if hardware == 0 then 1 else hardware) else num_threads;
  threads = 0;
  task_queue = [];
  running = false;
  active_tasks = 0;
  event_loop_running = false;
}
