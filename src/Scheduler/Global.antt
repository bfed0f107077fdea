-- ===== src/Scheduler/Global.antt =====
-- The functions of `tang::runtime` in src/runtime.cpp, over the global `g_scheduler`.
use tang.Prelude.{ℕ, Bool, not, ◌&&◌, Option, none, some, List, [], if◌then◌else◌, ◌==◌}
use tang.Scheduler.Defs.{Frame, Scheduler, Machine, new_scheduler, is_finished}
use tang.Scheduler.Ops
use tang.Scheduler.Stop

-- `g_scheduler` is null or points to a scheduler.
pub record Global {ℓ} (U : Type ℓ) : Type ℓ where
  pub g_scheduler : Option Scheduler
  pub frame : ℕ → Frame
  pub user : U

unfoldable pub pending_of : Option Scheduler → List ℕ
pending_of none = []
pending_of (some c) = c.task_queue

module _ {ℓ} {U : Type ℓ} where
  -- A method call on `*g_scheduler`.
  abbrev pub call : (Machine U → Machine U) → Scheduler → Global U → Global U
  call f c g = from (f (record { sched = c; frame = g.frame; user = g.user }))
    where
      from : Machine U → Global U
      from m = record { g_scheduler = some m.sched; frame = m.frame; user = m.user }

  -- The queue; there is none without a scheduler.
  unfoldable pub pending : Global U → List ℕ
  unfolding pending_of
  pending g = pending_of g.g_scheduler

  unfoldable pub is_live : Global U → ℕ → Bool
  is_live g h = not (h == 0) && not (is_finished (g.frame h))

  abbrev pub delete : Global U → Global U
  delete g = record g { g_scheduler = none }

-- `hardware` is `std::thread::hardware_concurrency()`; `joined` is what the worker threads of a
-- scheduler that is stopped still do until they are joined.
module _ {ℓ} {U : Type ℓ} (hardware : ℕ) (joined : Machine U → Machine U) where
  -- The old scheduler is deleted, and its destructor stops it.
  unfoldable pub init_with : ℕ → Option Scheduler → Global U → Global U
  init_with n none g = record g { g_scheduler = some (new_scheduler hardware n) }
  init_with n (some c) g = record (delete (call (Stop.stop joined) c g)) {
    g_scheduler = some (new_scheduler hardware n);
  }

  unfoldable pub init : ℕ → Global U → Global U
  unfolding init_with
  init n g = init_with n g.g_scheduler g

  -- `delete` calls `stop` once more.
  unfoldable pub stop_with : Option Scheduler → Global U → Global U
  stop_with none g = g
  stop_with (some c) g = delete (call (λ m. Stop.stop joined (Stop.stop joined m)) c g)

  unfoldable pub stop : Global U → Global U
  unfolding stop_with
  stop g = stop_with g.g_scheduler g

module _ {ℓ} {U : Type ℓ} where
  abbrev pub put_back : Option (Machine U) → Option (Global U)
  put_back none = none
  put_back (some m) = some (record { g_scheduler = some m.sched; frame = m.frame; user = m.user })

  abbrev pub drive_on : (Machine U → Option (Machine U)) → Scheduler → Global U → Option (Global U)
  drive_on drive c g = put_back (drive (record { sched = c; frame = g.frame; user = g.user }))

module _ {ℓ} {U : Type ℓ} (hardware : ℕ) where
  -- A method of the scheduler, which is made first if there is none.
  unfoldable pub ensure : (Machine U → Machine U) → Option Scheduler → Global U → Global U
  ensure f none g = call f (new_scheduler hardware 0) g
  ensure f (some c) g = call f c g

  unfoldable pub schedule : ℕ → Global U → Global U
  unfolding ensure
  schedule h g =
      if h == 0
      then g
      else if is_finished (g.frame h)
      then g
      else ensure (Ops.schedule h) g.g_scheduler g

  unfoldable pub task_started : Global U → Global U
  unfolding ensure
  task_started g = ensure Ops.task_started g.g_scheduler g

  unfoldable pub task_completed : Global U → Global U
  unfolding ensure
  task_completed g = ensure Ops.task_completed g.g_scheduler g

  -- `runtime::run`; `drive` is `scheduler::run`, with `none` for a run that does not end.
  unfoldable pub run_with :
      (Machine U → Option (Machine U)) → Option Scheduler → Global U → Option (Global U)
  run_with drive none g = drive_on drive (new_scheduler hardware 0) g
  run_with drive (some c) g = drive_on drive c g

  unfoldable pub run : (Machine U → Option (Machine U)) → Global U → Option (Global U)
  unfolding run_with
  run drive g = run_with drive g.g_scheduler g
