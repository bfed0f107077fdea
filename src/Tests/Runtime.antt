-- ===== src/Tests/Runtime.antt =====
-- The scheduler and the tasks on small machines.
use tang.Prelude.{◌++◌, ℕ, ◌+◌, ◌≡◌, refl, true, false, none, some, [], ◌∷◌, arith, All}
use tang.Channel.Defs.{State}
use tang.Channel.RecvAwaiter
use tang.Channel.RecvAwaiter.{RecvAwaiter, waiter}
use tang.Channel.Races.{Quiet}
use tang.Scheduler.Defs.{Frame, suspended, finished, destroyed, Scheduler, Machine, Program}
use tang.Scheduler.Ops
use tang.Scheduler.Ops.{run_handle}
use tang.Scheduler.Loop.{Progress, main_loop}
use tang.Scheduler.Leftover.{countdown, over, leftover}
use tang.Scheduler.Stop.{signal_stop, is_defined}
use tang.Scheduler.Global
use tang.Scheduler.Completion.{ending, completed}
use tang.Scheduler.Batch.{schedule_each, main_loop-schedule_each}
use tang.Scheduler.Global.{Global}
use tang.Task.Defs.{
  Task, Promise, Promises, undefined, await_suspend, await_resume, logic_error, Destructor,
}
use tang.Task.Creation.{Function, returns, throws, promise, go, plain_destructor, task_destructor}
use tang.Task.Going.{go_ends}
use tang.Task.Awaiting.{as_global, awaiting, awaited_early}
use tang.Sleep
use tang.Sleep.Early.{sleeper}
use tang.Sleep.Coroutine.{sleep, go_on, sleep_skipped}
use tang.Task.Awaiting.{as_global-awaiting}
use tang.Task.Creation.{get_return_object}
use tang.Task.Defs.{await_ready, await_resume_void, returned}
use tang.Prelude.{◌==◌, if◌then◌else◌, update}
use tang.Waiting.{machine_runtime, resumed_early}
use tang.Waiting.{yield_suspend}
use tang.Waiting.Stopped.{yield_stopped}
use tang.Waiting.Late.{sent_late}
use tang.Channel.Ops.{try_send, try_recv}

abbrev idle : Scheduler
idle = record {
  capacity = 2;
  threads = 0;
  task_queue = [];
  running = false;
  active_tasks = 0;
  event_loop_running = false;
}

abbrev machine : Scheduler → ℕ → Machine ℕ
machine c n = record { sched = c; frame = λ _. suspended; user = n }

-- The coroutine 9 is queued and counted.
abbrev queued : Scheduler
queued = record idle { task_queue = 9 ∷ []; active_tasks = 1; running = true; threads = 2 }

abbrev no_progress : Progress
no_progress = record { last_active_tasks = 0; no_progress_count = 0 }

leftover_example :
    main_loop 505 countdown (λ _ n. n) 0 no_progress (Ops.schedule 9 (machine idle 3))
    ≡ some (over 9 3 (machine idle 3))
leftover_example =
    leftover 505 2 9 (machine idle 3) (omega arith) refl refl refl refl (omega arith) (omega arith)

-- Tasks with a number as their result.
abbrev unset : Promise ℕ
unset = record { result = none; exception = none; continuation = none }

abbrev globe : Scheduler → Frame → Global (Promises ℕ)
globe c f = record { g_scheduler = some c; frame = λ _. f; user = λ _. unset }

abbrev task : Task
task = record { handle = 9 }

instance abbrev number_destructor : Destructor ℕ
number_destructor = plain_destructor

-- A coroutine 4 that puts itself into the queue and suspends, given to `go` as a function.
abbrev suspends_at_once : Function ℕ Task Task
suspends_at_once (g, n) = ((Global.schedule 2 4 g, n + 1), returns (record { handle = 4 }))

abbrev outer : Global (Promises Task)
outer = record { g_scheduler = some idle; frame = λ _. suspended; user = λ _. promise }

-- A function that adds 5 and throws the exception 3.
abbrev adds_and_throws : Function ℕ ℕ ℕ
adds_and_throws (g, n) = ((g, n + 5), throws 3)

go_ends_example :
    let e = go 2 9 adds_and_throws (globe idle suspended, 1) in
    (e.0.handle ≡ 0)
    × (await_resume e.0 e.1 ≡ logic_error)
    × (e.1.frame 9 ≡ destroyed)
    × (e.1.g_scheduler ≡ some idle)
    × (e.2 ≡ 6)
unfolding Global.task_completed Ops.task_completed
go_ends_example = go_ends 2 9 adds_and_throws (globe idle suspended, 1) (omega arith)

abbrev awaiter : RecvAwaiter
awaiter = record { value = 100; result = 200 }

abbrev waiting : State ℕ (Machine ℕ)
waiting = record {
  chan = record { capacity = 1; buffer = []; closed = false; send_waiters = []; recv_waiters = [] };
  store = record { cell = λ _. 0; flag = λ _. true };
  world = machine idle 0;
}

waiting-Quiet : Quiet waiting
waiting-Quiet = record { is_open = refl; no_values = refl; no_senders = refl; no_receivers = refl }

abbrev receives : Program ℕ
receives h m = ((RecvAwaiter.co_await h awaiter waiting).0.world, false)

resumed_early_example :
    let t = (RecvAwaiter.co_await 9 awaiter waiting).0 in
    ((run_handle receives 9 (machine idle 0)).task_queue ≡ 9 ∷ [])
    × (t.recv_waiters ≡ waiter 9 awaiter ∷ [])
    × (RecvAwaiter.await_resume awaiter t ≡ false)
    × (t.closed ≡ false)
resumed_early_example =
    resumed_early receives 9 awaiter waiting (machine idle 0) waiting-Quiet (omega arith) refl refl
      refl

sent_late_example :
    let t = (RecvAwaiter.co_await 9 awaiter waiting).0 in
    let r = try_send 30 t in
    (RecvAwaiter.await_resume awaiter t ≡ false)
    × (r.1 ≡ true)
    × (r.0.cell awaiter.value ≡ 30)
    × (RecvAwaiter.await_resume awaiter r.0 ≡ true)
    × (r.0.buffer ≡ [])
    × (r.0.recv_waiters ≡ [])
    × ((try_recv 60 r.0).1 ≡ false)
sent_late_example =
    sent_late 9 60 awaiter 30 waiting (RecvAwaiter.co_await 9 awaiter waiting).0 waiting-Quiet refl

-- Before the workers are joined they queue the coroutine 8 behind 9.
abbrev queues_8 : Machine ℕ → Machine ℕ
queues_8 m = record m { sched = record (m.sched) { task_queue = m.task_queue ++ 8 ∷ [] } }

-- The coroutine 9 adds one and yields.
abbrev yields : Program ℕ
yields h m = (yield_suspend h (record m { user = m.user + 1 }), false)

yield_stopped_example :
    let r = run_handle yields 9 (machine queued 0) in
    (r.task_queue ≡ 9 ∷ 9 ∷ 9 ∷ [])
    × (r.active_tasks ≡ 3)
    × (is_defined (signal_stop r).task_queue (signal_stop r).frame ≡ false)
yield_stopped_example =
    yield_stopped yields 9 (machine queued 0) (machine queued 1) (omega arith) refl refl refl
      (omega arith)

-- The coroutine 4 awaits the task 9.
abbrev caller : Machine (Promises ℕ)
caller = record { sched = idle; frame = λ _. suspended; user = λ _. unset }

abbrev awaits : Program (Promises ℕ)
awaits h m = (awaiting task h m, false)

awaited_early_example :
    ((run_handle awaits 4 caller).task_queue ≡ 9 ∷ 4 ∷ [])
    × (await_resume task (as_global (run_handle awaits 4 caller)) ≡ undefined)
unfolding await_suspend Global.schedule
awaited_early_example =
    awaited_early 2 awaits task 4 caller caller (awaiting task 4 caller) (omega arith) (omega arith)
      refl refl refl refl refl refl refl

main_loop-schedule_each_example :
    (main_loop 3
        (ending (λ h u. u + h))
        (λ _ n. n)
        0
        no_progress
        (schedule_each (4 ∷ 5 ∷ []) (machine idle 0))
      ≡ some (completed (λ h u. u + h) (4 ∷ 5 ∷ []) (machine idle 0)))
    × All
        (λ h. (completed (λ h u. u + h) (4 ∷ 5 ∷ []) (machine idle 0)).frame h ≡ finished)
        (4 ∷ 5 ∷ [])
main_loop-schedule_each_example =
    main_loop-schedule_each (λ h u. u + h) (4 ∷ 5 ∷ []) 3 (machine idle 0) refl refl
      ((omega arith, refl), ((omega arith, refl), tt)) (omega arith) (omega arith)

-- The coroutine 4 awaits a sleep of 7 milliseconds at the time 3, which is the coroutine 9.
abbrev before_sleep : Machine (Promises ℕ)
before_sleep = record caller { user = λ _. promise }

abbrev in_bed : Machine (Promises ℕ)
in_bed = record before_sleep {
  frame = update before_sleep.frame 9 suspended;
  user = update before_sleep.user 9 promise;
}

abbrev sleeps : Program (Promises ℕ)
sleeps j x = if j == 4 then (awaiting (get_return_object 9) 4 in_bed, false) else (go_on j x, false)

sleep_skipped_example :
    let (t, s) = sleep 3 7 9 (record { world = as_global before_sleep; sleepers = [] }) in
    let v = run_handle sleeps 4 caller in
    let u = run_handle sleeps 9 v in
    (s.sleepers ≡ sleeper 3 7 9 ∷ [])
    × (v.task_queue ≡ 9 ∷ 4 ∷ [])
    × (u.task_queue ≡ v.task_queue)
    × (await_ready t (as_global u) ≡ true)
    × (await_resume_void t (as_global u) ≡ returned tt)
unfolding sleep Sleep.await_suspend
sleep_skipped_example =
    sleep_skipped 2 sleeps 3 7 9 4 caller before_sleep (awaiting (get_return_object 9) 4 in_bed) []
      (omega arith) (omega arith) refl refl refl refl
      (as_global-awaiting 2 (get_return_object 9) 4 in_bed) (λ x. refl)
