-- ===== src/Waiting.antt =====
-- The loops of src/runtime.cpp against coroutines that wait: a coroutine that yields
-- (include/tang/runtime.h) and one that waits on a channel (include/tang/channel.h).
pub mod Late
pub mod Stopped
use tang.Prelude.{
  ℕ, ◌+◌, ◌^◌, ◌<◌, ◌≡◌, ◌≢◌, ◌==◌, Bool, true, false, not, ◌&&◌, [], ◌∷◌, ◌++◌, append_assoc,
  arith,
}
use tang.Channel.Runtime.{Runtime}
use tang.Channel.Defs.{State}
use tang.Channel.Ops.{try_recv, register_recv_waiter}
use tang.Channel.RecvAwaiter
use tang.Channel.RecvAwaiter.{RecvAwaiter, waiter}
use tang.Channel.Races.{Quiet}
use tang.Scheduler.Defs.{suspended, Machine, Program, is_finished}
use tang.Scheduler.Ops.{schedule, run_handle}

-- `yield_awaiter::await_suspend`, with a scheduler at hand.
unfoldable pub yield_suspend {ℓ} : {U : Type ℓ} → ℕ → Machine U → Machine U
yield_suspend h m = schedule h m

module _ {ℓ} {U : Type ℓ} where
  -- A coroutine `h` that is run, does what takes the machine to `n`, and then yields, is queued
  -- twice: once by `yield` and once by the loop that ran it. It is counted twice as well.
  pub yield_twice :
      (resume : Program U) (h : ℕ) (m n : Machine U)
      → h ≢ 0
      → m.frame h ≡ suspended
      → resume h m ≡ (yield_suspend h n, false)
      → n.frame h ≡ suspended
      → n.active_tasks + 2 < 2 ^ 31
      → ((run_handle resume h m).task_queue ≡ n.task_queue ++ (h ∷ h ∷ []))
        × ((run_handle resume h m).active_tasks ≡ n.active_tasks + 2)
  unfolding run_handle yield_suspend
  yield_twice resume h m n z f r f' b =
      (ground (arith, append_assoc n.task_queue (h ∷ []) (h ∷ [])), ground arith)

module _ {ℓ} {U : Type ℓ} where
  abbrev pub can_queue : Machine U → ℕ → Bool
  can_queue m h = not (h == 0) && not (is_finished (m.frame h))

  pub queue-schedule :
      (h : ℕ) (m : Machine U)
      → can_queue m h ≡ true
      → (schedule h m).task_queue ≡ m.task_queue ++ h ∷ []
  unfolding schedule
  queue-schedule h m l = ground arith

  pub schedule_dead : (h : ℕ) (m : Machine U) → can_queue m h ≡ false → schedule h m ≡ m
  unfolding schedule
  schedule_dead h m l = ground arith

  pub can_queue-schedule : (h k : ℕ) (m : Machine U) → can_queue (schedule h m) k ≡ can_queue m k
  unfolding schedule
  can_queue-schedule h k m = ground arith

  -- The runtime of a program that runs: `g_scheduler` points to the scheduler of the machine.
  instance abbrev pub machine_runtime : Runtime (Machine U)
  machine_runtime = record {
    enqueue = schedule;
    pending = λ m. m.task_queue;
    is_live = can_queue;
    pending-enqueue = queue-schedule;
    enqueue_dead = schedule_dead;
    is_live-enqueue = can_queue-schedule;
  }

  -- A coroutine `h` that is run and comes to `co_await ch.recv(value)` on an open, empty and unused
  -- channel parks there. The loop queues it again at once, with no value sent; when it is resumed
  -- then, `recv` reads the answer `false`, that of a closed channel, while the channel is open.
  pub resumed_early :
      {T : Type ℓ} (resume : Program U) (h : ℕ) (a : RecvAwaiter) (s : State T (Machine U))
      (m : Machine U)
      → Quiet s
      → h ≢ 0
      → m.frame h ≡ suspended
      → s.world.frame h ≡ suspended
      → resume h m ≡ ((RecvAwaiter.co_await h a s).0.world, false)
      → let t = (RecvAwaiter.co_await h a s).0 in
        ((run_handle resume h m).task_queue ≡ s.world.task_queue ++ h ∷ [])
        × (t.recv_waiters ≡ waiter h a ∷ [])
        × (RecvAwaiter.await_resume a t ≡ false)
        × (t.closed ≡ false)
  unfolding RecvAwaiter.co_await RecvAwaiter.await_resume RecvAwaiter.recv try_recv
      register_recv_waiter run_handle
  resumed_early resume h a s m q z f f' r = (ground arith, ground arith, ground arith, ground arith)
