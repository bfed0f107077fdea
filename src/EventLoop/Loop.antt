-- ===== src/EventLoop/Loop.antt =====
-- `event_loop::run` in src/event_loop.cpp, and its calls that hand over to the poller.
use tang.Prelude.{ℕ, zero, suc, ◌+◌, true, false, Option, none, some, List, [], ◌++◌, if◌then◌else◌}
use tang.EventLoop.Defs.{EventLoop, Wait, turn}

-- What each round meets: the clock, what the poller's `wait` gives for a timeout, and what callbacks,
-- sources and other threads do to the loop before the next test of `running_`. Without a poller the
-- round sleeps, as after a `wait` that timed out.
pub record Rounds : Type 0 where
  pub now : ℕ → ℕ
  pub wait : ℕ → ℕ → Wait
  pub others : ℕ → EventLoop → EventLoop

-- How the loop was left, the callbacks called, and the calls of `on_event`.
pub record Trace : Type 0 where
  pub left : EventLoop
  pub fired : List ℕ
  pub dispatched : List (ℕ × ℕ)

-- A round before the rest.
unfoldable pub before : List ℕ → List (ℕ × ℕ) → Option Trace → Option Trace
before fired events none = none
before fired events (some t) =
    some (record t { fired = fired ++ t.fired; dispatched = events ++ t.dispatched })

-- The `while` loop, from the round `k`; `none` means that the fuel ran out.
unfoldable pub loop : ℕ → Rounds → ℕ → EventLoop → Option Trace
unfolding turn before
loop zero e k l = none
loop (suc fuel) e k l = elim (l.running) [
  | false ↦ some (record { left = l; fired = []; dispatched = [] })
  | true ↦
      let r = turn (e.now k) (e.wait k) l in before r.1 r.2 (loop fuel e (k + 1) (e.others k r.0))
]

-- `running_.exchange(true)` first.
unfoldable pub run : ℕ → Rounds → EventLoop → Option Trace
run fuel e l =
    if l.running
    then some (record { left = l; fired = []; dispatched = [] })
    else loop fuel e 0 (record l { running = true })
