-- ===== src/EventLoop/Defs.antt =====
-- The event loop of src/event_loop.cpp. Times are nanoseconds of the steady clock and arguments of
-- the calls; a callback is named by a number, and what is called is returned.
use tang.Prelude.{
  ℕ, ◌+◌, ◌-◌, ◌*◌, ◌/◌, ◌%◌, ◌^◌, Bool, true, false, Option, none, some, List, [], ◌∷◌, ◌==◌, leb,
  ltb, if◌then◌else◌,
}

pub record Timer : Type 0 where
  pub handle : ℕ
  pub expire_time : ℕ
  pub callback : ℕ

-- `event_loop` without its poller. `timers_` is listed in the order of its iteration, which is that
-- of an unordered map, so any.
pub record EventLoop : Type 0 where
  pub running : Bool
  pub next_timer_id : ℕ
  pub timers : List Timer

unfoldable pub event_loop : EventLoop
event_loop = record { running = false; next_timer_id = 1; timers = [] }

abbrev pub nanos_per_milli : ℕ
nanos_per_milli = 1000000

-- `std::chrono::milliseconds::max()`.
abbrev pub milliseconds_max : ℕ
milliseconds_max = 2 ^ 63 - 1

-- `timers_[handle] = …`.
unfoldable pub set_timer : Timer → List Timer → List Timer
set_timer t [] = t ∷ []
set_timer t (u ∷ us) = if u.handle == t.handle then t ∷ us else u ∷ set_timer t us

-- `timers_.erase(handle)`, with whether it erased one.
unfoldable pub erase : ℕ → List Timer → List Timer × Bool
erase h [] = ([], false)
erase h (t ∷ ts) =
    let (rest, found) = erase h ts in if t.handle == h then (ts, true) else (t ∷ rest, found)

-- `add_timer` at the time `now`, with a delay in milliseconds.
unfoldable pub add_timer : ℕ → ℕ → ℕ → EventLoop → EventLoop × ℕ
add_timer now delay cb l = (
  record l {
    next_timer_id = (l.next_timer_id + 1) % 2 ^ 64;
    timers =
        set_timer
          (record {
            handle = l.next_timer_id;
            expire_time = now + delay * nanos_per_milli;
            callback = cb;
          })
          l.timers;
  },
  l.next_timer_id,
)

unfoldable pub cancel_timer : ℕ → EventLoop → EventLoop × Bool
cancel_timer h l = let (ts, found) = erase h l.timers in (record l { timers = ts }, found)

-- What is left of the timers, the callbacks called, and the time to the next timer.
pub record Sweep : Type 0 where
  pub kept : List Timer
  pub fired : List ℕ
  pub next_timeout : ℕ

-- The loop of `handle_timers`, if no callback adds or cancels a timer.
unfoldable pub sweep : ℕ → ℕ → List Timer → Sweep
sweep now next [] = record { kept = []; fired = []; next_timeout = next }
sweep now next (t ∷ ts) =
    let timeout = (t.expire_time - now) / nanos_per_milli in
    let expired = sweep now next ts in
    let waiting = sweep now (if ltb timeout next then timeout else next) ts in
    if leb t.expire_time now
    then record expired { fired = t.callback ∷ expired.fired }
    else record waiting { kept = t ∷ waiting.kept }

unfoldable pub handle_timers : ℕ → EventLoop → EventLoop × List ℕ × ℕ
handle_timers now l =
    let s = sweep now milliseconds_max l.timers in
    (record l { timers = s.kept }, s.fired, s.next_timeout)

unfoldable pub stop : EventLoop → EventLoop
stop l = record l { running = false }

-- What the poller's `wait` returns: an error, a timeout, or events. An event without a source has a
-- null pointer.
pub record Event : Type 0 where
  pub source : Option ℕ
  pub events : ℕ

pub data Wait : Type 0 where
  failed timed_out : Wait
  ready : List Event → Wait

-- The calls `source->on_event(ev.events)`. Poller/Dispatch has what they do to the poller meanwhile, by
-- which the calls stay the same.
unfoldable pub dispatch : List Event → List (ℕ × ℕ)
dispatch [] = []
dispatch (e ∷ es) = elim (e.source) [ none ↦ dispatch es | some s ↦ (s, e.events) ∷ dispatch es ]

unfoldable pub handle_wait : Wait → List (ℕ × ℕ)
unfolding dispatch
handle_wait failed = []
handle_wait timed_out = []
handle_wait (ready es) = dispatch es

-- One round of the loop of `run`: the timers, then `wait` with the time that is left to the next.
unfoldable pub turn : ℕ → (ℕ → Wait) → EventLoop → EventLoop × List ℕ × List (ℕ × ℕ)
unfolding handle_timers handle_wait
turn now wait l =
    let (k, fired, timeout) = handle_timers now l in (k, fired, handle_wait (wait timeout))
