-- ===== src/EventLoop/Callbacks.antt =====
-- `handle_timers` of src/event_loop.cpp with callbacks that call `cancel_timer`.
use tang.Prelude.{
  ℕ, zero, suc, ◌-◌, ◌/◌, List, [], ◌∷◌, ◌++◌, leb, ltb, length, if◌then◌else◌, is_in,
}
use tang.EventLoop.Defs.{Timer, EventLoop, Sweep, erase, nanos_per_milli, milliseconds_max}

-- The calls of `cancel_timer` in a callback.
abbrev pub erase_all : List ℕ → List Timer → List Timer
erase_all [] ts = ts
erase_all (h ∷ hs) ts = erase_all hs (erase h ts).0

-- How a sweep ends. It is undefined if the iterator points to an entry that was erased.
pub data Swept : Type 0 where
  out_of_fuel undefined : Swept
  swept : Sweep → Swept

abbrev pub call : ℕ → Swept → Swept
call cb out_of_fuel = out_of_fuel
call cb undefined = undefined
call cb (swept s) = swept (record s { fired = cb ∷ s.fired })

-- The loop of `handle_timers`: the iterator is behind the timers `seen` and before the others. The
-- callback `cb` cancels the timers `cancels cb`, in this order. If it cancels its own timer, the entry
-- that `timers_.erase(it)` is then given is gone.
unfoldable pub sweep_with : ℕ → (ℕ → List ℕ) → ℕ → ℕ → List Timer → List Timer → Swept
sweep_with zero cancels now next seen ts = out_of_fuel
sweep_with (suc fuel) cancels now next seen [] =
    swept (record { kept = seen; fired = []; next_timeout = next })
sweep_with (suc fuel) cancels now next seen (t ∷ ts) =
    let timeout = (t.expire_time - now) / nanos_per_milli in
    let hs = cancels t.callback in
    let called = sweep_with fuel cancels now next (erase_all hs seen) (erase_all hs ts) in
    let waiting =
      sweep_with fuel cancels now (if ltb timeout next then timeout else next) (seen ++ t ∷ [])
        ts in
    if leb t.expire_time now
    then if is_in t.handle hs then undefined else call t.callback called
    else waiting

-- With one round more than there are timers.
unfoldable pub handle_timers_with : (ℕ → List ℕ) → ℕ → EventLoop → Swept
handle_timers_with cancels now l =
    sweep_with (suc (length l.timers)) cancels now milliseconds_max [] l.timers
