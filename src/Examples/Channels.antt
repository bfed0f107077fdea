-- ===== src/Examples/Channels.antt =====
-- The senders and receivers of `buffered_channel_example` in examples/channel_example.cpp. Thread ids and
-- pauses are left out.
use tang.Prelude.{
  ◌≡◌, refl, ℕ, zero, suc, ◌+◌, ◌*◌, Bool, true, false, Option, none, some, List, [], ◌∷◌, ◌++◌,
}
use tang.Channel.Defs.{Channel, Store, State}
use tang.Channel.Operators.{World, joined, parts, send_task, recv_task, bool_destructor}
use tang.Task.Defs.{
  Awaited, returned, rethrown, logic_error, undefined, await_resume, drop, drop_void,
}
use tang.Task.Creation.{Function, returns, begin, create_void, go_void}

-- A line on `cout`. A receiver prints its variable also if nothing was received into it, which is
-- `none`: the variable was never written then.
pub data Line : Type 0 where
  sent : ℕ → ℕ → Line
  received : ℕ → Option ℕ → Line

abbrev pub written : ℕ → Awaited Bool → Option ℕ
written x (returned true) = some x
written x (returned false) = none
written x (rethrown e) = none
written x logic_error = none
written x undefined = none

-- The channel with the memory, and what was printed.
abbrev pub Data : Type 0
Data = (Channel ℕ × Store ℕ) × List Line

module _ (hardware : ℕ) where
  -- `tang::go(f, …);`, with the task that it returns destroyed.
  unfoldable pub start : {V : Type 0} → ℕ → Function V Bool (Unit {0}) → World × V → World × V
  start h f x = let (t, g, d) = go_void {Q = Unit {0}} hardware h f x in (drop_void t g, d)

  -- The new coroutine has run to its end.
  pub start_lem :
      {V : Type 0} (h : ℕ) (f : Function V Bool (Unit {0})) (x : World × V)
      → (start h f x).1 ≡ (f (begin h x.0, x.1)).0.1
  unfolding start go_void create_void
  start_lem h f x = refl

-- `frame` gives the addresses of the coroutines of the operators, and `p` is the variable of a receiver.
module _ (hardware : ℕ) (frame : ℕ → ℕ) (p : ℕ) where
  -- `ch << value;`, with the task destroyed at the end of the statement.
  unfoldable pub push : {T : Type 0} → ℕ → T → State T World → State T World
  push k v s = let (t, u) = send_task hardware (frame k) v s in record u { world = drop t u.world }

  -- `ch >> value;`, and what is in the variable then.
  unfoldable pub pull : ℕ → State ℕ World → State ℕ World × Option ℕ
  pull k s =
      let (t, u) = recv_task hardware (frame k) p s in
      (record u { world = drop t u.world }, written (u.cell p) (await_resume t u.world))

  -- The loops, from the round `i` with `n` rounds to go.
  unfoldable pub sender : ℕ → ℕ → ℕ → State ℕ World → State ℕ World × List Line
  sender zero id i s = (s, [])
  sender (suc n) id i s =
      let v : ℕ = id * 100 + i in let r = sender n id (i + 1) (push i v s) in (r.0, sent id v ∷ r.1)

  unfoldable pub receiver : ℕ → ℕ → ℕ → State ℕ World → State ℕ World × List Line
  receiver zero id i s = (s, [])
  receiver (suc n) id i s =
      let u = pull i s in let r = receiver n id (i + 1) u.0 in (r.0, received id u.1 ∷ r.1)

  abbrev pub function : (State ℕ World → State ℕ World × List Line) → Function Data Bool (Unit {0})
  function f (g, (v, out)) =
      let r = f (joined (g, v)) in (((parts r.0).0, ((parts r.0).1, out ++ r.1)), returns tt)

  unfoldable pub launch :
      ℕ → (State ℕ World → State ℕ World × List Line) → World × Data → World × Data
  launch h f x = start hardware h (function f) x

  -- `buffered_channel_example`, with `n` values for each sender and `m` for each receiver.
  unfoldable pub buffered_channel_example : ℕ → ℕ → ℕ → World × Data → World × Data
  buffered_channel_example h n m x =
      launch h (receiver m 2 0)
        (launch h (receiver m 1 0) (launch h (sender n 2 0) (launch h (sender n 1 0) x)))
