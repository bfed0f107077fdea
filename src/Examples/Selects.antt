-- ===== src/Examples/Selects.antt =====
-- `select_example` of examples/select_example.cpp. Headings, thread ids and pauses are left out.
use tang.Prelude.{
  ℕ, zero, suc, ◌+◌, ◌*◌, Bool, true, false, Option, none, some, List, [], ◌∷◌, ◌++◌, map, length,
  drop, ltb, update,
}
use tang.Channel.Defs.{Channel, Store}
use tang.Channel.Ops.{close}
use tang.Channel.Operators.{World, joined, runtime}
use tang.Select.Defs.{Case, Net, case_recv}
use tang.Select.Ops.{select}
use tang.Task.Creation.{Function, returns}
use tang.Examples.Channels.{Line, received, sender, start}

-- The channels by their addresses, with the memory and what was printed.
abbrev pub Data : Type 0
Data = (ℕ → Channel ℕ) × Store ℕ × List Line

-- The three channels, each with the number that its sender and its callback print.
pub data Source : Type 0 where
  one two three : Source

abbrev pub address : Source → ℕ
address one = 1
address two = 2
address three = 3

module _ (p : ℕ) where
  -- `case_recv(ch, value, …)`; its callback is named by the channel, and `p` is `value`.
  abbrev pub case_of : Source → Case ℕ
  case_of k = case_recv (address k) (some p) (some (address k))

  abbrev pub cases : List (Case ℕ)
  cases = case_of one ∷ case_of two ∷ case_of three ∷ []

  -- What the callbacks print that a round has called. Each adds one to `received`, too, which so is
  -- the number of calls.
  abbrev pub printed : Net ℕ World → Net ℕ World → List Line
  printed n m = map (λ k. received k (some (m.store.cell p))) (drop (length n.called) m.called)

-- What the senders leave to the loop.
abbrev pub net : World × Data → Net ℕ World
net (g, (cs, m, out)) = record { chans = cs; store = m; world = g; called = [] }

module _ (hardware p : ℕ) where
  -- The loop of `select_example`, from the round `j`. `shuffle j` are the shuffles in the `select` of
  -- that round. The senders have ended, so no other thread does anything. `none` means that the fuel
  -- ran out, that of the loop or that of the busy wait in a `select`.
  unfoldable pub receive_all :
      ℕ
      → ℕ
      → (ℕ → ℕ → List (Case ℕ) → List (Case ℕ))
      → ℕ
      → ℕ
      → Net ℕ World
      → Option (Net ℕ World × List Line)
  receive_all busy zero shuffle j total n = none
  receive_all busy (suc fuel) shuffle j total n = elim (ltb (length n.called) total) [
    | false ↦ some (n, [])
    | true ↦ elim (select ⦃rt = runtime hardware⦄ busy (shuffle j) (λ i m. m) (cases p) n) [
      | none ↦ none
      | some m ↦ elim (receive_all busy fuel shuffle (j + 1) total m) [
        | none ↦ none
        | some (z, ls) ↦ some (z, printed p n m ++ ls)
      ]
    ]
  ]

module _ (hardware : ℕ) (frame : ℕ → ℕ) (p : ℕ) where
  -- `send_data(ch, id, delay_ms, n)`: the loop is that of `sender` in channel_example.cpp.
  unfoldable pub send_data : ℕ → Source → Function Data Bool (Unit {0})
  send_data n k (g, (cs, m, out)) =
      let r = sender hardware frame p n (address k) 0 (joined (g, (cs (address k), m))) in
      let s = close ⦃rt = runtime hardware⦄ r.0 in
      ((s.world, (update cs (address k) s.chan, s.store, out ++ r.1)), returns tt)

  -- The three senders with `n` values each.
  unfoldable pub start_senders : ℕ → ℕ → World × Data → World × Data
  start_senders h n x =
      start hardware h (send_data n three)
        (start hardware h (send_data n two) (start hardware h (send_data n one) x))

  -- `select_example`: the channels and all that was printed.
  unfoldable pub select_example :
      ℕ
      → ℕ
      → (ℕ → ℕ → List (Case ℕ) → List (Case ℕ))
      → ℕ
      → ℕ
      → World × Data
      → Option (Net ℕ World × List Line)
  select_example busy fuel shuffle h n x =
      let y = start_senders h n x in
      elim (receive_all hardware p busy fuel shuffle 0 (3 * n) (net y)) [
        | none ↦ none
        | some (z, ls) ↦ some (z, y.1.2 ++ ls)
      ]
