-- ===== src/Examples/Defaults.antt =====
-- `select_with_default_example` of examples/select_example.cpp. Headings and pauses are left out.
use tang.Prelude.{
  ℕ, zero, suc, ◌+◌, Bool, true, false, ◌||◌, Option, none, some, List, [], ◌∷◌, ◌++◌, map, length,
  drop, ◌==◌, if◌then◌else◌,
}
use tang.Channel.Defs.{Channel, Store}
use tang.Channel.Ops.{close}
use tang.Channel.Operators.{World, joined, runtime}
use tang.Select.Defs.{Case, Net, case_recv, default_action}
use tang.Select.Ops.{select}
use tang.Task.Creation.{Function, returns}
use tang.Examples.Channels.{push, start}

pub data Line : Type 0 where
  sent_value received_value : ℕ → Line
  default_executed : Line

-- The channel, the memory and what was printed.
abbrev pub Data : Type 0
Data = Channel ℕ × Store ℕ × List Line

abbrev pub executed : Line → Bool
executed (sent_value v) = false
executed (received_value v) = true
executed default_executed = false

-- Whether a callback received a value, by what was printed.
abbrev pub has_value : List Line → Bool
has_value [] = false
has_value (l ∷ ls) = executed l || has_value ls

module _ (p : ℕ) where
  -- The receive case with the callback 1, and the default case with the callback 2; `p` is `value`.
  abbrev pub cases : List (Case ℕ)
  cases = case_recv 1 (some p) (some 1) ∷ default_action (some 2) ∷ []

  abbrev pub printed : Net ℕ World → Net ℕ World → List Line
  printed n m =
      map (λ f. if f == 1 then received_value (m.store.cell p) else default_executed)
        (drop (length n.called) m.called)

module _ (hardware p : ℕ) where
  -- The loop with `r` attempts left, from the attempt `i`, with what it prints. `none` means that the fuel
  -- of a busy wait ran out.
  unfoldable pub attempts :
      ℕ
      → ℕ
      → (ℕ → ℕ → List (Case ℕ) → List (Case ℕ))
      → ℕ
      → Net ℕ World
      → Option (Net ℕ World × List Line)
  attempts busy zero shuffle i n = some (n, [])
  attempts busy (suc r) shuffle i n =
      elim (select ⦃rt = runtime hardware⦄ busy (shuffle i) (λ j m. m) (cases p) n) [
        | none ↦ none
        | some m ↦ elim (has_value (printed p n m)) [
          | true ↦ some (m, printed p n m)
          | false ↦ elim (attempts busy r shuffle (i + 1) m) [
            | none ↦ none
            | some (z, ls) ↦ some (z, printed p n m ++ ls)
          ]
        ]
      ]

abbrev pub net : World × Data → Net ℕ World
net (g, (c, m, out)) = record { chans = λ _. c; store = m; world = g; called = [] }

module _ (hardware : ℕ) (frame : ℕ → ℕ) (p : ℕ) where
  -- The coroutine that sends `v`.
  unfoldable pub sender : ℕ → Function Data Bool (Unit {0})
  sender v (g, (c, m, out)) =
      let s = close ⦃rt = runtime hardware⦄ (push hardware frame p 0 v (joined (g, (c, m)))) in
      ((s.world, (s.chan, s.store, out ++ sent_value v ∷ [])), returns tt)

  -- With `r` attempts at most.
  unfoldable pub select_with_default_example :
      ℕ
      → ℕ
      → (ℕ → ℕ → List (Case ℕ) → List (Case ℕ))
      → ℕ
      → ℕ
      → World × Data
      → Option (Net ℕ World × List Line)
  select_with_default_example busy r shuffle h v x =
      let y = start hardware h (sender v) x in
      elim (attempts hardware p busy r shuffle 0 (net y)) [
        | none ↦ none
        | some (z, ls) ↦ some (z, y.1.2 ++ ls)
      ]
