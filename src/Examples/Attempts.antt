-- ===== src/Examples/Attempts.antt =====
-- What `select_with_default_example` of examples/select_example.cpp receives.
use tang.Prelude.{
  ℕ, zero, suc, ◌+◌, ◌≡◌, ◌≢◌, refl, sym, ap, ◌∙◌, Bool, true, false, some, List, [], ◌∷◌, ◌++◌,
  map, length, drop, drop-append, append-nil, ◌==◌, if◌then◌else◌, arith, Bool-cases, inl, inr,
}
use tang.Channel.Defs.{channel, Store}
use tang.Channel.Operators.{World, joined, runtime}
use tang.Select.Defs.{
  Case, Net, case_recv, default_action, try_ready, is_ready, try_execute, execute,
}
use tang.Select.Ops.{select}
use tang.Task.Creation.{begin}
use tang.Examples.Channels.{push, start, start_lem}
use tang.Select.Choice.{select_head}
use tang.Examples.Selects.{one, case_of}
use tang.Examples.Unbuffered.{close-shut, refused}
use tang.Examples.Rounds.{shut, after, drained}
use tang.Examples.Defaults.{
  Line, sent_value, received_value, default_executed, Data, has_value, cases, printed, attempts,
  net, sender, select_with_default_example,
}

-- The attempts, from `i`, of which the default case comes first in the shuffle.
abbrev pub defaults : (ℕ → Bool) → ℕ → ℕ → List Line
defaults first i zero = []
defaults first i (suc r) =
    (if first i then default_executed ∷ [] else []) ++ defaults first (i + 1) r

module _ (hardware p busy : ℕ) (shuffle : ℕ → ℕ → List (Case ℕ) → List (Case ℕ)) (first : ℕ → Bool)
    (shuffled : (i : ℕ)
      → (rest : List (Case ℕ)) × (shuffle i 0 (cases p)
          ≡ (if first i then default_action (some 2) else case_recv 1 (some p) (some 1))
            ∷ rest)) where
  attempt :
      (i : ℕ) (n : Net ℕ World)
      → n.chans 1 ≡ shut 0 []
      → (m : Net ℕ World) × (select ⦃rt = runtime hardware⦄ busy (shuffle i) (λ j k. k) (cases p) n
          ≡ some m)
        × (m.chans 1 ≡ shut 0 [])
        × (m.called ≡ n.called ++ (if first i then 2 ∷ [] else []))
  unfolding try_ready is_ready try_execute execute
  attempt i n e = elim (Bool-cases (first i)) [
    | inl f ↦
        let k : Case ℕ = default_action (some 2) in
        let r = shuffled i in
        (
          (try_execute ⦃rt = runtime hardware⦄ k n).0,
          select_head ⦃rt = runtime hardware⦄ busy (shuffle i) (λ j m. m) (cases p) r.0 k n
              (r.1 ∙ rw f refl) refl,
          e,
          rw f refl,
        )
    | inr f ↦
        let k : Case ℕ = case_of p one in
        let r = shuffled i in
        let d = drained hardware p 0 one n e in
        (
          after hardware p one n,
          select_head ⦃rt = runtime hardware⦄ busy (shuffle i) (λ j m. m) (cases p) r.0 k n
              (r.1 ∙ rw f refl) (ground (arith, e)),
          d.1 1 ∙ e,
          d.0 ∙ rw f (sym (append-nil n.called)),
        )
  ]

  printed_defaults :
      (b : Bool) (n m : Net ℕ World)
      → m.called ≡ n.called ++ (if b then 2 ∷ [] else [])
      → printed p n m ≡ (if b then default_executed ∷ [] else [])
  printed_defaults true n m e =
      ap (map (λ f. if f == 1 then received_value (m.store.cell p) else default_executed))
        (ap (drop (length n.called)) e ∙ drop-append n.called (2 ∷ []))
  printed_defaults false n m e =
      ap (map (λ f. if f == 1 then received_value (m.store.cell p) else default_executed))
        (ap (drop (length n.called)) e ∙ drop-append n.called [])

  no_value : (b : Bool) → has_value (if b then default_executed ∷ [] else []) ≡ false
  no_value true = refl
  no_value false = refl

  attempts_lem :
      (r i : ℕ) (n : Net ℕ World)
      → n.chans 1 ≡ shut 0 []
      → (z : Net ℕ World) × (attempts hardware p busy r shuffle i n ≡ some (z, defaults first i r))
  unfolding attempts
  attempts_lem zero i n e = (n, refl)
  attempts_lem (suc r) i n e =
      let (m, chosen, chan, called) = attempt i n e in
      let (z, rest) = attempts_lem r (i + 1) m chan in
      let q = printed_defaults (first i) n m called in
      let w = ap has_value q ∙ no_value (first i) in
      (z, rw (chosen, w, rest, attempts) (ap (λ ls. some (z, ls ++ defaults first (i + 1) r)) q))

  -- `select_with_default_example` with at most `r` attempts, when the coroutine of the send has not the
  -- address 0: no receiver waits when the value is sent, so it is printed as sent and lost, and the
  -- channel is closed. Whatever the shuffles, all attempts are made, a value is never received, and the
  -- default case is executed in the attempts in which it comes first.
  select_with_default_example_lem :
      (frame : ℕ → ℕ) (r h v : ℕ) (g : World) (memory : Store ℕ)
      → frame 0 ≢ 0
      → (z : Net ℕ World) × (select_with_default_example hardware frame p busy r shuffle h v
            (g, (channel 0, memory, []))
          ≡ some (z, sent_value v ∷ defaults first 0 r))
  unfolding select_with_default_example sender channel
  select_with_default_example_lem frame r h v g memory live =
      let x : World × Data = (g, (channel 0, memory, [])) in
      let y = start hardware h (sender hardware frame p v) x in
      let e = start_lem hardware h (sender hardware frame p v) x in
      let s = joined (begin h g, (channel 0, memory)) in
      let c =
        close-shut hardware frame p (push hardware frame p 0 v s)
          (refused hardware frame p 0 v s live refl) in
      let a = attempts_lem r 0 (net y) (ap (λ (d : Data). d.0) e ∙ c) in
      (
        a.0,
        rw (a.1, select_with_default_example)
            (ap (λ (d : Data). some (a.0, d.2 ++ defaults first 0 r)) e),
      )
