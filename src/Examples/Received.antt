-- ===== src/Examples/Received.antt =====
-- `select_example` of examples/select_example.cpp as a whole.
use tang.Prelude.{
  ℕ, zero, suc, ◌+◌, ◌*◌, ◌≤◌, ◌<◌, ◌≡◌, ◌≢◌, refl, ap, ◌∙◌, none, some, List, [], ◌∷◌, ◌++◌, map,
  length, take, ◌==◌, if◌then◌else◌, arith,
}
use tang.Channel.Defs.{Channel, channel, Store, State}
use tang.Channel.Ops.{close, close_exchange, close_wake, wake_senders, wake_receivers}
use tang.Channel.Operators.{World, joined, runtime}
use tang.Task.Creation.{begin}
use tang.Select.Defs.{Case, Net}
use tang.Examples.Channels.{Line, sent, sender, start, start_lem}
use tang.Examples.Loops.{values, filled, IsFree, sender-filled}
use tang.Examples.Selects.{
  Data, Source, one, two, three, address, case_of, cases, send_data, start_senders, net,
  select_example,
}
use tang.Examples.Rounds.{shut, values_of, Holds}
use tang.Examples.Fairness.{count, receive_all-Drains, receive_all_spins}

take_all {ℓ} : {A : Type ℓ} (k : ℕ) (vs : List A) → length vs ≤ k → take k vs ≡ vs
take_all zero [] h = refl
take_all zero (v ∷ vs) h = absurd (omega arith)
take_all (suc k) [] h = refl
take_all (suc k) (v ∷ vs) h = ap (λ ws. v ∷ ws) (take_all k vs (omega arith))

length-values : (n id i : ℕ) → length (values n id i) ≡ n
length-values zero id i = refl
length-values (suc n) id i = ap suc (length-values n id (i + 1))

length-take : (k : ℕ) (vs : List ℕ) → length (take k vs) ≤ k
length-take zero vs = omega arith
length-take (suc k) [] = omega arith
length-take (suc k) (v ∷ vs) = omega (arith, length-take k vs)

-- What fits into a new channel.
filled_new :
    (c : ℕ) (vs : List ℕ) → filled vs (channel c) ≡ record (channel c) { buffer = take c vs }
unfolding channel
filled_new c vs = ap (λ k. record (channel c) { buffer = take k vs }) (omega arith)

module _ (hardware : ℕ) (frame : ℕ → ℕ) (p c n : ℕ) (live : (k : ℕ) → frame k ≢ 0) where
  close-shut :
      (vs : List ℕ) (s : State ℕ World)
      → s.chan ≡ record (channel c) { buffer = vs }
      → (close ⦃rt = runtime hardware⦄ s).chan ≡ shut c vs
  unfolding close close_exchange close_wake wake_senders wake_receivers channel
  close-shut vs s e = ground (arith, e)

  -- The state after a sender was started.
  send_data_lem :
      (k : Source) (h : ℕ) (x : World × Data)
      → x.1.0 (address k) ≡ channel c
      → let vs = values n (address k) 0 in
        let y = start hardware h (send_data hardware frame p n k) x in
        ((i : ℕ) → y.1.0 i ≡ (if address k == i then shut c (take c vs) else x.1.0 i))
        × (y.1.2 ≡ x.1.2 ++ map (sent (address k)) vs)
  unfolding send_data channel
  send_data_lem k h x e =
      let s : State ℕ World = joined (begin h x.0, (x.1.0 (address k), x.1.1)) in
      let free : IsFree s.chan =
        rw e (record { is_open = refl; no_senders = refl; no_receivers = refl }) in
      let r = sender-filled hardware frame p live n (address k) 0 s free in
      let w =
        close-shut (take c (values n (address k) 0)) (sender hardware frame p n (address k) 0 s).0
          (r.0 ∙ ap (filled (values n (address k) 0)) e ∙ filled_new c (values n (address k) 0)) in
      rw (start_lem hardware h (send_data hardware frame p n k) x) (
        λ i. ap (λ (d : Channel ℕ). if address k == i then d else x.1.0 i) w,
        ap (λ ls. x.1.2 ++ ls) r.1,
      )

  abbrev sent_lines : Source → List Line
  sent_lines k = map (sent (address k)) (values n (address k) 0)

  abbrev all_values : Source → List ℕ
  all_values k = take c (values n (address k) 0)

  -- The channels and the lines when the senders have been started.
  start_senders_lem :
      (h : ℕ) (x : World × Data)
      → x.1.0 ≡ (λ _. channel c)
      → let y = start_senders hardware frame p h n x in
        Holds c (net y) all_values
        × (y.1.2 ≡ ((x.1.2 ++ sent_lines one) ++ sent_lines two) ++ sent_lines three)
  unfolding start_senders
  start_senders_lem h x e =
      let f : (i : ℕ) → x.1.0 i ≡ channel c = λ i. ap (λ (cs : ℕ → Channel ℕ). cs i) e in
      let a : World × Data = start hardware h (send_data hardware frame p n one) x in
      let b : World × Data = start hardware h (send_data hardware frame p n two) a in
      let one_sent = send_data_lem one h x (f 1) in
      let two_sent = send_data_lem two h a (one_sent.0 2 ∙ f 2) in
      let y : World × Data = start hardware h (send_data hardware frame p n three) b in
      let three_sent = send_data_lem three h b (two_sent.0 3 ∙ one_sent.0 3 ∙ f 3) in
      (
        λ i. elim i as (λ k. y.1.0 (address k) ≡ shut c (all_values k)) [
          | one ↦ three_sent.0 1 ∙ two_sent.0 1 ∙ one_sent.0 1
          | two ↦ three_sent.0 2 ∙ two_sent.0 2
          | three ↦ three_sent.0 3
        ],
        three_sent.1
            ∙ ap (λ ls. ls ++ sent_lines three)
                (two_sent.1 ∙ ap (λ ls. ls ++ sent_lines two) one_sent.1),
      )

  module _ (shuffle : ℕ → ℕ → List (Case ℕ) → List (Case ℕ)) (first : ℕ → Source)
      (shuffled : (j : ℕ)
        → (rest : List (Case ℕ)) × (shuffle j 0 (cases p) ≡ case_of p (first j) ∷ rest)) where
    -- `select_example` with three new channels, when no coroutine of an operator has the address 0. If
    -- the `n` values of a sender fit into its channel, and within `fuel` rounds each channel is first in
    -- a shuffle `n` times, the loop ends, all the channels are empty, and from each channel all the
    -- values that its sender sent were printed once each, in the order of the sends.
    pub select_example-ends :
        (busy fuel h : ℕ) (g : World) (memory : Store ℕ)
        → n ≤ c
        → ((i : Source) → n ≤ count i first 0 fuel)
        → let o =
            select_example hardware frame p busy
              (suc fuel)
              shuffle
              h
              n
              (g, ((λ _. channel c), memory, [])) in
          (z : Net ℕ World) × (ls : List Line) × (o
            ≡ some (z, ((sent_lines one ++ sent_lines two) ++ sent_lines three) ++ ls))
          × ((i : Source) → values_of (address i) ls ≡ map some (values n (address i) 0))
          × ((i : Source) → (z.chans (address i)).buffer ≡ [])
    unfolding select_example
    select_example-ends busy fuel h g memory fits fair =
        let x : World × Data = (g, ((λ _. channel c), memory, [])) in
        let y = start_senders hardware frame p h n x in
        let s = start_senders_lem h x refl in
        let full : (k : Source) → all_values k ≡ values n (address k) 0 =
          λ k. take_all c _ (omega (arith, length-values n (address k) 0, fits)) in
        let size : (k : Source) → length (all_values k) ≡ n =
          λ k. ap length (full k) ∙ length-values n (address k) 0 in
        let d =
          receive_all-Drains hardware p c busy shuffle first shuffled fuel 0 (3 * n) (net y)
            all_values s.0 (omega (arith, size one, size two, size three))
            (λ i. rw (size i) (fair i)) in
        (
          d.last,
          d.lines,
          rw (d.result, select_example) (ap (λ out. some (d.last, out ++ d.lines)) s.1),
          λ i. d.prints i ∙ ap (map some) (full i),
          λ i. ap (λ (a : Channel ℕ). a.buffer) (d.emptied i),
        )

    -- If the values do not fit, `select_example` never ends, whatever the shuffles and however long it
    -- runs: the values that were refused are counted on for ever.
    select_example-spins :
        (busy fuel h : ℕ) (g : World) (memory : Store ℕ)
        → c < n
        → select_example hardware frame p busy fuel shuffle h n (g, ((λ _. channel c), memory, []))
          ≡ none
    unfolding select_example
    select_example-spins busy fuel h g memory more =
        let x : World × Data = (g, ((λ _. channel c), memory, [])) in
        let y = start_senders hardware frame p h n x in
        let s = start_senders_lem h x refl in
        let few : (k : Source) → length (all_values k) ≤ c =
          λ k. length-take c (values n (address k) 0) in
        rw
          (
            receive_all_spins hardware p c busy shuffle first shuffled fuel 0 (3 * n) (net y)
                all_values s.0 (omega (arith, few one, few two, few three)),
            select_example,
          )
          refl
