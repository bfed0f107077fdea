-- ===== src/Examples/Overflow.antt =====
-- What becomes of the values in `buffered_channel_example` of examples/channel_example.cpp.
use tang.Prelude.{
  ℕ, ◌≡◌, ◌≢◌, refl, sym, subst, ap, ap₂, ◌∙◌, List, [], ◌++◌, map, take, drop, arith,
}
use tang.Channel.Defs.{Channel, channel, Store, State}
use tang.Channel.Operators.{World, joined, runtime}
use tang.Task.Creation.{begin}
use tang.Examples.Channels.{
  start_lem, function, Line, sent, received, Data, sender, receiver, launch,
  buffered_channel_example,
}
use tang.Examples.Loops.{
  values, found, IsFree, filled, filled-filled, IsFree-buffer, sender-filled, receiver-found,
}

module _ (hardware : ℕ) (frame : ℕ → ℕ) (p : ℕ) (live : (k : ℕ) → frame k ≢ 0) where
  -- The channel of the program, and what it has printed.
  abbrev Holds : Channel ℕ → List Line → World × Data → Type 0
  Holds c out x = (x.1.0.0 ≡ c) × (x.1.1 ≡ out)

  launch-Holds :
      (h : ℕ) (f : State ℕ World → State ℕ World × List Line) (x : World × Data) (d : Channel ℕ)
      (ls out : List Line)
      → x.1.1 ≡ out
      → let r = f (joined (begin h x.0, x.1.0)) in
        (r.0.chan ≡ d) × (r.1 ≡ ls) → Holds d (out ++ ls) (launch hardware frame p h f x)
  unfolding launch
  launch-Holds h f x d ls out e r =
      rw (start_lem hardware h (function hardware frame p f) x) (r.0, ap₂ ◌++◌ e r.1)

  launch-sender-Holds :
      (h n id : ℕ) (x : World × Data) (c : Channel ℕ) (out : List Line)
      → IsFree c
      → Holds c out x
      → Holds
          (filled (values n id 0) c)
          (out ++ map (sent id) (values n id 0))
          (launch hardware frame p h (sender hardware frame p n id 0) x)
  launch-sender-Holds h n id x c out f e =
      let free : IsFree x.1.0.0 = subst IsFree (sym e.0) f in
      let r = sender-filled hardware frame p live n id 0 (joined (begin h x.0, x.1.0)) free in
      launch-Holds h _ x _ _ out e.1 (r.0 ∙ ap (filled (values n id 0)) e.0, r.1)

  launch-receiver-Holds :
      (h m id : ℕ) (x : World × Data) (c : Channel ℕ) (out : List Line)
      → IsFree c
      → Holds c out x
      → Holds
          (record c { buffer = drop m c.buffer })
          (out ++ map (received id) (found m c.buffer))
          (launch hardware frame p h (receiver hardware frame p m id 0) x)
  launch-receiver-Holds h m id x c out f e =
      let free : IsFree x.1.0.0 = subst IsFree (sym e.0) f in
      let r = receiver-found hardware frame p live m id 0 (joined (begin h x.0, x.1.0)) free in
      launch-Holds h _ x _ _ out e.1 (
        r.0 ∙ ap (λ (d : Channel ℕ). record d { buffer = drop m d.buffer }) e.0,
        r.1 ∙ ap (λ (d : Channel ℕ). map (received id) (found m d.buffer)) e.0,
      )

  -- `buffered_channel_example` on a new channel of the capacity `c`, with `n` values for each sender and
  -- `m` for each receiver, run by `go`, when no coroutine has the address 0: every sender prints all its values as sent, but only the first
  -- `c` of them all get into the channel. Then the first receiver takes `m` of these, the second what is
  -- left, and a receiver that finds none prints a variable that was never written.
  pub buffered_channel_example_lem :
      (h c n m : ℕ) (g : World) (memory : Store ℕ)
      → let vs = take c (values n 1 0 ++ values n 2 0) in
        let x = buffered_channel_example hardware frame p h n m (g, ((channel c, memory), [])) in
        (x.1.1
          ≡ map (sent 1) (values n 1 0)
            ++ map (sent 2) (values n 2 0)
            ++ map (received 1) (found m vs)
            ++ map (received 2) (found m (drop m vs)))
        × (x.1.0.0.buffer ≡ drop m (drop m vs))
  unfolding buffered_channel_example channel
  buffered_channel_example_lem h c n m g memory =
      let free : IsFree (channel c) = record {
        is_open = refl;
        no_senders = refl;
        no_receivers = refl;
      } in
      let us : List ℕ = values n 1 0 in
      let vs : List ℕ = values n 2 0 in
      let bs : List ℕ = take c (us ++ vs) in
      let x0 : World × Data = (g, ((channel c, memory), [])) in
      let x1 : World × Data = launch hardware frame p h (sender hardware frame p n 1 0) x0 in
      let x2 : World × Data = launch hardware frame p h (sender hardware frame p n 2 0) x1 in
      let x3 : World × Data = launch hardware frame p h (receiver hardware frame p m 1 0) x2 in
      let one = launch-sender-Holds h n 1 x0 _ [] free (refl, refl) in
      let two = launch-sender-Holds h n 2 x1 _ _ (IsFree-buffer _ _ _ refl free) one in
      let full : filled vs (filled us (channel c)) ≡ record (channel c) { buffer = bs } =
        filled-filled (channel c) us vs
        ∙ ap (λ k. record (channel c) { buffer = take k (us ++ vs) }) (omega arith) in
      let three =
        launch-receiver-Holds h m 1 x2 (record (channel c) { buffer = bs }) _
          (IsFree-buffer _ _ _ refl free) (two.0 ∙ full, two.1) in
      let four = launch-receiver-Holds h m 2 x3 _ _ (IsFree-buffer _ _ _ refl free) three in
      (four.1, ap (λ (d : Channel ℕ). d.buffer) four.0)
