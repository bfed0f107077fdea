-- ===== src/Examples/Unbuffered.antt =====
-- `unbuffered_channel_example` of examples/channel_example.cpp. The texts that are sent are of any type.
use tang.Prelude.{
  ℕ, suc, ◌+◌, ◌≡◌, ◌≢◌, refl, ap, ◌∙◌, Bool, true, Option, none, some, List, [], ◌∷◌, ◌++◌, map,
  arith,
}
use tang.Channel.Defs.{Channel, channel, Store, State}
use tang.Channel.Ops.{
  close, close_exchange, close_wake, wake_senders, wake_receivers, send_operator, try_send,
  send_open, recv_operator, try_recv, recv_front,
}
use tang.Channel.Operators.{
  World, joined, parts, runtime, begun, while_recv, while_recv_lem, send_task-effect,
}
use tang.Task.Creation.{Function, returns, begin}
use tang.Examples.Channels.{push, start, start_lem}

-- A line on `cout`.
pub data Line (T : Type 0) : Type 0 where
  sent_text received_text : T → Line T
  channel_closed : Line T

-- The channel with the memory, and what was printed; `none` if the fuel of a loop ran out.
abbrev pub Data : Type 0 → Type 0
Data T = (Channel T × Store T) × Option (List (Line T))

module _ {T : Type 0} where
  abbrev print : List (Line T) → Option (List (Line T)) → Option (List (Line T))
  print ls none = none
  print ls (some out) = some (out ++ ls)

  module _ (hardware : ℕ) (frame : ℕ → ℕ) (p : ℕ) where
    -- The loop over the messages, from the one with the index `k`.
    unfoldable pub send_all : ℕ → List T → State T World → State T World × List (Line T)
    send_all k [] s = (s, [])
    send_all k (m ∷ ms) s =
        let r = send_all (k + 1) ms (push hardware frame p k m s) in (r.0, sent_text m ∷ r.1)

    abbrev pub sender : List T → Function (Data T) Bool (Unit {0})
    sender ms (g, (v, out)) =
        let r = send_all 0 ms (joined (g, v)) in
        let s = close ⦃rt = runtime hardware⦄ r.0 in
        (((parts s).0, ((parts s).1, print r.1 out)), returns tt)

    -- `fuel` is for the loop `while (ch >> msg)`.
    abbrev pub receiver : ℕ → Function (Data T) Bool (Unit {0})
    receiver fuel (g, (v, out)) = elim (while_recv hardware fuel frame 0 p (joined (g, v))) [
      | none ↦ ((g, (v, none)), returns tt)
      | some (ms, s) ↦ (
        ((parts s).0, ((parts s).1, print (map received_text ms ++ channel_closed ∷ []) out)),
        returns tt,
      )
    ]

    unfoldable pub unbuffered_channel_example : ℕ → ℕ → List T → World × Data T → World × Data T
    unbuffered_channel_example fuel h ms x =
        start hardware h (receiver fuel) (start hardware h (sender ms) x)

    pub refused :
        (k : ℕ) (v : T) (s : State T World)
        → frame k ≢ 0
        → s.chan ≡ channel 0
        → (push hardware frame p k v s).chan ≡ channel 0
    unfolding push send_operator try_send send_open channel
    refused k v s z e = (send_task-effect hardware (frame k) v s z).0 ∙ ground (arith, e)

    all_refused :
        (ms : List T) (k : ℕ) (s : State T World)
        → ((i : ℕ) → frame i ≢ 0)
        → s.chan ≡ channel 0
        → let r = send_all k ms s in (r.0.chan ≡ channel 0) × (r.1 ≡ map sent_text ms)
    unfolding send_all
    all_refused [] k s live e = (e, refl)
    all_refused (m ∷ ms) k s live e =
        let rest =
          all_refused ms (k + 1) (push hardware frame p k m s) live (refused k m s (live k) e) in
        (rest.0, ap (λ ls. sent_text m ∷ ls) rest.1)

    abbrev shut : Channel T
    shut = record (channel 0) { closed = true }

    pub close-shut :
        (s : State T World) → s.chan ≡ channel 0 → (close ⦃rt = runtime hardware⦄ s).chan ≡ shut
    unfolding close close_exchange close_wake wake_senders wake_receivers channel
    close-shut s e = ground (arith, e)

    shut-recv :
        (q : ℕ) (s : State T World)
        → s.chan ≡ shut
        → (recv_operator ⦃rt = runtime hardware⦄ q s).0.chan ≡ shut
    unfolding recv_operator try_recv recv_front channel
    shut-recv q s e = ground (arith, e)

    receiver_lem :
        (fuel : ℕ) (x : World × Data T) (u : State T World)
        → while_recv hardware fuel frame 0 p (joined (x.0, x.1.0)) ≡ some ([], u)
        → (receiver fuel x).0.1 ≡ ((u.chan, u.store), print (channel_closed ∷ []) x.1.1)
    receiver_lem fuel x u e = rw (e, receiver) refl

    -- `unbuffered_channel_example` on a new channel, when no coroutine of an operator has the address 0: every message is printed as sent and none gets into
    -- the channel, which is closed then; the receiver gets nothing and prints that the channel is
    -- closed. Fuel for one round of its loop is enough.
    unbuffered_channel_example_lem :
        (fuel h : ℕ) (ms : List T) (g : World) (memory : Store T)
        → ((i : ℕ) → frame i ≢ 0)
        → let x = unbuffered_channel_example (suc fuel) h ms (g, ((channel 0, memory), some [])) in
          (x.1.1 ≡ some (map sent_text ms ++ channel_closed ∷ [])) × (x.1.0.0 ≡ shut)
    unfolding unbuffered_channel_example
    unbuffered_channel_example_lem fuel h ms g memory live =
        let x : World × Data T = (g, ((channel 0, memory), some [])) in
        let y : World × Data T = start hardware h (sender ms) x in
        let z : World × Data T = (begin h y.0, y.1) in
        let r = all_refused ms 0 (joined (begin h g, (channel 0, memory))) live refl in
        let w = while_recv_lem hardware fuel 0 p frame (joined (z.0, z.1.0)) (live 0) in
        let sender_chan : y.1.0.0 ≡ shut =
          ap (λ (d : Data T). d.0.0) (start_lem hardware h (sender ms) x) ∙ close-shut _ r.0 in
        let sender_out : y.1.1 ≡ some (map sent_text ms) =
          ap (λ (d : Data T). d.1) (start_lem hardware h (sender ms) x) ∙ ap (λ ls. some ls) r.1 in
        let e = start_lem hardware h (receiver (suc fuel)) y ∙ receiver_lem (suc fuel) z w.0 w.1 in
        (
          ap (λ (d : Data T). d.1) e ∙ ap (print (channel_closed ∷ [])) sender_out,
          ap (λ (d : Data T). d.0.0) e
              ∙ w.2
              ∙ shut-recv p (begun (frame 0) (joined (z.0, z.1.0))) sender_chan,
        )
