-- ===== src/Channel/Invariant.antt =====
-- What every operation of a channel keeps, whichever threads interleave.
use tang.Prelude.{ℕ, ◌≤◌, ◌≡◌, refl, ◌⊎◌, inl, true, false, [], ◌∷◌, length, length-append, arith}
use tang.Channel.Runtime.{Runtime}
use tang.Channel.Defs.{RecvWaiter, Store, channel}
use tang.Channel.Ops.{
  try_send, try_recv, register_send_waiter, register_recv_waiter, close_exchange,
}
use tang.Channel.Waking.{close_wake-chan}
use tang.Channel.System.{
  System, Step, sends, receives, parks_sender, parks_receiver, exchanges, wakes, elsewhere, init,
  Reach, start, later,
}

-- The buffer keeps to the capacity `n`; senders and receivers never wait at the same time; once
-- `close` is through, nobody waits.
pub record Inv {ℓ} {T W : Type ℓ} (n : ℕ) (y : System T W) : Type ℓ where
  pub sized : y.capacity ≡ n
  pub bounded : length y.buffer ≤ n
  pub exclusive : (y.send_waiters ≡ []) ⊎ (y.recv_waiters ≡ [])
  pub shutting : y.closing ≡ true → y.closed ≡ true
  pub swept : y.closed ≡ true → y.closing ≡ false → (y.send_waiters ≡ []) × (y.recv_waiters ≡ [])

module _ {ℓ} {T W : Type ℓ} ⦃rt : Runtime W⦄ {n : ℕ} where
  sends-Inv :
      (v : T) (y : System T W) → Inv n y → Inv n (record y { state = (try_send v y.state).0 })
  unfolding try_send
  sends-Inv v y i = ground (arith, length-append y.buffer (v ∷ []))

  receives-Inv :
      (p : ℕ) (y : System T W) → Inv n y → Inv n (record y { state = (try_recv p y.state).0 })
  unfolding try_recv
  receives-Inv p y i = grind (arith, length-append)

  parks_sender-Inv :
      (h : ℕ) (v : T) (y : System T W)
      → Inv n y
      → Inv n (record y { state = register_send_waiter h v y.state })
  unfolding register_send_waiter
  parks_sender-Inv h v y i = ground arith

  parks_receiver-Inv :
      (r : RecvWaiter) (y : System T W)
      → Inv n y
      → Inv n (record y { state = register_recv_waiter r y.state })
  unfolding register_recv_waiter
  parks_receiver-Inv r y i = ground arith

  -- Every step of any thread keeps the invariant.
  pub Step-Inv : {x y : System T W} → Step x y → Inv n x → Inv n y
  unfolding close_exchange
  Step-Inv {x} (sends v) i = sends-Inv v x i
  Step-Inv {x} (receives p) i = receives-Inv p x i
  Step-Inv {x} (parks_sender h v) i = parks_sender-Inv h v x i
  Step-Inv {x} (parks_receiver r) i = parks_receiver-Inv r x i
  Step-Inv exchanges i = ground arith
  Step-Inv {x} (wakes c) i = ground (arith, close_wake-chan x.state)
  Step-Inv {x} (elsewhere m w) i = record {
    sized = i.sized;
    bounded = i.bounded;
    exclusive = i.exclusive;
    shutting = i.shutting;
    swept = i.swept;
  }

  init-Inv : (m : Store T) (w : W) → Inv n (init n m w)
  unfolding channel
  init-Inv m w = record {
    sized = refl;
    bounded = omega arith;
    exclusive = inl refl;
    shutting = λ e. cc;
    swept = λ e _. (refl, refl);
  }

  -- However the calls of any number of threads interleave, the buffer of a channel never holds more
  -- values than the capacity it was made with, no sender waits while a receiver waits, and once a
  -- `close` is through nobody waits, nor will.
  pub Reach-Inv : {y : System T W} → Reach n y → Inv n y
  Reach-Inv (start m w) = init-Inv m w
  Reach-Inv (later r st) = Step-Inv st (Reach-Inv r)
