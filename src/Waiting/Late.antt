-- ===== src/Waiting/Late.antt =====
-- A value that comes to a receiver of include/tang/channel.h after the loops of src/runtime.cpp have
-- resumed it.
use tang.Prelude.{ℕ, ◌≡◌, Bool, true, false, [], ◌∷◌, arith, update, update_self, ap, ◌∙◌}
use tang.Channel.Runtime.{Runtime}
use tang.Channel.Defs.{Channel, State}
use tang.Channel.Ops.{try_send, send_open, hand_to, try_recv, recv_front, register_recv_waiter}
use tang.Channel.RecvAwaiter
use tang.Channel.RecvAwaiter.{RecvAwaiter, waiter}
use tang.Channel.Races.{Quiet}

module _ {ℓ} {T W : Type ℓ} ⦃rt : Runtime W⦄ where
  parked :
      (h : ℕ) (a : RecvAwaiter) (s : State T W)
      → Quiet s
      → let t = (RecvAwaiter.co_await h a s).0 in
        (t.chan ≡ record s.chan { recv_waiters = waiter h a ∷ [] })
        × (RecvAwaiter.await_resume a t ≡ false)
  unfolding RecvAwaiter.co_await RecvAwaiter.await_resume RecvAwaiter.recv try_recv
      register_recv_waiter
  parked h a s z = (ground arith, ground arith)

  handed :
      (h : ℕ) (a : RecvAwaiter) (v : T) (u : State T W)
      → u.closed ≡ false
      → u.recv_waiters ≡ waiter h a ∷ []
      → try_send v u ≡ (hand_to v (waiter h a) [] u, true)
  unfolding try_send send_open
  handed h a v u c w = ground arith

  nothing_left :
      (q : ℕ) (u : State T W) → u.buffer ≡ [] → u.send_waiters ≡ [] → (try_recv q u).1 ≡ false
  unfolding try_recv recv_front
  nothing_left q u b w = ground arith

  -- A coroutine that comes to `co_await ch.recv(value)` on an open, empty and unused channel, and is
  -- resumed before a value is sent, reads the answer `false`. If the channel is still as that left it,
  -- a `try_send` after that answers `true`, but the value goes through the old pointers of that wait to
  -- the variable and the answer which were already read: nothing is in the channel, and the next
  -- receiver finds nothing.
  pub sent_late :
      (h q : ℕ) (a : RecvAwaiter) (v : T) (s u : State T W)
      → Quiet s
      → u.chan ≡ (RecvAwaiter.co_await h a s).0.chan
      → let r = try_send v u in
        (RecvAwaiter.await_resume a (RecvAwaiter.co_await h a s).0 ≡ false)
        × (r.1 ≡ true)
        × (r.0.cell a.value ≡ v)
        × (RecvAwaiter.await_resume a r.0 ≡ true)
        × (r.0.buffer ≡ [])
        × (r.0.recv_waiters ≡ [])
        × ((try_recv q r.0).1 ≡ false)
  unfolding RecvAwaiter.await_resume
  sent_late h q a v s u z e =
      let p = parked h a s z in
      let c : u.chan ≡ record s.chan { recv_waiters = waiter h a ∷ [] } = e ∙ p.0 in
      let r =
        handed h a v u (ap (λ (d : Channel T). d.closed) c ∙ z.is_open)
          (ap (λ (d : Channel T). d.recv_waiters) c) in
      let b : u.buffer ≡ [] = ap (λ (d : Channel T). d.buffer) c ∙ z.no_values in
      let w = ap (λ (d : Channel T). d.send_waiters) c ∙ z.no_senders in
      (
        p.1,
        ap (λ (x : State T W × Bool). x.1) r,
        ap (λ (x : State T W × Bool). x.0.cell a.value) r ∙ update_self u.cell a.value v,
        ap (λ (x : State T W × Bool). x.0.flag a.result) r
            ∙ update_self (update u.flag a.result true) a.result true,
        ap (λ (x : State T W × Bool). x.0.buffer) r ∙ b,
        ap (λ (x : State T W × Bool). x.0.recv_waiters) r,
        ap (λ (x : State T W × Bool). (try_recv q x.0).1) r
            ∙ nothing_left q (hand_to v (waiter h a) [] u) b w,
      )
