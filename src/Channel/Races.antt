-- ===== src/Channel/Races.antt =====
-- Another thread that runs between `await_ready` and `await_suspend`, which take the
-- mutex one after the other.
use tang.Prelude.{ℕ, ◌<◌, ◌≡◌, true, false, [], ◌∷◌, ◌++◌, arith}
use tang.Channel.Runtime.{Runtime}
use tang.Channel.Defs.{State}
use tang.Channel.Ops.{try_send, try_recv, register_send_waiter, register_recv_waiter}
use tang.Channel.SendAwaiter
use tang.Channel.RecvAwaiter
use tang.Channel.RecvAwaiter.{RecvAwaiter, waiter}

module _ {ℓ} {T W : Type ℓ} ⦃rt : Runtime W⦄ where
  -- A channel that nobody uses at the moment.
  pub record Quiet (s : State T W) : Type ℓ where
    pub is_open : s.closed ≡ false
    pub no_values : s.buffer ≡ []
    pub no_senders : s.send_waiters ≡ []
    pub no_receivers : s.recv_waiters ≡ []

  -- On an open, empty, buffered channel a receiver finds nothing; before it registers, another
  -- thread sends `v`.
  abbrev pub overtaken : RecvAwaiter → T → State T W → State T W
  overtaken a v s = (try_send v (RecvAwaiter.await_ready a (RecvAwaiter.recv a s)).0).0

  -- On a buffered channel that is open, empty and unused, a receiver that finds nothing parks even
  -- if a value was sent before it registers: the value sits in the buffer, the receiver waits, and
  -- nothing is scheduled. The next value sent goes to the receiver, ahead of the first, which stays.
  pub lost_wakeup :
      (h : ℕ) (a : RecvAwaiter) (v w : T) (s : State T W)
      → Quiet s
      → 0 < s.capacity
      → let parked = RecvAwaiter.await_suspend h a (overtaken a v s) in
        ((RecvAwaiter.await_ready a (RecvAwaiter.recv a s)).1 ≡ false)
        × (parked.buffer ≡ v ∷ [])
        × (parked.recv_waiters ≡ waiter h a ∷ [])
        × (parked.world ≡ s.world)
        × ((try_send w parked).0.cell a.value ≡ w)
        × ((try_send w parked).0.buffer ≡ v ∷ [])
  unfolding RecvAwaiter.await_suspend RecvAwaiter.await_ready RecvAwaiter.recv try_send try_recv
      register_recv_waiter
  lost_wakeup h a v w s q room = ground arith

  -- On an unbuffered channel that is open and unused, a sender finds no receiver; a receiver, whose
  -- coroutine is live, parks before the sender registers. The receiver then gets the value, and its
  -- coroutine is the only one that is queued; the sender `h` is not among the waiting senders either.
  lost_sender :
      (h k : ℕ) (a : RecvAwaiter) (v : T) (s : State T W)
      → Quiet s
      → s.capacity ≡ 0
      → rt.is_live s.world k ≡ true
      → let met = (RecvAwaiter.co_await k a (SendAwaiter.await_ready v s).0).0 in
        let left = SendAwaiter.await_suspend h v met in
        ((SendAwaiter.await_ready v s).1 ≡ false)
        × (left.cell a.value ≡ v)
        × (rt.pending left.world ≡ rt.pending s.world ++ k ∷ [])
        × (left.send_waiters ≡ [])
        × (left.recv_waiters ≡ [])
  unfolding RecvAwaiter.co_await SendAwaiter.await_ready SendAwaiter.await_suspend try_send try_recv
      register_recv_waiter register_send_waiter
  lost_sender h k a v s q none_ live = ground (arith, rt.pending-enqueue k s.world live)
