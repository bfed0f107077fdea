-- ===== src/Channel/Refinement.antt =====
-- `co_await` on a send or a receive, with no other thread between `await_ready` and `await_suspend`,
-- against the operations of the queue of Channel/Queue.antt.
use tang.Prelude.{
  ℕ, ◌≤◌, ◌≡◌, inl, inr, true, false, ◌||◌, [], ◌∷◌, ◌++◌, map, map-append, append_assoc,
  append-nil, length, length-append, arith, Bool-cases, List-cases, leb, ◌==◌,
}
use tang.Channel.Runtime.{Runtime}
use tang.Channel.Defs.{SendWaiter, RecvWaiter, State}
use tang.Channel.Ops.{try_send, try_recv, register_send_waiter, register_recv_waiter}
use tang.Channel.SendAwaiter
use tang.Channel.RecvAwaiter
use tang.Channel.RecvAwaiter.{RecvAwaiter, waiter}
use tang.Channel.Queue.{Settled, view, send, recv, parked-join}

le_of_full : (c l : ℕ) → (c == 0 || leb c l) ≡ true → c ≤ l
le_of_full c l h = ground arith

lt_of_room : (c l : ℕ) → (c == 0 || leb c l) ≡ false → ¬ (c ≤ l)
lt_of_room c l h = ground arith

module _ {ℓ} {T W : Type ℓ} ⦃rt : Runtime W⦄ where
  -- On a settled channel `co_await ch.send(v)`, however it suspends, is the abstract `send`.
  pub co_send-view :
      (h : ℕ) (v : T) (s : State T W)
      → Settled s
      → view (SendAwaiter.co_await h v s).0 ≡ send v (view s)
  unfolding SendAwaiter.co_await try_send register_send_waiter send
  co_send-view h v s z = elim (List-cases s.recv_waiters) [
    | inl e ↦ ground (
      arith,
      parked-join s.buffer s.send_waiters (record { handle = h; value = v }),
      append-nil s.buffer,
      append-nil (s.buffer ++ v ∷ []),
    )
    | inr (w, ws, e) ↦ ground arith
  ]

  pub co_send-Settled :
      (h : ℕ) (v : T) (s : State T W) → Settled s → Settled (SendAwaiter.co_await h v s).0
  unfolding SendAwaiter.co_await try_send register_send_waiter
  co_send-Settled h v s z =
      elim (Bool-cases (s.capacity == 0 || leb s.capacity (length s.buffer))) [
        | inl f ↦ ground (arith, le_of_full s.capacity (length s.buffer) f)
        | inr f ↦ ground (arith, lt_of_room s.capacity (length s.buffer) f, z.no_room)
      ]

  pub co_recv-view :
      (h : ℕ) (a : RecvAwaiter) (s : State T W)
      → Settled s
      → view (RecvAwaiter.co_await h a s).0 ≡ recv a.value (view s)
  unfolding RecvAwaiter.co_await try_recv register_recv_waiter recv
  co_recv-view h a s z = elim (List-cases s.buffer) [
    | inl e ↦
        ground
          (arith, map-append (λ (u : RecvWaiter). u.value_ptr) s.recv_waiters (waiter h a ∷ []))
    | inr (x, xs, e) ↦ elim (List-cases s.send_waiters) [
      | inl f ↦ ground arith
      | inr (w, ws, f) ↦
          ground (arith, append_assoc xs (w.value ∷ []) (map (λ (u : SendWaiter T). u.value) ws))
    ]
  ]

  pub co_recv-Settled :
      (h : ℕ) (a : RecvAwaiter) (s : State T W) → Settled s → Settled (RecvAwaiter.co_await h a s).0
  unfolding RecvAwaiter.co_await try_recv register_recv_waiter
  co_recv-Settled h a s z = grind (arith, length-append)
