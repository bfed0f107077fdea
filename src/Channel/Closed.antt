-- ===== src/Channel/Closed.antt =====
-- What a closed channel still does.
use tang.Prelude.{
  ℕ, zero, suc, ◌<◌, ◌≡◌, refl, ap, ◌∙◌, true, false, Option, none, some, List, [], ◌∷◌, length,
  arith, update_self,
}
use tang.Channel.Runtime.{Runtime, schedule}
use tang.Channel.Defs.{State}
use tang.Channel.Ops.{
  try_send, try_recv, recv_operator, send_operator, register_send_waiter, assign, set_chan,
}
use tang.Channel.SendAwaiter

module _ {ℓ} {T W : Type ℓ} ⦃rt : Runtime W⦄ where
  -- The consumer's loop `while (co_await (ch >> value)) { … }`: the values that its body sees. `none`
  -- means that the fuel ran out.
  unfoldable pub consume : ℕ → ℕ → State T W → Option (List T × State T W)
  consume zero p s = none
  consume (suc fuel) p s = elim ((recv_operator p s).1) [
    | true ↦ elim (consume fuel p (recv_operator p s).0) [
      | none ↦ none
      | some (vs, t) ↦ some ((recv_operator p s).0.cell p ∷ vs, t)
    ]
    | false ↦ some ([], (recv_operator p s).0)
  ]

  consume_step :
      (fuel p : ℕ) (vs : List T) (s u t : State T W)
      → recv_operator p s ≡ (u, true)
      → consume fuel p u ≡ some (vs, t)
      → consume (suc fuel) p s ≡ some (u.cell p ∷ vs, t)
  unfolding consume
  consume_step fuel p vs s u t e f = ground arith

  consume_stop :
      (fuel p : ℕ) (s u : State T W)
      → recv_operator p s ≡ (u, false)
      → consume (suc fuel) p s ≡ some ([], u)
  unfolding consume
  consume_stop fuel p s u e = ground arith

  pub closed_recv :
      (p : ℕ) (x : T) (xs : List T) (s : State T W)
      → s.buffer ≡ x ∷ xs
      → s.send_waiters ≡ []
      → recv_operator p s ≡ (assign p x (set_chan (record (s.chan) { buffer = xs }) s), true)
  unfolding recv_operator try_recv
  closed_recv p x xs s e f = ground arith

  closed_end :
      (p : ℕ) (s : State T W) → s.closed ≡ true → s.buffer ≡ [] → recv_operator p s ≡ (s, false)
  unfolding recv_operator try_recv
  closed_end p s c e = ground arith

  consume_from :
      (xs : List T) (fuel p : ℕ) (s : State T W)
      → s.buffer ≡ xs
      → s.closed ≡ true
      → s.send_waiters ≡ []
      → length xs < fuel
      → (t : State T W) × (consume fuel p s ≡ some (xs, t)) × (t.buffer ≡ [])
  unfolding consume
  consume_from xs zero p s e c f h = elim h [ ]
  consume_from [] (suc fuel) p s e c f h = (s, consume_stop fuel p s s (closed_end p s c e), e)
  consume_from (x ∷ xs) (suc fuel) p s e c f h =
      let u = assign p x (set_chan (record (s.chan) { buffer = xs }) s) in
      let rest = consume_from xs fuel p u refl c f (omega arith) in
      (
        rest.0,
        consume_step fuel p xs s u rest.0 (closed_recv p x xs s e f) rest.1
            ∙ ap (λ (y : T). some (y ∷ xs, rest.0)) (update_self s.cell p x),
        rest.2,
      )

  -- Once a `close` is through, the consumer's loop ends, given more rounds than the buffer holds: it
  -- sees exactly the values that were buffered, oldest first, and leaves the buffer empty.
  pub consume_closed :
      (fuel p : ℕ) (s : State T W)
      → s.closed ≡ true
      → s.send_waiters ≡ []
      → length s.buffer < fuel
      → (t : State T W) × (consume fuel p s ≡ some (s.buffer, t)) × (t.buffer ≡ [])
  consume_closed fuel p s c f h = consume_from s.buffer fuel p s refl c f h

  -- On a closed channel no way of sending stores the value or reaches a receiver: `try_send` and `<<`
  -- fail and change nothing, and `co_await ch.send(v)` schedules its own coroutine and nothing else.
  pub send_closed :
      (h : ℕ) (v : T) (s : State T W)
      → s.closed ≡ true
      → (try_send v s ≡ (s, false))
        × (send_operator v s ≡ (s, false))
        × (SendAwaiter.co_await h v s ≡ (record s { world = schedule h s.world }, false))
  unfolding try_send send_operator SendAwaiter.co_await register_send_waiter
  send_closed h v s c = (ground arith, ground arith, ground arith)
