-- ===== src/Channel/Fifo.antt =====
-- Histories of `co_await ch.send(v)` and `co_await ch.recv(value)` on one open channel.
use tang.Prelude.{
  ℕ, zero, suc, ◌≡◌, refl, sym, ap, ap₂, ◌∙◌, List, [], ◌∷◌, ◌++◌, map, append_assoc, append-nil,
  length, update, length-map, update_self,
}
use tang.Channel.Runtime.{Runtime}
use tang.Channel.Defs.{State}
use tang.Channel.SendAwaiter
use tang.Channel.RecvAwaiter
use tang.Channel.RecvAwaiter.{RecvAwaiter}
use tang.Channel.Queue.{View, Settled, contents, awaiting, view, send, recv}
use tang.Channel.Refinement.{co_send-view, co_send-Settled, co_recv-view, co_recv-Settled}

-- What a coroutine, named by its handle, awaits.
pub data Op {ℓ} (T : Type ℓ) : Type ℓ where
  sending : ℕ → T → Op T
  receiving : ℕ → RecvAwaiter → Op T

module _ {ℓ} {T : Type ℓ} where
  send_untaken :
      (v : T) (a : View T)
      → a.takers ≡ []
      → send v a ≡ record { queue = a.queue ++ v ∷ []; takers = []; cell = a.cell }
  unfolding send
  send_untaken v a e = rw (e, send)

  recv_ready :
      (p : ℕ) (x : T) (xs : List T) (a : View T)
      → a.queue ≡ x ∷ xs
      → recv p a ≡ record a { queue = xs; cell = update a.cell p x }
  unfolding recv
  recv_ready p x xs a e = rw (e, recv)

  unfoldable pub view_op : Op T → View T → View T
  view_op (sending h v) a = send v a
  view_op (receiving h r) a = recv r.value a

  unfoldable pub view_run : List (Op T) → View T → View T
  unfolding view_op
  view_run [] a = a
  view_run (o ∷ os) a = view_run os (view_op o a)

module _ {ℓ} {T W : Type ℓ} ⦃rt : Runtime W⦄ where
  unfoldable pub await : Op T → State T W → State T W
  await (sending h v) s = (SendAwaiter.co_await h v s).0
  await (receiving h r) s = (RecvAwaiter.co_await h r s).0

  unfoldable pub run : List (Op T) → State T W → State T W
  unfolding await
  run [] s = s
  run (o ∷ os) s = run os (await o s)

  await-Settled : (o : Op T) (s : State T W) → Settled s → Settled (await o s)
  unfolding await
  await-Settled (sending h v) s z = co_send-Settled h v s z
  await-Settled (receiving h r) s z = co_recv-Settled h r s z

  await-view : (o : Op T) (s : State T W) → Settled s → view (await o s) ≡ view_op o (view s)
  unfolding await view_op
  await-view (sending h v) s z = co_send-view h v s z
  await-view (receiving h r) s z = co_recv-view h r s z

  -- A history of sends and receives on a settled channel, whichever of them suspend, does to the
  -- queue of values, to the queue of waiting variables and to the memory what the abstract queue
  -- says, and leaves the channel settled.
  pub run-view :
      (os : List (Op T)) (s : State T W)
      → Settled s
      → (view (run os s) ≡ view_run os (view s)) × Settled (run os s)
  unfolding run view_run
  run-view [] s z = (refl, z)
  run-view (o ∷ os) s z =
      let rest = run-view os (await o s) (await-Settled o s z) in
      (rest.0 ∙ ap (view_run os) (await-view o s z), rest.1)

  -- Senders with their handles, one after the other.
  unfoldable pub send_each : List (ℕ × T) → State T W → State T W
  send_each [] s = s
  send_each ((h, v) ∷ vs) s = send_each vs (SendAwaiter.co_await h v s).0

  -- One coroutine that receives `n` times into one variable; the values that it reads there.
  unfoldable pub recv_each : ℕ → RecvAwaiter → ℕ → State T W → List T
  recv_each h r zero s = []
  recv_each h r (suc n) s =
      let t = (RecvAwaiter.co_await h r s).0 in t.cell r.value ∷ recv_each h r n t

  send_each-view :
      (vs : List (ℕ × T)) (s : State T W)
      → Settled s
      → awaiting s ≡ []
      → (contents (send_each vs s) ≡ contents s ++ map (λ (p : ℕ × T). p.1) vs)
        × Settled (send_each vs s)
  unfolding send_each
  send_each-view [] s z e = (sym (append-nil _), z)
  send_each-view ((h, v) ∷ vs) s z e =
      let eq = co_send-view h v s z ∙ send_untaken v (view s) e in
      let rest =
        send_each-view vs (SendAwaiter.co_await h v s).0 (co_send-Settled h v s z)
          (ap (λ (a : View T). a.takers) eq) in
      (
        rest.0
            ∙ ap (λ (a : View T). a.queue ++ map (λ (p : ℕ × T). p.1) vs) eq
            ∙ append_assoc (contents s) (v ∷ []) (map (λ (p : ℕ × T). p.1) vs),
        rest.1,
      )

  recv_each-view :
      (h : ℕ) (r : RecvAwaiter) (vs : List T) (s : State T W)
      → Settled s
      → contents s ≡ vs
      → recv_each h r (length vs) s ≡ vs
  unfolding recv_each
  recv_each-view h r [] s z e = refl
  recv_each-view h r (v ∷ vs) s z e =
      let eq = co_recv-view h r s z ∙ recv_ready r.value v vs (view s) e in
      ap₂ ◌∷◌ (ap (λ (a : View T). a.cell r.value) eq ∙ update_self (s.cell) r.value v) (
        recv_each-view h r vs (RecvAwaiter.co_await h r s).0 (co_recv-Settled h r s z)
          (ap (λ (a : View T). a.queue) eq))

  -- Through a settled channel of any capacity, unbuffered ones included, with no value in it and no
  -- receiver waiting: after any number of coroutines have sent, suspended or not, a coroutine that
  -- receives as often into one variable reads exactly the values sent, in the order of the sends.
  pub recv_each-send_each :
      (h : ℕ) (r : RecvAwaiter) (vs : List (ℕ × T)) (s : State T W)
      → Settled s
      → contents s ≡ []
      → awaiting s ≡ []
      → recv_each h r (length vs) (send_each vs s) ≡ map (λ (p : ℕ × T). p.1) vs
  recv_each-send_each h r vs s z empty nobody =
      let sent = send_each-view vs s z nobody in
      let held = sent.0 ∙ ap (λ xs. xs ++ map (λ (p : ℕ × T). p.1) vs) empty in
      ap (λ n. recv_each h r n (send_each vs s)) (sym (length-map (λ (p : ℕ × T). p.1) vs))
      ∙ recv_each-view h r _ (send_each vs s) sent.1 held
