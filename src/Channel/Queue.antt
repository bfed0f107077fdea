-- ===== src/Channel/Queue.antt =====
-- A channel seen as a queue: the buffer, then the values of the senders that wait.
use tang.Prelude.{
  ℕ, ◌≤◌, ◌≡◌, refl, ◌⊎◌, inl, inr, Bool, true, false, ◌&&◌, Bool-cases, is_nil, List, [], ◌∷◌,
  ◌++◌, map, map-append, append_assoc, length, update, arith,
}
use tang.Channel.Runtime.{Runtime}
use tang.Channel.Defs.{SendWaiter, State}
use tang.Channel.Ops.{try_recv, recv_front}

module _ {ℓ} {T W : Type ℓ} where
  abbrev pub parked : State T W → List T
  parked s = map (λ w. w.value) s.send_waiters

  abbrev pub contents : State T W → List T
  contents s = s.buffer ++ parked s

  -- The variables that the waiting receivers receive into.
  abbrev pub awaiting : State T W → List ℕ
  awaiting s = map (λ w. w.value_ptr) s.recv_waiters

  -- An open channel between two operations that no other thread cut in two.
  pub record Settled (s : State T W) : Type ℓ where
    pub is_open : s.closed ≡ false
    pub no_takers : (s.recv_waiters ≡ []) ⊎ ((s.buffer ≡ []) × (s.send_waiters ≡ []))
    pub no_room : (s.send_waiters ≡ []) ⊎ (s.capacity ≤ length s.buffer)

-- The promise of a channel: values queue up, and so do the variables to receive into.
pub record View {ℓ} (T : Type ℓ) : Type ℓ where
  pub queue : List T
  pub takers : List ℕ
  pub cell : ℕ → T

module _ {ℓ} {T : Type ℓ} where
  unfoldable pub send_to : T → List ℕ → View T → View T
  send_to v [] a = record a { queue = a.queue ++ v ∷ [] }
  send_to v (p ∷ ps) a = record a { takers = ps; cell = update a.cell p v }

  unfoldable pub send : T → View T → View T
  unfolding send_to
  send v a = send_to v a.takers a

  unfoldable pub recv_from : ℕ → List T → View T → View T
  recv_from p [] a = record a { takers = a.takers ++ p ∷ [] }
  recv_from p (x ∷ xs) a = record a { queue = xs; cell = update a.cell p x }

  unfoldable pub recv : ℕ → View T → View T
  unfolding recv_from
  recv p a = recv_from p a.queue a

module _ {ℓ} {T W : Type ℓ} where
  abbrev pub view : State T W → View T
  view s = record { queue = contents s; takers = awaiting s; cell = s.cell }

module _ {ℓ} {T : Type ℓ} where
  -- The value of a sender that joins the waiting ones is the newest.
  pub parked-join :
      (xs : List T) (ws : List (SendWaiter T)) (w : SendWaiter T)
      → xs ++ map (λ u. u.value) (ws ++ w ∷ []) ≡ (xs ++ map (λ u. u.value) ws) ++ w.value ∷ []
  parked-join xs ws w = simp (map-append, append_assoc)

module _ {ℓ} {T W : Type ℓ} ⦃rt : Runtime W⦄ where
  -- A receive that fails, and why; or one that takes the oldest value.
  abbrev pub Receives : ℕ → State T W → State T W × Bool → Type ℓ
  Receives p s r =
      ((r ≡ (s, false)) × (s.buffer ≡ []) × ((s.closed ≡ true) ⊎ (s.send_waiters ≡ [])))
      ⊎ ((r.1 ≡ true) × (contents s ≡ r.0.cell p ∷ contents r.0))

  recv_front-Receives :
      (p : ℕ) (xs : List T) (ws : List (SendWaiter T)) (s : State T W)
      → s.buffer ≡ xs
      → s.send_waiters ≡ ws
      → Receives p s (recv_front p xs ws s)
  unfolding recv_front
  recv_front-Receives p (x ∷ xs) [] s e f = inr (refl, ground arith)
  recv_front-Receives p (x ∷ xs) (w ∷ ws) s e f = inr (
    refl,
    ground (arith, append_assoc xs (w.value ∷ []) (map (λ (u : SendWaiter T). u.value) ws)),
  )
  recv_front-Receives p [] (w ∷ ws) s e f = inr (refl, ground arith)
  recv_front-Receives p [] [] s e f = inl (refl, e, inr f)

  -- In any state, also between the steps of other threads, `try_recv` either fails and changes
  -- nothing, which happens only on an empty buffer that is closed or has no waiting sender; or it
  -- succeeds with the oldest value, waiting senders' values included, and keeps the rest in order.
  pub try_recv-Receives : (p : ℕ) (s : State T W) → Receives p s (try_recv p s)
  unfolding try_recv
  try_recv-Receives p s = elim (Bool-cases (s.closed && is_nil s.buffer)) [
    | inl e ↦ rw (e, try_recv) (inl (refl, ground arith, inl (ground arith)))
    | inr e ↦ rw (e, try_recv) (recv_front-Receives p s.buffer s.send_waiters s refl refl)
  ]
