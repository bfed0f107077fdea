-- ===== src/Channel/Waking.antt =====
-- `close` of include/tang/channel.h: what its wake-up loops do to the channel, to the results that
-- the receivers read, and to the runtime.
use tang.Prelude.{
  ℕ, ◌≡◌, refl, ap, ◌∙◌, Bool, true, false, Option, none, some, inl, inr, Bool-cases, List, [], ◌∷◌,
  ◌++◌, map, All, arith,
}
use tang.Channel.Runtime.{Runtime, schedule_all, AllLive, schedule_all-append, pending-schedule_all}
use tang.Channel.Defs.{SendWaiter, RecvWaiter, Channel, State}
use tang.Channel.Ops.{
  wake_senders, wake_receivers, close_wake, close, close_exchange, set_chan, resume_with_result,
}

-- The coroutines that wait.
abbrev pub sender_handles {ℓ} : {T : Type ℓ} → List (SendWaiter T) → List ℕ
sender_handles = map λ w. w.handle

abbrev pub receiver_handles : List RecvWaiter → List ℕ
receiver_handles = map λ w. w.handle

-- A flag that is false, if there is one.
abbrev pub IsDown : (ℕ → Bool) → Option ℕ → Type 0
IsDown f none = Unit
IsDown f (some p) = f p ≡ false

IsDown-of : (f : ℕ → Bool) (o : Option ℕ) → ((p : ℕ) → o ≡ some p → f p ≡ false) → IsDown f o
IsDown-of f none h = tt
IsDown-of f (some p) h = h p refl

-- The receiver's result says that the receive failed.
abbrev pub HasFailed : (ℕ → Bool) → RecvWaiter → Type 0
HasFailed f w = IsDown f w.result_ptr

module _ {ℓ} {T W : Type ℓ} ⦃rt : Runtime W⦄ where
  record Woken (s t : State T W) (hs : List ℕ) : Type ℓ where
    chan : t.chan ≡ s.chan
    cell : t.cell ≡ s.cell
    world : t.world ≡ schedule_all hs s.world

  wake_senders-Woken :
      (ws : List (SendWaiter T)) (s : State T W) → Woken s (wake_senders ws s) (sender_handles ws)
  unfolding wake_senders schedule_all
  wake_senders-Woken [] s = record { chan = refl; cell = refl; world = refl }
  wake_senders-Woken (w ∷ ws) s =
      let r = wake_senders-Woken ws (record s { world = rt.enqueue w.handle s.world }) in
      record { chan = r.chan; cell = r.cell; world = r.world }

  wake_receivers-Woken :
      (ws : List RecvWaiter) (s : State T W) → Woken s (wake_receivers ws s) (receiver_handles ws)
  unfolding wake_receivers schedule_all
  wake_receivers-Woken [] s = record { chan = refl; cell = refl; world = refl }
  wake_receivers-Woken (w ∷ ws) s =
      let r = wake_receivers-Woken ws (resume_with_result w false s) in
      record { chan = r.chan; cell = r.cell; world = r.world }

  -- A flag that is down stays down.
  wake_receivers-flag :
      (ws : List RecvWaiter) (s : State T W) (p : ℕ)
      → s.flag p ≡ false
      → (wake_receivers ws s).flag p ≡ false
  unfolding wake_receivers
  wake_receivers-flag [] s p h = h
  wake_receivers-flag (w ∷ ws) s p h =
      wake_receivers-flag ws (resume_with_result w false s) p (ground arith)

  wake_receivers-HasFailed :
      (ws : List RecvWaiter) (s : State T W) → All (HasFailed (wake_receivers ws s).flag) ws
  unfolding wake_receivers
  wake_receivers-HasFailed [] s = tt
  wake_receivers-HasFailed (w ∷ ws) s = (
    IsDown-of (wake_receivers (w ∷ ws) s).flag w.result_ptr
        (λ p e. wake_receivers-flag ws (resume_with_result w false s) p (ground arith)),
    wake_receivers-HasFailed ws (resume_with_result w false s),
  )

  senders_woken : State T W → State T W
  senders_woken s =
      let u = wake_senders s.send_waiters s in set_chan (record (u.chan) { send_waiters = [] }) u

  -- Only the waiter lists of the channel change.
  pub close_wake-chan :
      (s : State T W)
      → (close_wake s).chan ≡ record (s.chan) { send_waiters = []; recv_waiters = [] }
  unfolding close_wake senders_woken
  close_wake-chan s = cc (
    (wake_senders-Woken s.send_waiters s).chan,
    (wake_receivers-Woken s.recv_waiters (senders_woken s)).chan,
  )

  close_wake-world :
      (s : State T W)
      → (close_wake s).world
        ≡ schedule_all (sender_handles s.send_waiters ++ receiver_handles s.recv_waiters) s.world
  unfolding close_wake senders_woken
  close_wake-world s = cc (
    (wake_senders-Woken s.send_waiters s).world,
    (wake_receivers-Woken s.recv_waiters (senders_woken s)).world,
    schedule_all-append (sender_handles s.send_waiters) (receiver_handles s.recv_waiters) s.world,
  )

  close_wake-cell : (s : State T W) → (close_wake s).cell ≡ s.cell
  unfolding close_wake senders_woken
  close_wake-cell s = cc (
    (wake_senders-Woken s.send_waiters s).cell,
    (wake_receivers-Woken s.recv_waiters (senders_woken s)).cell,
  )

  close_wake-HasFailed : (s : State T W) → All (HasFailed (close_wake s).flag) s.recv_waiters
  unfolding close_wake senders_woken
  close_wake-HasFailed s = wake_receivers-HasFailed s.recv_waiters (senders_woken s)

  -- Closing an open channel whose waiting coroutines are all live queues each of them once, the
  -- senders first and each side in the order of its waiting; every waiting receiver reads a failed
  -- receive and no variable is written; of the channel only the mark and the waiter lists change.
  pub close_wakes_everyone :
      (s : State T W)
      → s.closed ≡ false
      → AllLive s.world (sender_handles s.send_waiters ++ receiver_handles s.recv_waiters)
      → (rt.pending (close s).world
          ≡ rt.pending s.world
            ++ (sender_handles s.send_waiters ++ receiver_handles s.recv_waiters))
        × All (HasFailed (close s).flag) s.recv_waiters
        × ((close s).cell ≡ s.cell)
        × ((close s).chan ≡ record (s.chan) { closed = true; send_waiters = []; recv_waiters = [] })
  unfolding close close_exchange
  close_wakes_everyone s open_ live =
      rw (open_, close)
        (
          ap rt.pending (close_wake-world shut) ∙ pending-schedule_all _ s.world live,
          close_wake-HasFailed shut,
          close_wake-cell shut,
          close_wake-chan shut,
        )
    where
      shut : State T W
      shut = set_chan (record (s.chan) { closed = true }) s

  close_closed : (s : State T W) → s.closed ≡ true → close s ≡ s
  unfolding close close_exchange
  close_closed s e = rw (e, close)

  close-closed : (s : State T W) → (close s).closed ≡ true
  unfolding close close_exchange
  close-closed s = elim (Bool-cases s.closed) [
    | inl e ↦ rw (e, close) refl
    | inr e ↦
        rw (e, close)
          (ap (λ (c : Channel T). c.closed)
            (close_wake-chan (set_chan (record (s.chan) { closed = true }) s)))
  ]

  -- A second `close` changes nothing, so the destructor of a closed channel wakes nobody.
  pub close-close : (s : State T W) → close (close s) ≡ close s
  close-close s = close_closed (close s) (close-closed s)
