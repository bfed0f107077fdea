-- ===== src/Channel/Ops.antt =====
-- The operations of `channel` in include/tang/channel.h, each one step under its mutex.
use tang.Prelude.{
  ℕ, Bool, true, false, not, ◌&&◌, ◌||◌, Option, none, some, List, [], ◌∷◌, ◌++◌, length, leb, ◌==◌,
  if◌then◌else◌, update, is_nil,
}
use tang.Channel.Runtime.{Runtime, schedule}
use tang.Channel.Defs.{SendWaiter, RecvWaiter, Channel, State}

-- A write through a `bool*`, or to the `result_` of an awaiter, unless the pointer is null.
abbrev set_flag : Option ℕ → Bool → (ℕ → Bool) → ℕ → Bool
set_flag none b f = f
set_flag (some p) b f = update f p b

module _ {ℓ} {T W : Type ℓ} where
  abbrev pub set_chan : Channel T → State T W → State T W
  set_chan c s = record s { chan = c }

  -- `*p = v`.
  abbrev pub assign : ℕ → T → State T W → State T W
  assign p v s = record s { store = record (s.store) { cell = update s.cell p v } }

  abbrev pub is_closed : State T W → Bool
  is_closed s = s.closed

  abbrev pub is_empty : State T W → Bool
  is_empty s = is_nil s.buffer

  abbrev pub is_full : State T W → Bool
  is_full s = if s.capacity == 0 then true else leb s.capacity (length s.buffer)

  -- `closed_.exchange(true)`, before `close` takes the mutex.
  unfoldable pub close_exchange : State T W → State T W × Bool
  close_exchange s = (set_chan (record (s.chan) { closed = true }) s, s.closed)

module _ {ℓ} {T W : Type ℓ} ⦃rt : Runtime W⦄ where
  -- `runtime::schedule(handle_)`, which is all of `send_waiter::resume`.
  abbrev pub schedule_handle : ℕ → State T W → State T W
  schedule_handle h s = record s { world = schedule h s.world }

  abbrev pub resume_sender : SendWaiter T → State T W → State T W
  resume_sender w s = schedule_handle w.handle s

  -- `recv_waiter::resume_with_result`.
  abbrev pub resume_with_result : RecvWaiter → Bool → State T W → State T W
  resume_with_result w success s =
      schedule_handle w.handle (record s { store = record (s.store) { flag = flags } })
    where
      flags : ℕ → Bool
      flags = set_flag w.awaiter_ptr success (set_flag w.result_ptr success s.flag)

  -- `recv_waiter::resume`.
  abbrev pub resume_receiver : RecvWaiter → State T W → State T W
  resume_receiver w s =
      schedule_handle w.handle (record s { store = record (s.store) { flag = flags } })
    where
      flags : ℕ → Bool
      flags = set_flag w.awaiter_ptr true (set_flag w.result_ptr true s.flag)

  -- The front receive waiter takes the value, and its coroutine is scheduled.
  abbrev pub hand_to : T → RecvWaiter → List RecvWaiter → State T W → State T W
  hand_to v w ws s =
      resume_receiver w (assign w.value_ptr v (set_chan (record (s.chan) { recv_waiters = ws }) s))

  -- `try_send` on an open channel.
  unfoldable pub send_open : T → List RecvWaiter → State T W → State T W × Bool
  send_open v (w ∷ ws) s = (hand_to v w ws s, true)
  send_open v [] s =
      if s.capacity == 0 || leb s.capacity (length s.buffer)
      then (s, false)
      else (set_chan (record (s.chan) { buffer = s.buffer ++ v ∷ [] }) s, true)

  unfoldable pub try_send : T → State T W → State T W × Bool
  unfolding send_open
  try_send v s = if s.closed then (s, false) else send_open v s.recv_waiters s

  -- The body of `try_recv` below its first test; the value goes to the address `p`.
  unfoldable pub recv_front : ℕ → List T → List (SendWaiter T) → State T W → State T W × Bool
  recv_front p (x ∷ xs) [] s = (assign p x (set_chan (record (s.chan) { buffer = xs }) s), true)
  recv_front p (x ∷ xs) (w ∷ ws) s = (
    resume_sender w (
        assign p x
          (set_chan (record (s.chan) { buffer = xs ++ w.value ∷ []; send_waiters = ws }) s)),
    true,
  )
  recv_front p [] (w ∷ ws) s = (
    resume_sender w (assign p w.value (set_chan (record (s.chan) { send_waiters = ws }) s)),
    true,
  )
  recv_front p [] [] s = (s, false)

  unfoldable pub try_recv : ℕ → State T W → State T W × Bool
  unfolding recv_front
  try_recv p s =
      if s.closed && is_nil s.buffer then (s, false) else recv_front p s.buffer s.send_waiters s

  -- `register_send_waiter` on an open channel.
  unfoldable pub park_sender : ℕ → T → List RecvWaiter → State T W → State T W
  park_sender h v (w ∷ ws) s = hand_to v w ws s
  park_sender h v [] s =
      set_chan
        (record (s.chan) {
          send_waiters = s.send_waiters ++ (record { handle = h; value = v }) ∷ [];
        })
        s

  unfoldable pub register_send_waiter : ℕ → T → State T W → State T W
  unfolding park_sender
  register_send_waiter h v s =
      if s.closed then schedule_handle h s else park_sender h v s.recv_waiters s

  -- `register_recv_waiter` on an open channel.
  unfoldable pub park_receiver : RecvWaiter → List (SendWaiter T) → State T W → State T W
  park_receiver r (w ∷ ws) s = resume_sender w (
      resume_receiver r
        (assign r.value_ptr w.value (set_chan (record (s.chan) { send_waiters = ws }) s)))
  park_receiver r [] s = set_chan (record (s.chan) { recv_waiters = s.recv_waiters ++ r ∷ [] }) s

  -- The arguments are the fields of `r`; `result_ptr` is not null.
  unfoldable pub register_recv_waiter : RecvWaiter → State T W → State T W
  unfolding park_receiver
  register_recv_waiter r s =
      if s.closed
      then schedule_handle r.handle
          (record s { store = record (s.store) { flag = set_flag r.result_ptr false s.flag } })
      else park_receiver r s.send_waiters s

  unfoldable pub wake_senders : List (SendWaiter T) → State T W → State T W
  wake_senders [] s = s
  wake_senders (w ∷ ws) s = wake_senders ws (resume_sender w s)

  unfoldable pub wake_receivers : List RecvWaiter → State T W → State T W
  wake_receivers [] s = s
  wake_receivers (w ∷ ws) s = wake_receivers ws (resume_with_result w false s)

  -- The part of `close` under the mutex.
  unfoldable pub close_wake : State T W → State T W
  unfolding wake_senders wake_receivers
  close_wake s = set_chan (record (t.chan) { recv_waiters = [] }) t
    where
      u : State T W
      u = wake_senders s.send_waiters s

      t : State T W
      t = wake_receivers s.recv_waiters (set_chan (record (u.chan) { send_waiters = [] }) u)

  -- `close` with no other thread between its two parts.
  unfoldable pub close : State T W → State T W
  unfolding close_exchange close_wake
  close s = let (t, was_closed) = close_exchange s in if was_closed then t else close_wake t

  -- `operator<<`: a task that never suspends. Its loop body returns at once.
  unfoldable pub send_operator : T → State T W → State T W × Bool
  send_operator v s = let (t, sent) = try_send v s in if not sent then (t, false) else (t, true)

  -- `operator>>`.
  unfoldable pub recv_operator : ℕ → State T W → State T W × Bool
  recv_operator p s =
      let (t, received) = try_recv p s in if not received then (t, false) else (t, true)
