-- ===== src/Channel/System.antt =====
-- One channel under any number of threads: each operation is a step, `close` is two.
use tang.Prelude.{ℕ, ◌≡◌, Bool, true, false, not, ◌||◌}
use tang.Channel.Runtime.{Runtime}
use tang.Channel.Defs.{RecvWaiter, Store, State, channel}
use tang.Channel.Ops.{
  try_send, try_recv, register_send_waiter, register_recv_waiter, close_exchange, close_wake,
}

-- `closing`: a thread stands between the two parts of `close`.
pub record System {ℓ} (T W : Type ℓ) : Type ℓ where
  pub state : State T W
  pub open state use *
  pub closing : Bool

module _ {ℓ} {T W : Type ℓ} ⦃rt : Runtime W⦄ where
  pub data Step (y : System T W) : System T W → Type ℓ where
    sends : (v : T) → Step y (record y { state = (try_send v y.state).0 })
    receives : (p : ℕ) → Step y (record y { state = (try_recv p y.state).0 })
    parks_sender : (h : ℕ) (v : T) → Step y (record y { state = register_send_waiter h v y.state })
    parks_receiver : (r : RecvWaiter) → Step y (record y { state = register_recv_waiter r y.state })
    exchanges : Step y (record {
      state = (close_exchange y.state).0;
      closing = y.closing || not (close_exchange y.state).1;
    })
    wakes : y.closing ≡ true → Step y (record { state = close_wake y.state; closing = false })
    -- Whatever the rest of the program does to the memory and to the runtime.
    elsewhere :
        (m : Store T) (w : W)
        → Step y (record y { state = record (y.state) { store = m; world = w } })

  abbrev pub init : ℕ → Store T → W → System T W
  init capacity m w = record {
    state = record { chan = channel capacity; store = m; world = w };
    closing = false;
  }

  -- The states of a channel that was made with this capacity.
  pub data Reach (capacity : ℕ) : System T W → Type ℓ where
    start : (m : Store T) (w : W) → Reach capacity (init capacity m w)
    later : {x y : System T W} → Reach capacity x → Step x y → Reach capacity y
