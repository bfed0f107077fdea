-- ===== src/Channel/Defs.antt =====
-- The state of include/tang/channel.h: a channel, its waiters, the memory that its pointers reach.
use tang.Prelude.{ℕ, Bool, false, Option, List, []}

-- `send_waiter`: a suspended sender and its value. A coroutine handle is its address.
pub record SendWaiter {ℓ} (T : Type ℓ) : Type ℓ where
  pub handle : ℕ
  pub value : T

-- `recv_waiter`: `none` is a null pointer. An awaiter is named by the address of its `result_`.
pub record RecvWaiter : Type 0 where
  pub handle : ℕ
  pub value_ptr : ℕ
  pub result_ptr : Option ℕ
  pub awaiter_ptr : Option ℕ

-- `channel`. The mutex makes each operation one step, so it is no field.
pub record Channel {ℓ} (T : Type ℓ) : Type ℓ where
  pub capacity : ℕ
  pub buffer : List T
  pub closed : Bool
  pub send_waiters : List (SendWaiter T)
  pub recv_waiters : List RecvWaiter

-- What the code writes to through a `T*` and through a `bool*`.
pub record Store {ℓ} (T : Type ℓ) : Type ℓ where
  pub cell : ℕ → T
  pub flag : ℕ → Bool

-- A channel, the memory, and the state `W` of the runtime that `schedule` changes.
pub record State {ℓ} (T W : Type ℓ) : Type ℓ where
  pub chan : Channel T
  pub open chan use *
  pub store : Store T
  pub open store use *
  pub world : W

-- `channel(size_t capacity)`.
unfoldable pub channel {ℓ} : {T : Type ℓ} → ℕ → Channel T
channel capacity = record {
  capacity = capacity;
  buffer = [];
  closed = false;
  send_waiters = [];
  recv_waiters = [];
}
