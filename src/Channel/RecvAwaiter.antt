-- ===== src/Channel/RecvAwaiter.antt =====
-- `channel_recv_awaiter` of include/tang/channel.h, what `co_await ch.recv(value)` waits on.
use tang.Prelude.{ℕ, Bool, true, false, some, update, if◌then◌else◌}
use tang.Channel.Runtime.{Runtime}
use tang.Channel.Defs.{RecvWaiter, State}
use tang.Channel.Ops.{try_recv, register_recv_waiter}

-- The addresses of the variable received into and of `result_`.
pub record RecvAwaiter : Type 0 where
  pub value : ℕ
  pub result : ℕ

-- The waiter that `await_suspend` registers.
abbrev pub waiter : ℕ → RecvAwaiter → RecvWaiter
waiter h a = record {
  handle = h;
  value_ptr = a.value;
  result_ptr = some a.result;
  awaiter_ptr = some a.result;
}

module _ {ℓ} {T W : Type ℓ} where
  abbrev pub set_result : RecvAwaiter → Bool → State T W → State T W
  set_result a b s = record s { store = record (s.store) { flag = update s.flag a.result b } }

  -- The constructor: `result_(false)`.
  unfoldable pub recv : RecvAwaiter → State T W → State T W
  recv a s = set_result a false s

  unfoldable pub await_resume : RecvAwaiter → State T W → Bool
  await_resume a s = s.flag a.result

module _ {ℓ} {T W : Type ℓ} ⦃rt : Runtime W⦄ where
  unfoldable pub await_ready : RecvAwaiter → State T W → State T W × Bool
  await_ready a s =
      let (t, success) = try_recv a.value s in (if success then set_result a true t else t, success)

  unfoldable pub await_suspend : ℕ → RecvAwaiter → State T W → State T W
  await_suspend h a s = register_recv_waiter (waiter h a) s

  -- `co_await ch.recv(value)` by the coroutine `h`, with no other thread between the calls. The
  -- second component says whether the coroutine runs on at once.
  unfoldable pub co_await : ℕ → RecvAwaiter → State T W → State T W × Bool
  unfolding recv await_ready await_suspend
  co_await h a s =
      let (t, ready) = await_ready a (recv a s) in (if ready then t else await_suspend h a t, ready)
