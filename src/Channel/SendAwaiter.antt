-- ===== src/Channel/SendAwaiter.antt =====
-- `channel_send_awaiter` of include/tang/channel.h, what `co_await ch.send(v)` waits on.
use tang.Prelude.{ℕ, Bool, if◌then◌else◌}
use tang.Channel.Runtime.{Runtime}
use tang.Channel.Defs.{State}
use tang.Channel.Ops.{try_send, register_send_waiter}

module _ {ℓ} {T W : Type ℓ} ⦃rt : Runtime W⦄ where
  unfoldable pub await_ready : T → State T W → State T W × Bool
  await_ready v s = try_send v s

  unfoldable pub await_suspend : ℕ → T → State T W → State T W
  await_suspend h v s = register_send_waiter h v s

  -- `co_await` by the coroutine `h`, with no other thread between the two calls. The second
  -- component says whether the coroutine runs on at once.
  unfoldable pub co_await : ℕ → T → State T W → State T W × Bool
  unfolding await_ready await_suspend
  co_await h v s =
      let (t, ready) = await_ready v s in (if ready then t else await_suspend h v t, ready)
