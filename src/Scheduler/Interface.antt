-- ===== src/Scheduler/Interface.antt =====
-- `runtime::schedule` of src/runtime.cpp is the `schedule` that include/tang/channel.h declares.
use tang.Prelude.{ℕ, ◌≡◌, true, false, [], ◌∷◌, ◌++◌, arith, inl, inr, Option-cases}
use tang.Channel.Runtime.{Runtime}
use tang.Scheduler.Defs.{new_scheduler}
use tang.Scheduler.Ops
use tang.Scheduler.Global.{Global, schedule, pending, is_live}

module _ {ℓ} {U : Type ℓ} (hardware : ℕ) where
  -- `runtime::schedule` of a handle that is not null and whose coroutine has not ended puts it behind
  -- the queued handles, also if it has to make the global scheduler first.
  pub pending-schedule :
      (h : ℕ) (g : Global U)
      → is_live g h ≡ true
      → pending (schedule hardware h g) ≡ pending g ++ h ∷ []
  unfolding pending schedule is_live new_scheduler Ops.schedule
  pending-schedule h g l = elim (Option-cases g.g_scheduler) [
    | inl e ↦ ground arith
    | inr (c, e) ↦ ground arith
  ]

  pub schedule_dead : (h : ℕ) (g : Global U) → is_live g h ≡ false → schedule hardware h g ≡ g
  unfolding schedule is_live
  schedule_dead h g l = ground arith

  pub is_live-schedule : (h k : ℕ) (g : Global U) → is_live (schedule hardware h g) k ≡ is_live g k
  unfolding schedule is_live new_scheduler Ops.schedule
  is_live-schedule h k g = elim (Option-cases g.g_scheduler) [
    | inl e ↦ ground arith
    | inr (c, e) ↦ ground arith
  ]

  -- The runtime that the channels of the program run on.
  abbrev pub global_runtime : Runtime (Global U)
  global_runtime = record {
    enqueue = schedule hardware;
    pending = pending;
    is_live = is_live;
    pending-enqueue = pending-schedule;
    enqueue_dead = schedule_dead;
    is_live-enqueue = is_live-schedule;
  }
