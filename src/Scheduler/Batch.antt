-- ===== src/Scheduler/Batch.antt =====
-- A number of coroutines, scheduled and run by src/runtime.cpp.
use tang.Prelude.{
  ℕ, ◌+◌, ◌^◌, ◌<◌, ◌≡◌, ◌≢◌, refl, ap, append-nil, append_assoc, ◌∙◌, inr, some, List, [], ◌∷◌,
  ◌++◌, length, All, arith,
}
use tang.Scheduler.Defs.{suspended, finished, Machine}
use tang.Scheduler.Ops.{set_sched, schedule}
use tang.Scheduler.Loop.{main_loop}
use tang.Scheduler.Completion.{ending, completed, main_loop-completed, end_each-All}

module _ {ℓ} {U : Type ℓ} where
  unfoldable pub schedule_each : List ℕ → Machine U → Machine U
  schedule_each [] m = m
  schedule_each (h ∷ hs) m = schedule_each hs (schedule h m)

  abbrev pub AllLive : Machine U → List ℕ → Type 0
  AllLive m = All λ h. (h ≢ 0) × (m.frame h ≡ suspended)

  scheduled_one :
      (h : ℕ) (m : Machine U)
      → h ≢ 0
      → m.frame h ≡ suspended
      → m.active_tasks + 1 < 2 ^ 31
      → schedule h m
        ≡ set_sched
            (record (m.sched) {
              task_queue = m.task_queue ++ h ∷ [];
              active_tasks = m.active_tasks + 1;
            })
            m
  unfolding schedule
  scheduled_one h m z f b = ground arith

  scheduled_all :
      (hs : List ℕ) (m : Machine U)
      → AllLive m hs
      → m.active_tasks + length hs < 2 ^ 31
      → schedule_each hs m
        ≡ set_sched
            (record (m.sched) {
              task_queue = m.task_queue ++ hs;
              active_tasks = m.active_tasks + length hs;
            })
            m
  unfolding schedule_each
  scheduled_all [] m l b = ground (arith, append-nil m.task_queue)
  scheduled_all (h ∷ hs) m l b =
      let n =
        set_sched
          (record (m.sched) {
            task_queue = m.task_queue ++ h ∷ [];
            active_tasks = m.active_tasks + 1;
          })
          m in
      rw (scheduled_one h m l.0.0 l.0.1 (omega arith)) (
        scheduled_all hs n l.1 (omega arith)
        ∙ ground (arith, append_assoc m.task_queue (h ∷ []) hs))

  AllLive-nonnull : (m : Machine U) (hs : List ℕ) → AllLive m hs → All (λ h. h ≢ 0) hs
  AllLive-nonnull m [] l = tt
  AllLive-nonnull m (h ∷ hs) l = (l.0.0, AllLive-nonnull m hs l.1)

  -- Any number of live coroutines, fewer than 2 ^ 31, are scheduled on a machine with nothing to do,
  -- with no worker thread at work, and each ends when it is resumed. Given one round of fuel more than
  -- there are handles, the main loop returns; the queue is empty and the counter zero, every coroutine
  -- has ended, and their effects on the program's data took place once each, in the order of scheduling.
  pub main_loop-schedule_each :
      (effect : ℕ → U → U) (hs : List ℕ) (fuel : ℕ) (m : Machine U)
      → m.task_queue ≡ []
      → m.active_tasks ≡ 0
      → AllLive m hs
      → length hs < 2 ^ 31
      → length hs < fuel
      → (main_loop fuel
            (ending effect)
            (λ _ n. n)
            0
            (record { last_active_tasks = 0; no_progress_count = 0 })
            (schedule_each hs m)
          ≡ some (completed effect hs m))
        × All (λ h. (completed effect hs m).frame h ≡ finished) hs
  main_loop-schedule_each effect hs fuel m q a l b f =
      let n =
        set_sched
          (record (m.sched) {
            task_queue = m.task_queue ++ hs;
            active_tasks = m.active_tasks + length hs;
          })
          m in
      let n_queue : n.task_queue ≡ hs = ap (λ ks. ks ++ hs) q in
      let n_active : n.active_tasks ≡ length hs = omega (arith, a) in
      (
        rw (scheduled_all hs m l (omega (arith, a))) (
            main_loop-completed effect hs fuel 0
              (record { last_active_tasks = 0; no_progress_count = 0 }) n n_queue n_active b
              (AllLive-nonnull m hs l) (inr refl) f),
        end_each-All effect hs m.frame m.user,
      )
