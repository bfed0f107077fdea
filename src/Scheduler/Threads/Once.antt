-- ===== src/Scheduler/Threads/Once.antt =====
-- How often a coroutine is resumed by the threads of src/runtime.cpp.
use tang.Prelude.{ℕ, ◌+◌, ◌≤◌, List, [], ◌∷◌, ◌==◌, if◌then◌else◌}
use tang.Scheduler.Threads.Defs.{
  Pc, idle, got, checked, resuming, scheduling, pushing, completing, decrementing, exited, Past,
  System,
}

abbrev pub times : ℕ → List ℕ → ℕ
times h [] = 0
times h (k ∷ ks) = (if k == h then 1 else 0) + times h ks

-- The thread has taken the handle and not resumed it yet.
abbrev pub unresumed : ℕ → Pc → ℕ
unresumed h idle = 0
unresumed h (got k) = if k == h then 1 else 0
unresumed h (checked k) = if k == h then 1 else 0
unresumed h (resuming k) = 0
unresumed h (scheduling k) = 0
unresumed h (pushing k) = 0
unresumed h completing = 0
unresumed h decrementing = 0
unresumed h exited = 0

abbrev pub waiting : ℕ → List Pc → ℕ
waiting h [] = 0
waiting h (p ∷ ps) = unresumed h p + waiting h ps

-- Each resumption, and each thread that is about to resume, has used up a handle from the queue.
abbrev Fair : ℕ → ℕ → ℕ → Past → Type 0
Fair h others own t = times h t.resumed + others + own ≤ times h t.gone

module _ {ℓ} {U : Type ℓ} where
  abbrev pub IsFair : ℕ → System U → Type 0
  IsFair h y =
      times h y.past.resumed + unresumed h y.main + waiting h y.workers ≤ times h y.past.gone
