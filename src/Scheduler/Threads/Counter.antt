-- ===== src/Scheduler/Threads/Counter.antt =====
-- The counter, the queue and the threads of src/runtime.cpp under any interleaving.
use tang.Prelude.{ℕ, ◌+◌, ◌^◌, ◌≤◌, ◌<◌, ◌≡◌, ap, List, [], ◌∷◌, ◌++◌, length, length-append, arith}
use tang.Scheduler.Defs.{Machine}
use tang.Scheduler.Ops.{task_started}
use tang.Scheduler.Threads.Defs.{
  Pc, idle, got, checked, resuming, scheduling, pushing, completing, decrementing, exited, Label,
  removed, Run, finds_null, finds_done, resumes, throws, ends, suspends, declines, counts, pushes,
  sees_task, sees_none, decrements, Work, Main, Past, note, set_queue, checks, drops, leaves,
}

-- The handles that a thread has taken and not let go.
abbrev pub weight : Pc → ℕ
weight idle = 0
weight exited = 0
weight (got h) = 1
weight (checked h) = 1
weight (resuming h) = 1
weight (scheduling h) = 1
weight (pushing h) = 1
weight completing = 1
weight decrementing = 1

abbrev pub held : List Pc → ℕ
held [] = 0
held (p ∷ ps) = weight p + held ps

pub held-append : (ps qs : List Pc) → held (ps ++ qs) ≡ held ps + held qs
held-append [] qs = omega arith
held-append (p ∷ ps) qs = omega (arith, held-append ps qs)

-- The counter covers the queue, `others` and `own`, and it is at most the number of starts.
pub record Covers {ℓ} {U : Type ℓ} (m : Machine U) (others own : ℕ) (t : Past) : Type ℓ where
  pub covered : length m.task_queue + others + own ≤ m.active_tasks
  pub few : m.active_tasks ≤ t.starts

module _ {ℓ} {U : Type ℓ} where
  Run-Covers :
      {m n : Machine U} {p q : Pc} {l : Label} (r : ℕ) (t : Past)
      → Run m p n q l
      → (note l t).starts < 2 ^ 31
      → Covers m r (weight p) t
      → Covers n r (weight q) (note l t)
  unfolding task_started
  Run-Covers r t finds_null b c = record { covered = omega (arith, c.covered); few = c.few }
  Run-Covers r t (finds_done z e) b c = c
  Run-Covers r t (resumes z e) b c = record { covered = c.covered; few = c.few }
  Run-Covers r t throws b c = c
  Run-Covers r t (ends e) b c = c
  Run-Covers r t (suspends e) b c = c
  Run-Covers r t (declines e) b c = record { covered = omega (arith, c.covered); few = c.few }
  Run-Covers {m} r t (counts e) b c = record {
    covered = omega (arith, c.covered, c.few);
    few = omega (arith, c.covered, c.few);
  }
  Run-Covers {m} r t (pushes {h}) b c = record {
    covered = omega (arith, c.covered, length-append m.task_queue (h ∷ []));
    few = c.few;
  }
  Run-Covers r t (sees_task e) b c = c
  Run-Covers r t (sees_none e) b c = record { covered = omega (arith, c.covered); few = c.few }
  Run-Covers {m} r t decrements b c = record {
    covered = omega (arith, c.covered, c.few);
    few = omega (arith, c.covered, c.few);
  }

  removes :
      {m : Machine U} (r w h : ℕ) (hs : List ℕ) (t : Past)
      → m.task_queue ≡ h ∷ hs
      → Covers m r w t
      → Covers (set_queue hs m) r (w + 1) (note (removed h) t)
  removes r w h hs t e c = record { covered = omega (arith, c.covered, ap length e); few = c.few }

  pub Work-Covers :
      {m n : Machine U} {p q : Pc} {l : Label} (r : ℕ) (t : Past)
      → Work m p n q l
      → (note l t).starts < 2 ^ 31
      → Covers m r (weight p) t
      → Covers n r (weight q) (note l t)
  Work-Covers r t (Work.runs s) b c = Run-Covers r t s b c
  Work-Covers {m} r t (Work.takes {h} {hs} u e) b c = removes r 0 h hs t e c
  Work-Covers r t (checks e) b c = c
  Work-Covers r t (drops e) b c = record { covered = omega (arith, c.covered); few = c.few }
  Work-Covers r t (leaves e) b c = c

  pub Main-Covers :
      {m n : Machine U} {p q : Pc} {l : Label} (r : ℕ) (t : Past)
      → Main m p n q l
      → (note l t).starts < 2 ^ 31
      → Covers m r (weight p) t
      → Covers n r (weight q) (note l t)
  Main-Covers r t (Main.runs s) b c = Run-Covers r t s b c
  Main-Covers {m} r t (Main.takes {h} {hs} e) b c = removes r 0 h hs t e c
