-- ===== src/Scheduler/Threads/Order.antt =====
-- The order of the queue of src/runtime.cpp under any interleaving of its threads.
use tang.Prelude.{ℕ, ◌≡◌, sym, ap, ◌∙◌, List, [], ◌∷◌, ◌++◌, append-nil, append_assoc}
use tang.Scheduler.Defs.{Machine}
use tang.Scheduler.Ops.{task_started}
use tang.Scheduler.Threads.Defs.{
  Pc, Label, Run, finds_null, finds_done, resumes, throws, ends, suspends, declines, counts, pushes,
  sees_task, sees_none, decrements, Work, Main, Past, note, checks, drops, leaves, System, Step,
  main_moves, worker_moves, announces, enqueues, starts_another, reports_done, elsewhere, spawns,
  starts_running, signals, clears, Reach, start, later,
}

pushed_after : (h : ℕ) (hs gs ks : List ℕ) → ks ≡ gs ++ hs → ks ++ h ∷ [] ≡ gs ++ (hs ++ h ∷ [])
pushed_after h hs gs ks e = ap (λ js. js ++ h ∷ []) e ∙ append_assoc gs hs (h ∷ [])

removed_before :
    (h : ℕ) (hs js gs ks : List ℕ) → js ≡ h ∷ hs → ks ≡ gs ++ js → ks ≡ (gs ++ h ∷ []) ++ hs
removed_before h hs js gs ks q e = e ∙ ap (λ is. gs ++ is) q ∙ sym (append_assoc gs (h ∷ []) hs)

module _ {ℓ} {U : Type ℓ} where
  -- The queue holds what was pushed less what has left it, in order.
  abbrev pub IsOrdered : Machine U → Past → Type 0
  IsOrdered m t = t.pushed ≡ t.gone ++ m.task_queue

  Run-IsOrdered :
      {m n : Machine U} {p q : Pc} {l : Label} (t : Past)
      → Run m p n q l
      → IsOrdered m t
      → IsOrdered n (note l t)
  unfolding task_started
  Run-IsOrdered t finds_null o = o
  Run-IsOrdered t (finds_done z e) o = o
  Run-IsOrdered t (resumes z e) o = o
  Run-IsOrdered t throws o = o
  Run-IsOrdered t (ends e) o = o
  Run-IsOrdered t (suspends e) o = o
  Run-IsOrdered t (declines e) o = o
  Run-IsOrdered t (counts e) o = o
  Run-IsOrdered {m} t (pushes {h}) o = pushed_after h m.task_queue t.gone t.pushed o
  Run-IsOrdered t (sees_task e) o = o
  Run-IsOrdered t (sees_none e) o = o
  Run-IsOrdered t decrements o = o

  Work-IsOrdered :
      {m n : Machine U} {p q : Pc} {l : Label} (t : Past)
      → Work m p n q l
      → IsOrdered m t
      → IsOrdered n (note l t)
  Work-IsOrdered t (Work.runs s) o = Run-IsOrdered t s o
  Work-IsOrdered {m} t (Work.takes {h} {hs} u q) o =
      removed_before h hs m.task_queue t.gone t.pushed q o
  Work-IsOrdered t (checks e) o = o
  Work-IsOrdered t (drops e) o = o
  Work-IsOrdered t (leaves e) o = o

  Main-IsOrdered :
      {m n : Machine U} {p q : Pc} {l : Label} (t : Past)
      → Main m p n q l
      → IsOrdered m t
      → IsOrdered n (note l t)
  Main-IsOrdered t (Main.runs s) o = Run-IsOrdered t s o
  Main-IsOrdered {m} t (Main.takes {h} {hs} q) o =
      removed_before h hs m.task_queue t.gone t.pushed q o

  Step-IsOrdered :
      {x y : System U} → Step x y → IsOrdered x.machine x.past → IsOrdered y.machine y.past
  unfolding task_started
  Step-IsOrdered {x} (main_moves s) o = Main-IsOrdered x.past s o
  Step-IsOrdered {x} (worker_moves ps qs e s) o = Work-IsOrdered x.past s o
  Step-IsOrdered (announces h z d) o = o
  Step-IsOrdered {x} (enqueues h hs ks e) o =
      pushed_after h x.machine.task_queue x.past.gone x.past.pushed o
  Step-IsOrdered starts_another o = o
  Step-IsOrdered reports_done o = o
  Step-IsOrdered (elsewhere f u) o = o
  Step-IsOrdered spawns o = o
  Step-IsOrdered starts_running o = o
  Step-IsOrdered signals o = o
  Step-IsOrdered (clears s e a w) o = o ∙ sym (append-nil _)

  -- However the threads interleave, the queue is what was pushed less what has left it, in order.
  pub Reach-IsOrdered : {y : System U} → Reach y → IsOrdered y.machine y.past
  Reach-IsOrdered (start m q a) = sym q
  Reach-IsOrdered (later r s) = Step-IsOrdered s (Reach-IsOrdered r)
