-- ===== src/Scheduler/Threads/Invariant.antt =====
-- What any interleaving of the threads of src/runtime.cpp keeps.
use tang.Prelude.{ℕ, ◌+◌, ◌^◌, ◌≤◌, ◌<◌, ◌≡◌, ap, List, [], ◌∷◌, ◌++◌, length, length-append, arith}
use tang.Scheduler.Defs.{Machine}
use tang.Scheduler.Ops.{task_started}
use tang.Scheduler.Threads.Defs.{
  Pc, idle, Label, quiet, counted, queued, removed, woken, Work, Main, Past, note, System, Step,
  main_moves, worker_moves, announces, enqueues, starts_another, reports_done, elsewhere, spawns,
  starts_running, signals, clears, Reach, start, later,
}
use tang.Scheduler.Threads.Counter.{weight, held, held-append, Covers, Work-Covers, Main-Covers}

note-starts : (l : Label) (t : Past) → t.starts ≤ (note l t).starts
note-starts quiet t = omega arith
note-starts counted t = omega arith
note-starts (queued h) t = omega arith
note-starts (removed h) t = omega arith
note-starts (woken h) t = omega arith

note-reports : (l : Label) (t : Past) → t.reports ≤ (note l t).reports
note-reports quiet t = omega arith
note-reports counted t = omega arith
note-reports (queued h) t = omega arith
note-reports (removed h) t = omega arith
note-reports (woken h) t = omega arith

module _ {ℓ} {U : Type ℓ} where
  -- The counter is at least the number of handles that are queued, announced or with a thread, and at
  -- most the number of starts.
  pub record Accounted (y : System U) : Type ℓ where
    pub covered :
        length y.machine.task_queue + length y.announced + weight y.main + held y.workers
        ≤ y.machine.active_tasks
    pub few : y.machine.active_tasks ≤ y.past.starts

  seen :
      (y : System U) (r w : ℕ)
      → length y.announced + weight y.main + held y.workers ≡ r + w
      → Accounted y
      → Covers y.machine r w y.past
  seen y r w e i = record { covered = omega (arith, i.covered); few = i.few }

  regained :
      (y : System U) (r w : ℕ)
      → length y.announced + weight y.main + held y.workers ≡ r + w
      → Covers y.machine r w y.past
      → Accounted y
  regained y r w e c = record { covered = omega (arith, c.covered); few = c.few }

  main_moves-Accounted :
      {m : Machine U} {q : Pc} {l : Label} (y : System U)
      → Main y.machine y.main m q l
      → (note l y.past).starts < 2 ^ 31
      → Accounted y
      → Accounted (record y { machine = m; main = q; past = note l y.past })
  main_moves-Accounted {m} {q} {l} y s b i =
      let r : ℕ = length y.announced + held y.workers in
      regained (record y { machine = m; main = q; past = note l y.past }) r (weight q) (omega arith)
        (Main-Covers r y.past s b (seen y r (weight y.main) (omega arith) i))

  worker_moves-Accounted :
      {m : Machine U} {p q : Pc} {l : Label} (y : System U) (ps qs : List Pc)
      → y.workers ≡ ps ++ (p ∷ qs)
      → Work y.machine p m q l
      → (note l y.past).starts < 2 ^ 31
      → Accounted y
      → Accounted (record y { machine = m; workers = ps ++ (q ∷ qs); past = note l y.past })
  worker_moves-Accounted {m} {p} {q} {l} y ps qs e s b i =
      let r : ℕ = length y.announced + weight y.main + held ps + held qs in
      regained (record y { machine = m; workers = ps ++ (q ∷ qs); past = note l y.past }) r
        (weight q) (omega (arith, held-append ps (q ∷ qs)))
        (Work-Covers r y.past s b
          (seen y r (weight p) (omega (arith, ap held e, held-append ps (p ∷ qs))) i))

  pub Step-Accounted :
      {x y : System U}
      → Step x y
      → y.past.starts < 2 ^ 31
      → y.past.reports ≡ 0
      → Accounted x
      → Accounted y
  unfolding task_started
  Step-Accounted {x} (main_moves s) b z i = main_moves-Accounted x s b i
  Step-Accounted {x} (worker_moves ps qs e s) b z i = worker_moves-Accounted x ps qs e s b i
  Step-Accounted (announces h e d) b z i = record {
    covered = omega (arith, i.covered, i.few);
    few = omega (arith, i.covered, i.few);
  }
  Step-Accounted {x} (enqueues h hs ks e) b z i = record {
    covered = omega (
      arith,
      i.covered,
      ap length e,
      length-append hs (h ∷ ks),
      length-append hs ks,
      length-append x.machine.task_queue (h ∷ []),
    );
    few = i.few;
  }
  Step-Accounted starts_another b z i = record {
    covered = omega (arith, i.covered, i.few);
    few = omega (arith, i.covered, i.few);
  }
  Step-Accounted reports_done b z i = absurd (omega (arith, z))
  Step-Accounted (elsewhere f u) b z i = record { covered = i.covered; few = i.few }
  Step-Accounted {x} spawns b z i = record {
    covered = omega (arith, i.covered, held-append x.workers (idle ∷ []));
    few = i.few;
  }
  Step-Accounted starts_running b z i = record { covered = i.covered; few = i.few }
  Step-Accounted signals b z i = record { covered = i.covered; few = i.few }
  Step-Accounted {x} (clears s e a w) b z i = record {
    covered = omega (arith, ap weight e, ap length a);
    few = omega arith;
  }

  Step-starts : {x y : System U} → Step x y → x.past.starts ≤ y.past.starts
  Step-starts {x} (main_moves {m} {q} {l} s) = note-starts l x.past
  Step-starts {x} (worker_moves {m} ps qs {p} {q} {l} e s) = note-starts l x.past
  Step-starts (announces h z d) = omega arith
  Step-starts (enqueues h hs ks e) = omega arith
  Step-starts starts_another = omega arith
  Step-starts reports_done = omega arith
  Step-starts (elsewhere f u) = omega arith
  Step-starts spawns = omega arith
  Step-starts starts_running = omega arith
  Step-starts signals = omega arith
  Step-starts (clears s e a w) = omega arith

  Step-reports : {x y : System U} → Step x y → x.past.reports ≤ y.past.reports
  Step-reports {x} (main_moves {m} {q} {l} s) = note-reports l x.past
  Step-reports {x} (worker_moves {m} ps qs {p} {q} {l} e s) = note-reports l x.past
  Step-reports (announces h z d) = omega arith
  Step-reports (enqueues h hs ks e) = omega arith
  Step-reports starts_another = omega arith
  Step-reports reports_done = omega arith
  Step-reports (elsewhere f u) = omega arith
  Step-reports spawns = omega arith
  Step-reports starts_running = omega arith
  Step-reports signals = omega arith
  Step-reports (clears s e a w) = omega arith

  -- However the threads interleave, as long as `task_started` was called fewer than 2 ^ 31 times and
  -- no `task_completed` outside the loops has decremented the counter: the counter is at least the
  -- number of handles that are queued, about to be pushed or with a thread, a thread within
  -- `task_completed` counting as one, and at most the number of calls of `task_started`.
  pub Reach-Accounted :
      {y : System U} → Reach y → y.past.starts < 2 ^ 31 → y.past.reports ≡ 0 → Accounted y
  Reach-Accounted (start m q a) b z = record {
    covered = omega (arith, ap length q);
    few = omega (arith, a);
  }
  Reach-Accounted (later r s) b z =
      Step-Accounted s b z
        (Reach-Accounted r (omega (arith, Step-starts s)) (omega (arith, Step-reports s)))
