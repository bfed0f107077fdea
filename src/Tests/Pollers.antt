-- ===== src/Tests/Pollers.antt =====
-- Timers and polled descriptors on concrete inputs.
use mathlib.Core.List.{Perm}
use tang.Prelude.{
  ℕ, ◌+◌, ◌*◌, ◌^◌, inl, ◌<◌, ◌≡◌, ◌≢◌, refl, ◌⊎◌, Bool, true, false, Option, none, some, List, [],
  ◌∷◌, arith, All, ◌==◌, if◌then◌else◌,
}
use tang.EventLoop.Defs.{Timer, EventLoop, handle_timers, add_timer, cancel_timer}
use tang.EventLoop.Timers.{EndsBefore, Attains, IsFresh, handle_timers_lem, cancel_timer-add_timer}
use tang.EventLoop.Defs.{milliseconds_max}
use tang.Poller.Defs.{Epoll, Poller}
use tang.EventLoop.Defs.{timed_out, handle_wait}
use tang.EventLoop.Loop
use tang.EventLoop.Loop.{Rounds, Trace}
use tang.EventLoop.Firing.{IsQuiet, StopsIn, run-Fires}
use tang.Poller.Defs.{wait_time, wait, register_event, delete_event}
use tang.Poller.Waiting.{timeout, wait_time-Attains}
use tang.Poller.History.{NoCall, deletes-NoCall}
use tang.Poller.Dispatch.{handle_wait_with, handle_wait_with_lem}
use tang.EventLoop.Defs.{Wait, ready, dispatch}
use tang.Poller.Windows
use tang.Poller.Windows.{Ports, Iocp, iocp_poller, registers_once}
use tang.Poller.Laws.{InSync}
use tang.Poller.Interface.{Request, registers, modifies, deletes, serve, run}
use tang.Poller.History.{epoll_poller, run-InSync}

-- A kernel: the descriptors that it watches, with their flags.
abbrev Watched : Type 0
Watched = ℕ → Option ℕ

abbrev add_at : ℕ → ℕ → Watched → Option ℕ → Watched × Bool
add_at fd flags k none = ((λ j. if fd == j then some flags else k j), true)
add_at fd flags k (some f) = (k, false)

abbrev mod_at : ℕ → ℕ → Watched → Option ℕ → Watched × Bool
mod_at fd flags k none = (k, false)
mod_at fd flags k (some f) = ((λ j. if fd == j then some flags else k j), true)

abbrev del_at : ℕ → Watched → Option ℕ → Watched × Bool
del_at fd k none = (k, false)
del_at fd k (some f) = ((λ j. if fd == j then none else k j), true)

added :
    (fd flags : ℕ) (k : Watched) (o : Option ℕ)
    → k fd ≡ o
    → (add_at fd flags k o).1 ≡ true
    → (k fd ≡ none) × ((j : ℕ) → (add_at fd flags k o).0 j ≡ (if fd == j then some flags else k j))
added fd flags k none e h = (e, λ j. refl)
added fd flags k (some f) e h = absurd cc

not_added :
    (fd flags : ℕ) (k : Watched) (o : Option ℕ)
    → (add_at fd flags k o).1 ≡ false
    → (add_at fd flags k o).0 ≡ k
not_added fd flags k none h = absurd cc
not_added fd flags k (some f) h = refl

modified :
    (fd flags : ℕ) (k : Watched) (o : Option ℕ)
    → k fd ≡ o
    → (mod_at fd flags k o).1 ≡ true
    → (k fd ≢ none) × ((j : ℕ) → (mod_at fd flags k o).0 j ≡ (if fd == j then some flags else k j))
modified fd flags k none e h = absurd cc
modified fd flags k (some f) e h = (λ z. cc, λ j. refl)

not_modified :
    (fd flags : ℕ) (k : Watched) (o : Option ℕ)
    → (mod_at fd flags k o).1 ≡ false
    → (mod_at fd flags k o).0 ≡ k
not_modified fd flags k none h = refl
not_modified fd flags k (some f) h = absurd cc

deleted :
    (fd : ℕ) (k : Watched) (o : Option ℕ)
    → (del_at fd k o).1 ≡ true
    → (j : ℕ) → (del_at fd k o).0 j ≡ (if fd == j then none else k j)
deleted fd k none h j = absurd cc
deleted fd k (some f) h j = refl

not_deleted :
    (fd : ℕ) (k : Watched) (o : Option ℕ) → (del_at fd k o).1 ≡ false → (del_at fd k o).0 ≡ k
not_deleted fd k none h = refl
not_deleted fd k (some f) h = absurd cc

abbrev kernel : Epoll Watched
kernel = record {
  ctl_add = λ fd flags k. add_at fd flags k (k fd);
  ctl_mod = λ fd flags k. mod_at fd flags k (k fd);
  ctl_del = λ fd k. del_at fd k (k fd);
  watched = λ k. k;
  added = λ fd flags k. added fd flags k (k fd) refl;
  not_added = λ fd flags k. not_added fd flags k (k fd);
  modified = λ fd flags k. modified fd flags k (k fd) refl;
  not_modified = λ fd flags k. not_modified fd flags k (k fd);
  deleted = λ fd k. deleted fd k (k fd);
  not_deleted = λ fd k. not_deleted fd k (k fd);
}

abbrev poller : Poller Watched
poller = record { is_open = true; fd_to_source = λ _. none; kernel = λ _. none }

-- A source has the descriptor with its own number.
abbrev itself : ℕ → ℕ
itself source = source

abbrev requests : List Request
requests = registers 3 1 ∷ registers 3 2 ∷ modifies 3 2 ∷ deletes 4 ∷ deletes 3 ∷ []

run-InSync_example : InSync kernel (run (epoll_poller kernel itself) requests poller)
run-InSync_example = run-InSync kernel itself requests poller (λ fd. (λ e. refl, λ e. refl))

abbrev timer : ℕ → ℕ → Timer
timer h t = record { handle = h; expire_time = t; callback = h + 10 }

abbrev loop : EventLoop
loop = record { running = true; next_timer_id = 3; timers = timer 1 5000000 ∷ timer 2 9000000 ∷ [] }

handle_timers_lem_example :
    let r = handle_timers 6000000 loop in
    (r.0.timers ≡ timer 2 9000000 ∷ [])
    × (r.1 ≡ 11 ∷ [])
    × All (EndsBefore 6000000 r.2) r.0.timers
    × ((r.2 ≡ milliseconds_max) ⊎ Attains 6000000 r.2 r.0.timers)
handle_timers_lem_example = handle_timers_lem 6000000 loop

cancel_timer-add_timer_example :
    let (k, h) = add_timer 6000000 4 42 loop in
    (IsFresh k.next_timer_id k.timers)
    × ((cancel_timer h k).1 ≡ true)
    × ((cancel_timer h k).0.timers ≡ loop.timers)
    × ((cancel_timer h (cancel_timer h k).0).1 ≡ false)
cancel_timer-add_timer_example =
    cancel_timer-add_timer 6000000 4 42 loop (omega arith, (omega arith, tt)) (omega arith)

-- A clock that shows 10 milliseconds a round, and a stop in the third round.
abbrev halt : EventLoop → EventLoop
halt l = record l { running = false }

abbrev after_round : ℕ → EventLoop → EventLoop
after_round k l = if k == 2 then halt l else l

abbrev rounds : Rounds
rounds = record { now = λ k. k * 10000000; wait = λ _ _. timed_out; others = after_round }

rounds-IsQuiet : IsQuiet rounds
rounds-IsQuiet = record { steady = λ k. omega arith; untouched = λ k l. ground arith }

rounds-StopsIn : StopsIn rounds 2
rounds-StopsIn = record { goes_on = λ i l h. ground arith; is_stopped = λ l. refl }

run-Fires_example :
    (t : Trace) × (Loop.run 4 rounds (halt loop) ≡ some t)
    × Perm t.fired (11 ∷ 12 ∷ [])
    × (t.left.timers ≡ [])
    × (t.left.running ≡ false)
run-Fires_example =
    run-Fires 4 2 rounds (halt loop) rounds-IsQuiet rounds-StopsIn refl (omega arith)

wait_time-Attains_example :
    let w = wait_time (timeout 6000000 loop) in
    (w < 2 ^ 31)
    × All (EndsBefore 6000000 w) (timer 2 9000000 ∷ [])
    × Attains 6000000 w (timer 2 9000000 ∷ [])
wait_time-Attains_example = wait_time-Attains 6000000 loop (inl (omega arith))

-- A timer that waits for 30 days.
abbrev slow : EventLoop
slow = record { running = true; next_timer_id = 2; timers = timer 1 2592000000000000 ∷ [] }

-- The source 4, when it is called, deletes the source 3 and registers 5.
abbrev deletes_3 : ℕ → ℕ → List Request
deletes_3 source events = if source == 4 then deletes 3 ∷ registers 5 1 ∷ [] else []

deletes-NoCall_example :
    let q =
      run
        (epoll_poller kernel itself)
        (registers 4 1 ∷ [])
        (serve
          (epoll_poller kernel itself)
          (deletes 3)
          (run (epoll_poller kernel itself) (registers 3 1 ∷ []) poller)).0 in
    NoCall 3
      (handle_wait_with
        (epoll_poller kernel itself)
        deletes_3
        (wait (λ _. some ((3, 1) ∷ (4, 1) ∷ [])) 5 q)
        q).1
unfolding run serve register_event delete_event
deletes-NoCall_example =
    deletes-NoCall kernel itself 3 (registers 3 1 ∷ []) (registers 4 1 ∷ []) deletes_3 poller
      (λ _. some ((3, 1) ∷ (4, 1) ∷ [])) 5 (λ fd s e. absurd cc) refl ((λ e. omega arith), tt)

-- The source 3 is called after 4 has deleted it.
abbrev both_ready : Wait
both_ready =
    ready ((record { source = some 4; events = 1 }) ∷ (record { source = some 3; events = 1 }) ∷ [])

handle_wait_with_lem_example :
    handle_wait_with (epoll_poller kernel itself) deletes_3 both_ready poller ≡ (
      run (epoll_poller kernel itself) (deletes 3 ∷ registers 5 1 ∷ []) poller,
      (4, 1) ∷ (3, 1) ∷ [],
    )
unfolding handle_wait dispatch
handle_wait_with_lem_example =
    handle_wait_with_lem (epoll_poller kernel itself) deletes_3 both_ready poller

-- A kernel with completion ports: the handles that have one.
abbrev associate_at : ℕ → (ℕ → Bool) → Bool → (ℕ → Bool) × Bool
associate_at h k true = (k, false)
associate_at h k false = ((λ j. if h == j then true else k j), true)

was_free : (h : ℕ) (k : ℕ → Bool) (b : Bool) → k h ≡ b → (associate_at h k b).1 ≡ true → k h ≡ false
was_free h k true e f = absurd cc
was_free h k false e f = e

associated :
    (h j : ℕ) (k : ℕ → Bool) (b : Bool)
    → (associate_at h k b).1 ≡ true
    → (associate_at h k b).0 j ≡ (if h == j then true else k j)
associated h j k true f = absurd cc
associated h j k false f = refl

not_associated :
    (h : ℕ) (k : ℕ → Bool) (b : Bool) → (associate_at h k b).1 ≡ false → (associate_at h k b).0 ≡ k
not_associated h k true f = refl
not_associated h k false f = absurd cc

abbrev ports : Ports (ℕ → Bool)
ports = record {
  associate = λ h key k. associate_at h k (k h);
  is_associated = λ k. k;
  was_free = λ h key k. was_free h k (k h) refl;
  associated = λ h key j k. associated h j k (k h);
  not_associated = λ h key k. not_associated h k (k h);
}

abbrev iocp : Iocp (ℕ → Bool)
iocp = record { is_open = true; kernel = λ _. false }

registers_once_example :
    let w = iocp_poller ports itself in
    let q = run w (deletes 3 ∷ []) (serve w (registers 3 1) iocp).0 in
    ((serve w (registers 3 2) q).1 ≡ false)
    × ((serve w (modifies 3 2) q).1 ≡ false)
    × ((other : ℕ) → serve w (deletes other) q ≡ (q, true))
unfolding serve Windows.register_event
registers_once_example = registers_once ports itself 3 1 2 (deletes 3 ∷ []) iocp refl
