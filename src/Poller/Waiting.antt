-- ===== src/Poller/Waiting.antt =====
-- The event loop of src/event_loop.cpp on the poller of src/event_poller_linux.cpp.
use tang.Prelude.{ℕ, ◌+◌, ◌*◌, ◌^◌, ◌≤◌, ◌<◌, ◌≡◌, ◌⊎◌, inl, inr, List, [], ◌∷◌, All, arith, subst}
use tang.EventLoop.Defs.{Timer, EventLoop, handle_timers, nanos_per_milli}
use tang.EventLoop.Timers.{waiting, EndsBefore, Attains, handle_timers_lem}
use tang.Poller.Defs.{wait_time}

-- The timeout of a round.
abbrev pub timeout : ℕ → EventLoop → ℕ
timeout now l = (handle_timers now l).2

-- Some timer, or every timer, with less, or no less, than `limit` milliseconds to wait.
abbrev pub AnyWithin : ℕ → ℕ → List Timer → Type 0
AnyWithin limit now [] = ⊥
AnyWithin limit now (t ∷ ts) =
    (t.expire_time < now + limit * nanos_per_milli) ⊎ AnyWithin limit now ts

abbrev pub IsBeyond : ℕ → ℕ → Timer → Type 0
IsBeyond limit now t = now + limit * nanos_per_milli ≤ t.expire_time

within_bound :
    (limit now r : ℕ) (ts : List Timer)
    → All (EndsBefore now r) ts
    → AnyWithin limit now ts
    → r < limit
within_bound limit now r [] a s = absurd s
within_bound limit now r (t ∷ ts) a (inl h) = omega (arith, a.0)
within_bound limit now r (t ∷ ts) a (inr s) = within_bound limit now r ts a.1 s

beyond_bound :
    (limit now r : ℕ) (ts : List Timer) → All (IsBeyond limit now) ts → Attains now r ts → limit ≤ r
beyond_bound limit now r [] a s = absurd s
beyond_bound limit now r (t ∷ ts) a (inl h) = omega (arith, a.0)
beyond_bound limit now r (t ∷ ts) a (inr s) = beyond_bound limit now r ts a.1 s

-- The timeout of a round with a timer in reach.
timeout-Attains :
    (limit now : ℕ) (l : EventLoop)
    → limit ≤ 2 ^ 32
    → AnyWithin limit now (waiting now l.timers)
    → (timeout now l < limit)
      × All (EndsBefore now (timeout now l)) (waiting now l.timers)
      × Attains now (timeout now l) (waiting now l.timers)
timeout-Attains limit now l h s =
    let r = handle_timers_lem now l in
    let ends = subst (λ ts. All (EndsBefore now (timeout now l)) ts) r.0 r.2 in
    let small = within_bound limit now (timeout now l) (waiting now l.timers) ends s in
    (
      small,
      ends,
      elim (r.3) [
        | inl e ↦ absurd (omega arith)
        | inr a ↦ subst (Attains now (timeout now l)) r.0 a
      ],
    )

wait_time_small : (r : ℕ) → r < 2 ^ 32 → wait_time r ≡ r
unfolding wait_time
wait_time_small r h = ground arith

-- If some timer that is kept runs out within 2 ^ 31 milliseconds, the `int` that reaches `epoll_wait`
-- is not negative and ends before any timer that is kept runs out, and within a millisecond of the
-- first of them.
pub wait_time-Attains :
    (now : ℕ) (l : EventLoop)
    → AnyWithin (2 ^ 31) now (waiting now l.timers)
    → let w = wait_time (timeout now l) in
      (w < 2 ^ 31)
      × All (EndsBefore now w) (waiting now l.timers)
      × Attains now w (waiting now l.timers)
wait_time-Attains now l s =
    let t = timeout-Attains (2 ^ 31) now l (omega arith) s in
    rw (wait_time_small (timeout now l) (omega (arith, t.0))) t

-- If every timer that is kept waits for 2 ^ 31 milliseconds or more, about 25 days, and some for less
-- than 2 ^ 32, the `int` that reaches `epoll_wait` is negative.
wait_time_negative :
    (now : ℕ) (l : EventLoop)
    → AnyWithin (2 ^ 32) now (waiting now l.timers)
    → All (IsBeyond (2 ^ 31) now) (waiting now l.timers)
    → (2 ^ 31 ≤ wait_time (timeout now l)) × (wait_time (timeout now l) < 2 ^ 32)
wait_time_negative now l s b =
    let t = timeout-Attains (2 ^ 32) now l (omega arith) s in
    rw (wait_time_small (timeout now l) t.0)
      (beyond_bound (2 ^ 31) now (timeout now l) (waiting now l.timers) b t.2, t.0)
