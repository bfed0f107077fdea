-- ===== src/EventLoop/Timers.antt =====
-- The timers of src/event_loop.cpp.
use tang.Prelude.{
  ℕ, suc, ◌+◌, ◌-◌, ◌*◌, ◌/◌, ◌%◌, ◌^◌, ◌≤◌, ◌<◌, ◌≡◌, refl, ap, ◌⊎◌, inl, inr, Bool, true, false,
  List, [], ◌∷◌, ◌++◌, leb, ltb, if◌then◌else◌, All, arith, Bool-cases,
}
use tang.EventLoop.Defs.{
  Timer, EventLoop, sweep, nanos_per_milli, milliseconds_max, set_timer, erase, add_timer,
  cancel_timer, handle_timers,
}

-- The callbacks of the timers that have run out, and the other timers.
abbrev pub due : ℕ → List Timer → List ℕ
due now [] = []
due now (t ∷ ts) = if leb t.expire_time now then t.callback ∷ due now ts else due now ts

abbrev pub waiting : ℕ → List Timer → List Timer
waiting now [] = []
waiting now (t ∷ ts) = if leb t.expire_time now then waiting now ts else t ∷ waiting now ts

sweep-kept :
    (now next : ℕ) (ts : List Timer)
    → ((sweep now next ts).kept ≡ waiting now ts) × ((sweep now next ts).fired ≡ due now ts)
unfolding sweep
sweep-kept now next [] = (refl, refl)
sweep-kept now next (t ∷ ts) =
    let timeout : ℕ = (t.expire_time - now) / nanos_per_milli in
    ground (
      arith,
      sweep-kept now next ts,
      sweep-kept now (if ltb timeout next then timeout else next) ts,
    )

-- The timeout `r` ends before the timer runs out.
abbrev pub EndsBefore : ℕ → ℕ → Timer → Type 0
EndsBefore now r t = now + r * nanos_per_milli ≤ t.expire_time

sweep-le : (now next : ℕ) (ts : List Timer) → (sweep now next ts).next_timeout ≤ next
unfolding sweep
sweep-le now next [] = omega arith
sweep-le now next (t ∷ ts) =
    let timeout : ℕ = (t.expire_time - now) / nanos_per_milli in
    ground
      (arith, sweep-le now next ts, sweep-le now (if ltb timeout next then timeout else next) ts)

sweep-EndsBefore :
    (now next : ℕ) (ts : List Timer)
    → All (EndsBefore now (sweep now next ts).next_timeout) (waiting now ts)
unfolding sweep
sweep-EndsBefore now next [] = tt
sweep-EndsBefore now next (t ∷ ts) =
    let timeout : ℕ = (t.expire_time - now) / nanos_per_milli in
    let next' : ℕ = if ltb timeout next then timeout else next in
    elim (Bool-cases (leb t.expire_time now)) [
      | inl e ↦ rw e (sweep-EndsBefore now next ts)
      | inr e ↦ rw e (ground (arith, sweep-le now next' ts), sweep-EndsBefore now next' ts)
    ]

-- Some timer runs out within the millisecond after the timeout `r`.
abbrev pub Attains : ℕ → ℕ → List Timer → Type 0
Attains now r [] = ⊥
Attains now r (t ∷ ts) =
    (t.expire_time < now + r * nanos_per_milli + nanos_per_milli) ⊎ Attains now r ts

sweep-Attains :
    (now next : ℕ) (ts : List Timer)
    → ((sweep now next ts).next_timeout ≡ next)
      ⊎ Attains now (sweep now next ts).next_timeout (waiting now ts)
unfolding sweep
sweep-Attains now next [] = inl refl
sweep-Attains now next (t ∷ ts) =
    let timeout : ℕ = (t.expire_time - now) / nanos_per_milli in
    let next' : ℕ = if ltb timeout next then timeout else next in
    elim (Bool-cases (leb t.expire_time now)) [
      | inl e ↦ rw e (sweep-Attains now next ts)
      | inr e ↦ rw e (ground (arith, sweep-Attains now next' ts))
    ]

-- If no callback adds or cancels a timer: `handle_timers` calls the callbacks of exactly the timers that have run out, in the order of the
-- iteration, and keeps exactly the others. The timeout that it returns ends before any of these runs
-- out; it is the largest possible value or is within a millisecond of the first of them.
pub handle_timers_lem :
    (now : ℕ) (l : EventLoop)
    → let r = handle_timers now l in
      (r.0.timers ≡ waiting now l.timers)
      × (r.1 ≡ due now l.timers)
      × All (EndsBefore now r.2) r.0.timers
      × ((r.2 ≡ milliseconds_max) ⊎ Attains now r.2 r.0.timers)
unfolding handle_timers
handle_timers_lem now l =
    let k = sweep-kept now milliseconds_max l.timers in
    (
      k.0,
      k.1,
      rw (k.0) (sweep-EndsBefore now milliseconds_max l.timers),
      rw (k.0) (sweep-Attains now milliseconds_max l.timers),
    )

-- No timer has a handle that is still to be given.
abbrev pub IsFresh : ℕ → List Timer → Type 0
IsFresh n = All λ t. t.handle < n

IsFresh-mono : {m n : ℕ} (ts : List Timer) → m ≤ n → IsFresh m ts → IsFresh n ts
IsFresh-mono [] h f = tt
IsFresh-mono (t ∷ ts) h f = (omega arith, IsFresh-mono ts h f.1)

set_timer_fresh :
    (t : Timer) (ts : List Timer) → IsFresh t.handle ts → set_timer t ts ≡ ts ++ t ∷ []
unfolding set_timer
set_timer_fresh t [] f = refl
set_timer_fresh t (u ∷ us) f = ground (arith, set_timer_fresh t us f.1)

erase_last :
    (t : Timer) (ts : List Timer) → IsFresh t.handle ts → erase t.handle (ts ++ t ∷ []) ≡ (ts, true)
unfolding erase
erase_last t [] f = ground arith
erase_last t (u ∷ us) f = ground (arith, erase_last t us f.1)

erase_fresh : (h : ℕ) (ts : List Timer) → IsFresh h ts → erase h ts ≡ (ts, false)
unfolding erase
erase_fresh h [] f = refl
erase_fresh h (u ∷ us) f = ground (arith, erase_fresh h us f.1)

IsFresh-append :
    (n : ℕ) (ts : List Timer) (t : Timer) → IsFresh n ts → t.handle < n → IsFresh n (ts ++ t ∷ [])
IsFresh-append n [] t f h = (h, tt)
IsFresh-append n (u ∷ us) t f h = (f.0, IsFresh-append n us t f.1 h)

-- A timer that is added to a loop with fresh handles left gets a handle of its own: no other timer is
-- replaced, cancelling it answers `true` and brings back the timers as they were, and cancelling it
-- once more answers `false`.
pub cancel_timer-add_timer :
    (now delay cb : ℕ) (l : EventLoop)
    → IsFresh l.next_timer_id l.timers
    → l.next_timer_id + 1 < 2 ^ 64
    → let (k, h) = add_timer now delay cb l in
      (IsFresh k.next_timer_id k.timers)
      × ((cancel_timer h k).1 ≡ true)
      × ((cancel_timer h k).0.timers ≡ l.timers)
      × ((cancel_timer h (cancel_timer h k).0).1 ≡ false)
unfolding add_timer cancel_timer
cancel_timer-add_timer now delay cb l f b =
    let t : Timer = record {
      handle = l.next_timer_id;
      expire_time = now + delay * nanos_per_milli;
      callback = cb;
    } in
    let next : (l.next_timer_id + 1) % 2 ^ 64 ≡ suc l.next_timer_id = omega arith in
    rw (next, set_timer_fresh t l.timers f)
      (rw (erase_last t l.timers f) (
        IsFresh-append (suc l.next_timer_id) l.timers t (IsFresh-mono l.timers (omega arith) f)
            (omega arith),
        refl,
        refl,
        ap (λ (r : List Timer × Bool). r.1) (erase_fresh l.next_timer_id l.timers f),
      ))
