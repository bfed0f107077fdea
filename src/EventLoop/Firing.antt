-- ===== src/EventLoop/Firing.antt =====
-- Which timers fire in a run of the loop of src/event_loop.cpp.
use mathlib.Core.List.{Perm, perm_middle}
use mathlib.Core.List.Perm
use native.Mathlib.Nat.{le_refl, le_trans}
use tang.Prelude.{
  ℕ, zero, suc, ◌+◌, ◌≤◌, ◌<◌, ◌≡◌, refl, ap, ◌∙◌, true, false, Option, some, List, [], ◌∷◌, ◌++◌,
  append-nil, arith, Bool-cases, inl, inr, leb, subst,
}
use tang.EventLoop.Defs.{Timer, EventLoop, turn, handle_timers}
use tang.EventLoop.Timers.{due, waiting, handle_timers_lem}
use tang.EventLoop.Loop.{Rounds, Trace, loop, run}

-- The clock never goes back, and nobody but the loop changes the timers.
pub record IsQuiet (e : Rounds) : Type 0 where
  pub steady : (k : ℕ) → e.now k ≤ e.now (suc k)
  pub untouched : (k : ℕ) (l : EventLoop) → (e.others k l).timers ≡ l.timers

-- The loop is stopped in the round `last`, and not before.
pub record StopsIn (e : Rounds) (last : ℕ) : Type 0 where
  pub goes_on : (i : ℕ) (l : EventLoop) → i < last → (e.others i l).running ≡ l.running
  pub is_stopped : (l : EventLoop) → (e.others last l).running ≡ false

leb_trans : (a b c : ℕ) → a ≤ b → leb c a ≡ true → leb c b ≡ true
leb_trans a b c h e = ground arith

waiting-waiting : (a b : ℕ) (ts : List Timer) → a ≤ b → waiting b (waiting a ts) ≡ waiting b ts
waiting-waiting a b [] h = refl
waiting-waiting a b (t ∷ ts) h =
    ground (arith, waiting-waiting a b ts h, leb_trans a b t.expire_time h)

due-perm : (a b : ℕ) (ts : List Timer) → a ≤ b → Perm (due a ts ++ due b (waiting a ts)) (due b ts)
due-perm a b [] h = Perm.rfl
due-perm a b (t ∷ ts) h = elim (Bool-cases (leb t.expire_time a)) [
  | inl e ↦ rw (e, leb_trans a b t.expire_time h e) (Perm.cons t.callback (due-perm a b ts h))
  | inr e ↦ elim (Bool-cases (leb t.expire_time b)) [
    | inl f ↦
        rw (e, f)
          (Perm.trans (perm_middle (due a ts) (due b (waiting a ts)))
            (Perm.cons t.callback (due-perm a b ts h)))
    | inr f ↦ rw (e, f) (due-perm a b ts h)
  ]
]

now_mono : (e : Rounds) (k n : ℕ) → IsQuiet e → e.now k ≤ e.now (n + k)
now_mono e k zero q = let z : 0 + k ≡ k = omega arith in rw z (le_refl _)
now_mono e k (suc n) q =
    let z : suc n + k ≡ suc (n + k) = omega arith in
    rw z (le_trans (now_mono e k n q) (q.steady (n + k)))

-- The state after the round `k`.
abbrev next : Rounds → ℕ → EventLoop → EventLoop
next e k l = e.others k (turn (e.now k) (e.wait k) l).0

next-timers :
    (e : Rounds) (k : ℕ) (l : EventLoop)
    → IsQuiet e
    → (next e k l).timers ≡ waiting (e.now k) l.timers
unfolding turn
next-timers e k l q = q.untouched k _ ∙ (handle_timers_lem (e.now k) l).0

fired_lem :
    (e : Rounds) (k : ℕ) (l : EventLoop) → (turn (e.now k) (e.wait k) l).1 ≡ due (e.now k) l.timers
unfolding turn
fired_lem e k l = (handle_timers_lem (e.now k) l).1

next-running :
    (e : Rounds) (last k : ℕ) (l : EventLoop)
    → StopsIn e last
    → k < last
    → (next e k l).running ≡ l.running
unfolding turn handle_timers
next-running e last k l s h = s.goes_on k _ h

-- The run from some state on, up to the end of the round `last`.
record Fires (e : Rounds) (last : ℕ) (l : EventLoop) (o : Option Trace) : Type 0 where
  trace : Trace
  returns : o ≡ some trace
  fires : Perm trace.fired (due (e.now last) l.timers)
  keeps : trace.left.timers ≡ waiting (e.now last) l.timers
  stops : trace.left.running ≡ false

loop_stopped :
    (fuel k : ℕ) (e : Rounds) (l : EventLoop)
    → l.running ≡ false
    → loop (suc fuel) e k l ≡ some (record { left = l; fired = []; dispatched = [] })
unfolding loop
loop_stopped fuel k e l r = ground arith

loop_round :
    (fuel k : ℕ) (e : Rounds) (l : EventLoop) (t : Trace)
    → l.running ≡ true
    → loop fuel e (k + 1) (next e k l) ≡ some t
    → loop (suc fuel) e k l
      ≡ some (record t {
        fired = due (e.now k) l.timers ++ t.fired;
        dispatched = (turn (e.now k) (e.wait k) l).2 ++ t.dispatched;
      })
unfolding loop
loop_round fuel k e l t r s = ground (arith, fired_lem e k l)

loop-last :
    (fuel k : ℕ) (e : Rounds) (l : EventLoop)
    → IsQuiet e
    → StopsIn e k
    → l.running ≡ true
    → Fires e k l (loop (suc (suc fuel)) e k l)
loop-last fuel k e l q s r = record {
  trace = record {
    left = next e k l;
    fired = due (e.now k) l.timers ++ [];
    dispatched = (turn (e.now k) (e.wait k) l).2 ++ [];
  };
  returns =
      loop_round (suc fuel) k e l (record { left = next e k l; fired = []; dispatched = [] }) r
        (loop_stopped fuel (k + 1) e (next e k l) (s.is_stopped _));
  fires = rw (append-nil (due (e.now k) l.timers)) Perm.rfl;
  keeps = next-timers e k l q;
  stops = s.is_stopped _;
}

loop-Fires :
    (n fuel k last : ℕ) (e : Rounds) (l : EventLoop)
    → IsQuiet e
    → StopsIn e last
    → l.running ≡ true
    → n + k ≡ last
    → n + 2 ≤ fuel
    → Fires e last l (loop fuel e k l)
loop-Fires zero (suc (suc fuel)) k last e l q s r d b =
    subst (λ x. StopsIn e x → Fires e x l (loop (suc (suc fuel)) e k l))
      (let d' : k ≡ last = omega arith in d') (λ s'. loop-last fuel k e l q s' r) s
loop-Fires (suc n) (suc fuel) k last e l q s r d b =
    let rest =
      loop-Fires n fuel (k + 1) last e (next e k l) q s
        (next-running e last k l s (omega arith) ∙ r) (omega arith) (omega arith) in
    let early : e.now k ≤ e.now last = subst (λ x. e.now k ≤ e.now x) d (now_mono e k (suc n) q) in
    record {
      trace = record (rest.trace) {
        fired = due (e.now k) l.timers ++ rest.trace.fired;
        dispatched = (turn (e.now k) (e.wait k) l).2 ++ rest.trace.dispatched;
      };
      returns = loop_round fuel k e l rest.trace r rest.returns;
      fires =
          Perm.trans
            (Perm.append_left (due (e.now k) l.timers) (
              subst (λ ts. Perm rest.trace.fired (due (e.now last) ts)) (next-timers e k l q)
                rest.fires))
            (due-perm (e.now k) (e.now last) l.timers early);
      keeps =
          rest.keeps
          ∙ ap (waiting (e.now last)) (next-timers e k l q)
          ∙ waiting-waiting (e.now k) (e.now last) l.timers early;
      stops = rest.stops;
    }
loop-Fires zero zero k last e l q s r d b = absurd (omega arith)
loop-Fires zero (suc zero) k last e l q s r d b = absurd (omega arith)
loop-Fires (suc n) zero k last e l q s r d b = absurd (omega arith)

-- A run of a loop that did not run before, with a steady clock, timers that nobody else adds or
-- cancels, and a stop in the round `last`: given two rounds of fuel more, `run` returns. Exactly the
-- timers that have run out by the time of that round have fired, once each and in some order; the
-- others are kept; and the loop is marked as stopped.
pub run-Fires :
    (fuel last : ℕ) (e : Rounds) (l : EventLoop)
    → IsQuiet e
    → StopsIn e last
    → l.running ≡ false
    → last + 2 ≤ fuel
    → (t : Trace) × (run fuel e l ≡ some t)
      × Perm t.fired (due (e.now last) l.timers)
      × (t.left.timers ≡ waiting (e.now last) l.timers)
      × (t.left.running ≡ false)
unfolding run
run-Fires fuel last e l q s r b =
    let f = loop-Fires last fuel 0 last e (record l { running = true }) q s refl (omega arith) b in
    (f.trace, ground (arith, f.returns), f.fires, f.keeps, f.stops)
