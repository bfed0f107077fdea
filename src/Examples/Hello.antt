-- ===== src/Examples/Hello.antt =====
-- examples/hello_world.cpp. Thread ids are left out.
use tang.Prelude.{
  ℕ, zero, suc, ◌+◌, ◌≡◌, ◌≢◌, refl, sym, ap, ◌∙◌, Bool, false, ◌==◌, List, [], ◌∷◌, ◌++◌,
  append-nil, append_assoc, arith, update_self,
}
use tang.Scheduler.Defs.{Frame}
use tang.Scheduler.Global
use tang.Scheduler.Global.{Global}
use tang.Channel.Operators.{World}
use tang.Task.Defs.{run_void, drop_void, unhandled_exception}
use tang.Task.Creation.{
  Outcome, Function, returns, throws, begin, settle_void, create_void, go_void,
}
use tang.Task.Going.{pending-completed}
use tang.Examples.Channels.{start, start_lem}

-- The lines; a name is a list of bytes.
pub data Line : Type 0 where
  from_goroutine : Line
  hello : List ℕ → Line
  from_lambda : ℕ → Line

-- A function that prints a line.
abbrev pub say : Line → Function (List Line) Bool (Unit {0})
say l (g, out) = ((g, out ++ l ∷ []), returns tt)

module _ (hardware h : ℕ) (name : List ℕ) where
  -- The loop of `main`, from the round `i` with `n` rounds to go.
  unfoldable pub greet : ℕ → ℕ → World × List Line → World × List Line
  greet zero i x = x
  greet (suc n) i x = greet n (i + 1) (
      start hardware h (say (from_lambda i))
        (start hardware h (say (hello name)) (start hardware h (say from_goroutine) x)))

  -- What it is to print.
  abbrev pub greetings : ℕ → ℕ → List Line
  greetings zero i = []
  greetings (suc n) i = from_goroutine ∷ hello name ∷ from_lambda i ∷ greetings n (i + 1)

  settled_pending :
      (o : Outcome (Unit {0})) (g : World) → Global.pending (settle_void h o g) ≡ Global.pending g
  unfolding settle_void unhandled_exception Global.pending
  settled_pending (returns q) g = refl
  settled_pending (throws e) g = refl

  settled_frame :
      (o : Outcome (Unit {0})) (g : World) → (settle_void h o g).frame h ≡ Frame.finished
  unfolding settle_void unhandled_exception
  settled_frame (returns q) g = update_self g.frame h Frame.finished
  settled_frame (throws e) g = update_self g.frame h Frame.finished

  start-pending :
      {V : Type 0} (f : Function V Bool (Unit {0})) (x : World × V)
      → h ≢ 0
      → Global.pending (start hardware h f x).0 ≡ Global.pending (f (begin h x.0, x.1)).0.0
  unfolding start go_void create_void run_void drop_void Global.pending
  start-pending f x z =
      let r = f (begin h x.0, x.1) in
      let e : (h == 0) ≡ false = ground arith in
      rw (settled_frame r.1 r.0.0, e)
        (pending-completed hardware (settle_void h r.1 r.0.0) ∙ settled_pending r.1 r.0.0)

  say_lem :
      (l : Line) (x : World × List Line)
      → h ≢ 0
      → let y = start hardware h (say l) x in
        (y.1 ≡ x.1 ++ l ∷ []) × (Global.pending y.0 ≡ Global.pending x.0)
  unfolding Global.pending
  say_lem l x z = (start_lem hardware h (say l) x, start-pending (say l) x z)

  -- The program with `n` rounds, when the address `h` that each new coroutine gets is not null: the lines
  -- are printed in the order of the calls, before `runtime::run` is called, and nothing is put into the
  -- queue for it to run.
  pub greet_lem :
      (n i : ℕ) (x : World × List Line)
      → h ≢ 0
      → let y = greet n i x in
        (y.1 ≡ x.1 ++ greetings n i) × (Global.pending y.0 ≡ Global.pending x.0)
  unfolding greet
  greet_lem zero i x z = (sym (append-nil x.1), refl)
  greet_lem (suc n) i x z =
      let a : World × List Line = start hardware h (say from_goroutine) x in
      let b : World × List Line = start hardware h (say (hello name)) a in
      let c : World × List Line = start hardware h (say (from_lambda i)) b in
      let one = say_lem from_goroutine x z in
      let two = say_lem (hello name) a z in
      let three = say_lem (from_lambda i) b z in
      let rest = greet_lem n (i + 1) c z in
      let lines : c.1 ≡ ((x.1 ++ from_goroutine ∷ []) ++ hello name ∷ []) ++ from_lambda i ∷ [] =
        three.0
        ∙ ap (λ ls. ls ++ from_lambda i ∷ []) (two.0 ∙ ap (λ ls. ls ++ hello name ∷ []) one.0) in
      (
        rest.0 ∙ ap (λ ls. ls ++ greetings n (i + 1)) lines ∙ simp append_assoc,
        rest.1 ∙ three.1 ∙ two.1 ∙ one.1,
      )
