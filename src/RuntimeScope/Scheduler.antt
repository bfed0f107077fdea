-- ===== src/RuntimeScope/Scheduler.antt =====
-- The scopes of include/tang/runtime_scope.h over the runtime of src/runtime.cpp.
use tang.Prelude.{
  ◌^◌, ◌<◌, length, not, is_nil, ◌==◌, ap, refl, ℕ, ◌≡◌, sym, subst, ◌++◌, ◌∙◌, Bool, true, false,
  Option, none, some, List, [], ◌∷◌, arith, Option-cases, inl, inr,
}
use tang.Scheduler.Defs.{Machine}
use tang.Scheduler.Global
use tang.Scheduler.Global.{Global, stop_with, init_with, run_with, put_back}
use tang.RuntimeScope.{Call, inits, runs, stops, Follows, Event, play, play-Inv}

abbrev pub is_some {ℓ} : {A : Type ℓ} → Option A → Bool
is_some none = false
is_some (some a) = true

abbrev pub and_then {ℓ κ} : {A : Type ℓ} {B : Type κ} → Option A → (A → Option B) → Option B
and_then none f = none
and_then (some a) f = f a

living {ℓ} : {A : Type ℓ} (xs : List A) → not (length xs == 0) ≡ not (is_nil xs)
living [] = refl
living (x ∷ xs) = ground arith

module _ {ℓ} {U : Type ℓ} (hardware : ℕ) (joined : Machine U → Machine U)
    (drive : Machine U → Option (Machine U)) where
  unfoldable pub perform : Call → Global U → Option (Global U)
  perform (inits n) g = some (Global.init hardware joined n g)
  perform runs g = Global.run hardware drive g
  perform stops g = some (Global.stop hardware joined g)

  -- The calls, of which the last one made comes first.
  unfoldable pub perform_all : List Call → Global U → Option (Global U)
  unfolding perform
  perform_all [] g = some g
  perform_all (c ∷ cs) g = and_then (perform_all cs g) (perform c)

  stop-none : (g : Global U) → is_some (Global.stop hardware joined g).g_scheduler ≡ false
  unfolding Global.stop
  stop-none g = elim (Option-cases g.g_scheduler) [
    | inl e ↦ ground arith
    | inr (c, e) ↦ ground arith
  ]

  init-some : (n : ℕ) (g : Global U) → is_some (Global.init hardware joined n g).g_scheduler ≡ true
  unfolding Global.init
  init-some n g = elim (Option-cases g.g_scheduler) [
    | inl e ↦ ground arith
    | inr (c, e) ↦ ground arith
  ]

  put_back-some :
      (o : Option (Machine U)) (g : Global U) → put_back o ≡ some g → is_some g.g_scheduler ≡ true
  put_back-some none g e = cc
  put_back-some (some m) g e = ground arith

  run-some : (g h : Global U) → Global.run hardware drive g ≡ some h → is_some h.g_scheduler ≡ true
  unfolding Global.run
  run-some g h e = elim (Option-cases g.g_scheduler) [
    | inl f ↦ put_back-some _ h (rw (f, run_with) at e)
    | inr (c, f) ↦ put_back-some _ h (rw (f, run_with) at e)
  ]

  perform-up :
      (c : Call) (cs : List Call) (up : Bool) (g h : Global U)
      → Follows (c ∷ cs) up
      → perform c g ≡ some h
      → is_some h.g_scheduler ≡ up
  unfolding perform
  perform-up (inits n) cs up g h f e = ground (arith, init-some n g)
  perform-up runs cs up g h f e = run-some g h e ∙ sym f.0
  perform-up stops cs up g h f e = ground (arith, stop-none g)

  perform_all-up :
      (cs : List Call) (up : Bool) (g h : Global U)
      → Follows cs up
      → g.g_scheduler ≡ none
      → perform_all cs g ≡ some h
      → is_some h.g_scheduler ≡ up
  unfolding perform_all
  perform_all-up [] up g h f z e = ground arith
  perform_all-up (c ∷ cs) up g h f z e = elim (Option-cases (perform_all cs g)) [
    | inl n ↦ absurd (ground arith)
    | inr (k, s) ↦ perform-up c cs up k h f (ground arith)
  ]

  -- The state that the call meets: `init` no scheduler, so that it has none to delete; `run` and
  -- `stop` a scheduler.
  abbrev pub Meets : Call → Global U → Type 0
  Meets (inits n) g = is_some g.g_scheduler ≡ false
  Meets runs g = is_some g.g_scheduler ≡ true
  Meets stops g = is_some g.g_scheduler ≡ true

  meets :
      (c : Call) (cs : List Call) (up : Bool) (g h : Global U)
      → Follows (c ∷ cs) up
      → g.g_scheduler ≡ none
      → perform_all cs g ≡ some h
      → Meets c h
  meets (inits n) cs up g h f z e = perform_all-up cs false g h f.1 z e
  meets runs cs up g h f z e = perform_all-up cs true g h f.1 z e
  meets stops cs up g h f z e = perform_all-up cs true g h f.1 z e

  rest-Follows : (cs ds : List Call) (up : Bool) → Follows (cs ++ ds) up → (b : Bool) × Follows ds b
  rest-Follows [] ds up f = (up, f)
  rest-Follows (inits n ∷ cs) ds up f = rest-Follows cs ds false f.1
  rest-Follows (runs ∷ cs) ds up f = rest-Follows cs ds true f.1
  rest-Follows (stops ∷ cs) ds up f = rest-Follows cs ds true f.1

  -- Any program that makes fewer than 2 ^ 32 scopes, runs and ends of scopes, nested as blocks are,
  -- whose calls are performed on a runtime without a scheduler: each `init` finds no scheduler, each
  -- `run` and each `stop` finds one, and at the end there is one exactly if some scope still lives.
  -- Nobody else calls `init` or `stop`, and every `run` ends.
  pub play-Meets :
      (es : List Event) (later earlier : List Call) (c : Call) (g h k : Global U)
      → length es < 2 ^ 32
      → (play es).calls ≡ later ++ c ∷ earlier
      → g.g_scheduler ≡ none
      → perform_all earlier g ≡ some h
      → perform_all (play es).calls g ≡ some k
      → Meets c h × (is_some k.g_scheduler ≡ not (is_nil (play es).scopes))
  play-Meets es later earlier c g h k b s z e l =
      let w = play es in
      let i = play-Inv es b in
      let f =
        rest-Follows later (c ∷ earlier) w.runtime_running
          (subst (λ cs. Follows cs w.runtime_running) s i.follows) in
      (
        meets c earlier f.0 g h f.1 z e,
        perform_all-up w.calls w.runtime_running g k i.follows z l
            ∙ i.running
            ∙ ap (λ n. not (n == 0)) i.counted
            ∙ living w.scopes,
      )
