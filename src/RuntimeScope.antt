-- ===== src/RuntimeScope.antt =====
-- include/tang/runtime_scope.h and src/runtime_scope.cpp: scopes that share one runtime.
pub mod Scheduler
use tang.Prelude.{
  ap, ◌≤◌, ℕ, ◌+◌, ◌-◌, ◌%◌, ◌^◌, ◌<◌, ◌≡◌, refl, subst, ◌||◌, inl, inr, Bool, true, false, not,
  List, [], ◌∷◌, ◌==◌, if◌then◌else◌, length, arith, Bool-cases,
}

-- The calls that a scope makes on the runtime.
pub data Call : Type 0 where
  inits : ℕ → Call
  runs stops : Call

-- The static members, and the calls made so far, the last one first. `instance_count` is the bit
-- pattern of an `int`.
pub record Statics : Type 0 where
  pub instance_count : ℕ
  pub runtime_initialized : Bool
  pub runtime_running : Bool
  pub calls : List Call

pub record RuntimeScope : Type 0 where
  pub thread_count : ℕ
  pub has_run : Bool

-- The initial values.
abbrev pub statics : Statics
statics = record {
  instance_count = 0;
  runtime_initialized = false;
  runtime_running = false;
  calls = [];
}

-- The constructor: `instance_count_++ == 0`.
unfoldable pub construct : ℕ → Statics → Statics × RuntimeScope
construct threads s =
    let t = record s { instance_count = (s.instance_count + 1) % 2 ^ 32 } in
    (
      if s.instance_count == 0
          then record t {
            runtime_initialized = true;
            runtime_running = true;
            calls = inits threads ∷ t.calls;
          }
          else t,
      record { thread_count = threads; has_run = false },
    )

-- The destructor: `--instance_count_ == 0`.
unfoldable pub destroy : Statics → Statics
destroy s =
    let t = record s { instance_count = (s.instance_count + 2 ^ 32 - 1) % 2 ^ 32 } in
    if t.instance_count == 0
    then record t { runtime_initialized = false; runtime_running = false; calls = stops ∷ t.calls }
    else t

unfoldable pub run : Statics → RuntimeScope → Statics × RuntimeScope
run s r =
    if r.has_run
    then (s, r)
    else if not s.runtime_running
    then (s, r)
    else (record s { calls = runs ∷ s.calls }, record r { has_run = true })

-- The scopes that live, the last one made first.
pub data Event : Type 0 where
  makes : ℕ → Event
  runs_first : Event
  ends : Event

pub record World : Type 0 where
  pub shared : Statics
  pub open shared use *
  pub scopes : List RuntimeScope

-- The scopes end in the reverse order of their making, and the innermost one runs.
abbrev end_scope : List RuntimeScope → World → World
end_scope [] w = w
end_scope (r ∷ rs) w = record { shared = destroy w.shared; scopes = rs }

abbrev run_scope : List RuntimeScope → World → World
run_scope [] w = w
run_scope (r ∷ rs) w = record { shared = (run w.shared r).0; scopes = (run w.shared r).1 ∷ rs }

unfoldable pub step : Event → World → World
step (makes threads) w = record {
  shared = (construct threads w.shared).0;
  scopes = (construct threads w.shared).1 ∷ w.scopes;
}
step runs_first w = run_scope w.scopes w
step ends w = end_scope w.scopes w

-- The calls, read from the last one: `true` while the runtime is up. It is down at first, started
-- when down, stopped and run when up.
abbrev pub Follows : List Call → Bool → Type 0
Follows [] up = up ≡ false
Follows (inits n ∷ cs) up = (up ≡ true) × Follows cs false
Follows (runs ∷ cs) up = (up ≡ true) × Follows cs true
Follows (stops ∷ cs) up = (up ≡ false) × Follows cs true

-- The count is that of the living scopes, both flags say whether there are any, and the runtime was
-- started and stopped in turns, and run only while it was up.
pub record Inv (w : World) : Type 0 where
  pub counted : w.instance_count ≡ length w.scopes
  pub initialized : w.runtime_initialized ≡ not (w.instance_count == 0)
  pub running : w.runtime_running ≡ not (w.instance_count == 0)
  pub follows : Follows w.calls w.runtime_running

Follows-at : (cs : List Call) (a b : Bool) → a ≡ b → Follows cs a → Follows cs b
Follows-at cs a b e f = subst (Follows cs) e f

makes-Inv :
    (threads : ℕ) (w : World)
    → length w.scopes + 1 < 2 ^ 32
    → Inv w
    → Inv (record {
      shared = (construct threads w.shared).0;
      scopes = (construct threads w.shared).1 ∷ w.scopes;
    })
unfolding construct
makes-Inv threads w b i = elim (Bool-cases (w.instance_count == 0)) [
  | inl none_ ↦ record {
    counted = ground arith;
    initialized = ground arith;
    running = ground arith;
    follows = rw none_ (refl, Follows-at w.calls w.runtime_running false (ground arith) i.follows);
  }
  | inr some_ ↦ record {
    counted = ground arith;
    initialized = ground arith;
    running = ground arith;
    follows = rw some_ i.follows;
  }
]

run_skips :
    (s : Statics) (r : RuntimeScope)
    → (r.has_run || not s.runtime_running) ≡ true
    → run s r ≡ (s, r)
unfolding run
run_skips s r e = ground arith

run_calls :
    (s : Statics) (r : RuntimeScope)
    → (r.has_run || not s.runtime_running) ≡ false
    → run s r ≡ (record s { calls = runs ∷ s.calls }, record r { has_run = true })
unfolding run
run_calls s r e = ground arith

run_scope-Inv : (rs : List RuntimeScope) (w : World) → w.scopes ≡ rs → Inv w → Inv (run_scope rs w)
run_scope-Inv [] w e i = i
run_scope-Inv (r ∷ rs) w e i = elim (Bool-cases (r.has_run || not w.runtime_running)) [
  | inl skip ↦ rw (run_skips w.shared r skip) (record {
    counted = ground arith;
    initialized = i.initialized;
    running = i.running;
    follows = i.follows;
  })
  | inr go ↦
      let up : w.runtime_running ≡ true = ground arith in
      rw (run_calls w.shared r go) (record {
        counted = ground arith;
        initialized = i.initialized;
        running = i.running;
        follows = (up, Follows-at w.calls w.runtime_running true up i.follows);
      })
]

end_scope-Inv :
    (rs : List RuntimeScope) (w : World)
    → w.scopes ≡ rs
    → length rs < 2 ^ 32
    → Inv w
    → Inv (end_scope rs w)
unfolding destroy
end_scope-Inv [] w e b i = i
end_scope-Inv (r ∷ rs) w e b i = elim (Bool-cases ((w.instance_count + 2 ^ 32 - 1) % 2 ^ 32 == 0)) [
  | inl last ↦ record {
    counted = ground arith;
    initialized = ground arith;
    running = ground arith;
    follows = rw last (refl, Follows-at w.calls w.runtime_running true (ground arith) i.follows);
  }
  | inr more ↦ record {
    counted = ground arith;
    initialized = ground arith;
    running = ground arith;
    follows = rw more i.follows;
  }
]

-- Every event keeps the invariant, while fewer scopes live than an `int` counts.
scope_step-Inv : (e : Event) (w : World) → length w.scopes + 1 < 2 ^ 32 → Inv w → Inv (step e w)
unfolding step
scope_step-Inv (makes threads) w b i = makes-Inv threads w b i
scope_step-Inv runs_first w b i = run_scope-Inv w.scopes w refl i
scope_step-Inv ends w b i = end_scope-Inv w.scopes w refl (omega arith) i

-- The program before its first scope.
abbrev pub unscoped : World
unscoped = record { shared = statics; scopes = [] }

-- The events, of which the last one comes first.
unfoldable pub play : List Event → World
unfolding step
play [] = unscoped
play (e ∷ es) = step e (play es)

run_scope-length :
    (rs : List RuntimeScope) (w : World)
    → w.scopes ≡ rs
    → length (run_scope rs w).scopes ≤ length w.scopes
run_scope-length [] w e = omega arith
run_scope-length (r ∷ rs) w e = omega (arith, ap length e)

end_scope-length :
    (rs : List RuntimeScope) (w : World)
    → w.scopes ≡ rs
    → length (end_scope rs w).scopes ≤ length w.scopes
end_scope-length [] w e = omega arith
end_scope-length (r ∷ rs) w e = omega (arith, ap length e)

grows : (e : Event) (w : World) → length (step e w).scopes ≤ length w.scopes + 1
unfolding step
grows (makes threads) w = omega arith
grows runs_first w = omega (arith, run_scope-length w.scopes w refl)
grows ends w = omega (arith, end_scope-length w.scopes w refl)

few_scopes : (es : List Event) → length (play es).scopes ≤ length es
unfolding play
few_scopes [] = omega arith
few_scopes (e ∷ es) = omega (arith, grows e (play es), few_scopes es)

pub play-Inv : (es : List Event) → length es < 2 ^ 32 → Inv (play es)
unfolding play
play-Inv [] b = record { counted = refl; initialized = refl; running = refl; follows = refl }
play-Inv (e ∷ es) b =
    scope_step-Inv e (play es) (omega (arith, few_scopes es)) (play-Inv es (omega arith))
