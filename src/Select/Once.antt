-- ===== src/Select/Once.antt =====
-- `select` of include/tang/select.h on open channels of which some case is ready.
use mathlib.Core.List.{Mem, Mem-prop, Perm, mem-cons, mem-cons_self, mem-cons_of_mem, not-mem-nil}
use mathlib.Core.List.Perm
use mathlib.Core.Logic.Or
use tang.Prelude.{ℕ, ◌≡◌, ap, true, false, Option, some, List, [], ◌∷◌, ◌++◌, Bool-cases, inl, inr}
use tang.Channel.Runtime.{Runtime}
use tang.Select.Defs.{Case, Net, try_ready, try_execute}
use tang.Select.Ops.{first_ready, select}
use tang.Select.Choice.{IsOpen, calls, ready_executes}

module _ {ℓ} {T W : Type ℓ} ⦃rt : Runtime W⦄ where
  -- The case `k` gave the result: it succeeded, and its callback alone was called, once.
  pub record Ran (ks : List (Case T)) (n : Net T W) (o : Option (Net T W)) : Type ℓ where
    pub chosen : Case T
    pub member : Mem chosen ks
    pub was_ready : try_ready chosen n ≡ true
    pub result : o ≡ some (try_execute chosen n).0
    pub succeeded : (try_execute chosen n).1 ≡ true
    pub called_once : (try_execute chosen n).0.called ≡ n.called ++ calls chosen.callback

  mem_tail :
      (k j : Case T) (ks : List (Case T)) (n : Net T W)
      → Mem k (j ∷ ks)
      → try_ready k n ≡ true
      → try_ready j n ≡ false
      → Mem k ks
  mem_tail k j ks n m e f =
      Or.elim Mem-prop (mem-cons.0 m)
        (λ same. absurd (let g = ap (λ (c : Case T). try_ready c n) same in cc)) (λ more. more)

  first_ready-found :
      (ks : List (Case T)) (n : Net T W) (k : Case T)
      → Mem k ks
      → try_ready k n ≡ true
      → (j : Case T) × Mem j ks
        × (try_ready j n ≡ true)
        × (first_ready ks n ≡ some (try_execute j n).0)
  unfolding first_ready
  first_ready-found [] n k m e = absurd (not-mem-nil m)
  first_ready-found (j ∷ ks) n k m e = elim (Bool-cases (try_ready j n)) [
    | inl f ↦ (j, mem-cons_self, f, rw (f, first_ready))
    | inr f ↦
        let (i, p, r, s) = first_ready-found ks n k (mem_tail k j ks n m e f) e in
        (i, mem-cons_of_mem j p, r, rw (f, first_ready) s)
  ]

  open_executes :
      (k : Case T) (n : Net T W)
      → IsOpen k.action n
      → try_ready k n ≡ true
      → ((try_execute k n).1 ≡ true) × ((try_execute k n).0.called ≡ n.called ++ calls k.callback)
  unfolding try_ready try_execute
  open_executes k n o r = ready_executes k.action k.callback n o r

  -- If the channels of the cases are open, some case is ready, and no other thread comes between
  -- `try_ready` and `try_execute` of a case, `select` returns at once, whatever
  -- the shuffle: it executes one case that is ready, successfully, and calls its callback and no other.
  pub select-Ran :
      (fuel : ℕ) (shuffle : ℕ → List (Case T) → List (Case T)) (others : ℕ → Net T W → Net T W)
      (ks : List (Case T)) (n : Net T W) (k : Case T)
      → Perm (shuffle 0 ks) ks
      → ((j : Case T) → Mem j ks → IsOpen j.action n)
      → Mem k ks
      → try_ready k n ≡ true
      → Ran ks n (select fuel shuffle others ks n)
  unfolding select
  select-Ran fuel shuffle others ks n k p o m e =
      let (j, l, r, s) = first_ready-found (shuffle 0 ks) n k ((Perm.mem_iff p).1 m) e in
      let here = (Perm.mem_iff p).0 l in
      let x = open_executes j n (o j here) r in
      record {
        chosen = j;
        member = here;
        was_ready = r;
        result = rw (s, select);
        succeeded = x.0;
        called_once = x.1;
      }
