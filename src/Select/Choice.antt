-- ===== src/Select/Choice.antt =====
-- Which case `select` of include/tang/select.h executes.
use tang.Prelude.{
  ℕ, ◌≡◌, refl, ap, inl, inr, true, false, Option, none, some, List, [], ◌∷◌, ◌++◌, All, Bool-cases,
  arith, append-nil,
}
use tang.Channel.Runtime.{Runtime}
use tang.Channel.Ops.{try_send, try_recv, is_closed, is_empty}
use tang.Select.Defs.{
  Action, recv_from, send_to, nothing, Case, Net, focus, is_ready, try_ready, execute, try_execute,
}
use tang.Select.Ops.{first_ready, select}

-- The calls that `execute_callback` makes.
abbrev pub calls : Option ℕ → List ℕ
calls none = []
calls (some f) = f ∷ []

module _ {ℓ} {T W : Type ℓ} ⦃rt : Runtime W⦄ where
  -- No case is ready and there is no result; or the first ready case gave the result.
  pub data Chooses (ks : List (Case T)) (n : Net T W) : Option (Net T W) → Type ℓ where
    nobody : All (λ k. try_ready k n ≡ false) ks → Chooses ks n none
    first :
        (pre : List (Case T)) (k : Case T) (post : List (Case T))
        → ks ≡ pre ++ k ∷ post
        → All (λ j. try_ready j n ≡ false) pre
        → try_ready k n ≡ true
        → Chooses ks n (some (try_execute k n).0)

  Chooses-cons :
      {k : Case T} {ks : List (Case T)} {n : Net T W} {r : Option (Net T W)}
      → try_ready k n ≡ false
      → Chooses ks n r
      → Chooses (k ∷ ks) n r
  Chooses-cons {k} e (nobody a) = nobody (e, a)
  Chooses-cons {k} e (first pre j post eq a f) = first (k ∷ pre) j post (ap (◌∷◌ k) eq) (e, a) f

  -- The first loop executes the first case, in the shuffled order, that is ready, and that one alone;
  -- it gives nothing exactly when no case is ready.
  pub first_ready-Chooses : (ks : List (Case T)) (n : Net T W) → Chooses ks n (first_ready ks n)
  unfolding first_ready
  first_ready-Chooses [] n = nobody tt
  first_ready-Chooses (k ∷ ks) n = elim (Bool-cases (try_ready k n)) [
    | inl e ↦ rw e (first [] k ks refl tt e)
    | inr e ↦ rw e (Chooses-cons e (first_ready-Chooses ks n))
  ]

  abbrev pub IsOpen : Action T → Net T W → Type 0
  IsOpen (recv_from c p) n = (n.chans c).closed ≡ false
  IsOpen (send_to c v) n = (n.chans c).closed ≡ false
  IsOpen nothing n = Unit

  -- A case that is ready on an open channel, executed before any other thread runs, succeeds, and its
  -- callback is called once.
  pub ready_executes :
      (a : Action T) (f : Option ℕ) (n : Net T W)
      → IsOpen a n
      → is_ready a n ≡ true
      → ((execute a f n).1 ≡ true) × ((execute a f n).0.called ≡ n.called ++ calls f)
  unfolding is_ready execute try_recv try_send
  ready_executes (recv_from c none) f n o r = ground (arith, append-nil n.called)
  ready_executes (recv_from c (some p)) f n o r = ground (arith, append-nil n.called)
  ready_executes (send_to c v) f n o r = ground (arith, append-nil n.called)
  ready_executes nothing f n o r = ground (arith, append-nil n.called)

  -- Closed, and for a receive also drained.
  abbrev pub IsShut : Action T → Net T W → Type 0
  IsShut (recv_from c p) n = (is_closed (focus c n) ≡ true) × (is_empty (focus c n) ≡ true)
  IsShut (send_to c v) n = is_closed (focus c n) ≡ true
  IsShut nothing n = ⊥

  shut_fails :
      (a : Action T) (f : Option ℕ) (n : Net T W)
      → IsShut a n
      → (is_ready a n ≡ true) × ((execute a f n).1 ≡ false) × ((execute a f n).0.called ≡ n.called)
  unfolding is_ready execute try_recv try_send
  shut_fails (recv_from c none) f n s = ground arith
  shut_fails (recv_from c (some p)) f n s = ground arith
  shut_fails (send_to c v) f n s = ground arith
  shut_fails nothing f n s = absurd s

  -- A send case on a closed channel, and a receive case on a closed and drained one, count as ready,
  -- but fail and call no callback; if such a case comes first, `select`'s loop returns all the same.
  pub closed_selects :
      (k : Case T) (ks : List (Case T)) (n : Net T W)
      → IsShut k.action n
      → (try_ready k n ≡ true)
        × ((try_execute k n).1 ≡ false)
        × ((try_execute k n).0.called ≡ n.called)
        × (first_ready (k ∷ ks) n ≡ some (try_execute k n).0)
  unfolding try_ready try_execute first_ready
  closed_selects k ks n s =
      let t = shut_fails k.action k.callback n s in (t.0, t.1, t.2, ground (arith, t.0))

  -- If the first case in the shuffled order is ready, `select` executes it.
  pub select_head :
      (busy : ℕ) (shuffle : ℕ → List (Case T) → List (Case T)) (others : ℕ → Net T W → Net T W)
      (ks rest : List (Case T)) (k : Case T) (n : Net T W)
      → shuffle 0 ks ≡ k ∷ rest
      → try_ready k n ≡ true
      → select busy shuffle others ks n ≡ some (try_execute k n).0
  unfolding select first_ready
  select_head busy shuffle others ks rest k n e f = ground (arith, e, f)
