-- ===== src/Select/Taken.antt =====
-- The loop of `select` in include/tang/select.h with other threads between `try_ready` and
-- `try_execute` of a case.
use tang.Prelude.{
  ℕ, ◌≡◌, refl, true, false, Option, none, some, List, [], ◌∷◌, ◌++◌, if◌then◌else◌, All, arith,
}
use tang.Channel.Runtime.{Runtime}
use tang.Channel.Ops.{try_recv}
use tang.Select.Defs.{Case, Net, try_ready, try_execute, execute, case_recv}
use tang.Select.Ops.{first_ready}

module _ {ℓ} {T W : Type ℓ} ⦃rt : Runtime W⦄ where
  -- `between` is what the other threads do after a case was found ready.
  unfoldable pub first_ready_with : (Net T W → Net T W) → List (Case T) → Net T W → Option (Net T W)
  first_ready_with between [] n = none
  first_ready_with between (k ∷ ks) n =
      let rest = first_ready_with between ks n in
      if try_ready k n then some (try_execute k (between n)).0 else rest

  first_ready_with-first_ready :
      (ks : List (Case T)) (n : Net T W) → first_ready_with (λ m. m) ks n ≡ first_ready ks n
  unfolding first_ready_with first_ready
  first_ready_with-first_ready [] n = refl
  first_ready_with-first_ready (k ∷ ks) n = ground (arith, first_ready_with-first_ready ks n)

  -- Nothing came of it.
  abbrev pub IsLeft : Net T W → Net T W → Type ℓ
  IsLeft n m = (m.called ≡ n.called) × (m.store ≡ n.store) × (m.world ≡ n.world)

  drained_fails :
      (c : ℕ) (p f : Option ℕ) (n : Net T W)
      → (n.chans c).buffer ≡ []
      → (n.chans c).send_waiters ≡ []
      → ((try_execute (case_recv c p f) n).1 ≡ false) × IsLeft n (try_execute (case_recv c p f) n).0
  unfolding try_execute execute try_recv
  drained_fails c none f n b w = (ground arith, (ground arith, ground arith, ground arith))
  drained_fails c (some p) f n b w = (ground arith, (ground arith, ground arith, ground arith))

  reaches :
      (between : Net T W → Net T W) (pre post : List (Case T)) (k : Case T) (n : Net T W)
      → All (λ j. try_ready j n ≡ false) pre
      → try_ready k n ≡ true
      → first_ready_with between (pre ++ k ∷ post) n ≡ some (try_execute k (between n)).0
  unfolding first_ready_with
  reaches between [] post k n a r = rw r refl
  reaches between (j ∷ js) post k n a r = ground (arith, a.0, reaches between js post k n a.1 r)

  -- The first case that is ready is a receive, and before it is executed other threads take what its
  -- channel had: no value and no waiting sender is left there. Then the loop executes this case all the
  -- same, which fails, and `select` ends with it: nothing is received and no callback is called,
  -- though the other cases were not tried.
  pub taken_between :
      (between : Net T W → Net T W) (pre post : List (Case T)) (c : ℕ) (p f : Option ℕ)
      (n : Net T W)
      → All (λ j. try_ready j n ≡ false) pre
      → try_ready (case_recv c p f) n ≡ true
      → ((between n).chans c).buffer ≡ []
      → ((between n).chans c).send_waiters ≡ []
      → (m : Net T W) × (first_ready_with between (pre ++ case_recv c p f ∷ post) n ≡ some m)
        × IsLeft (between n) m
        × ((try_execute (case_recv c p f) (between n)).1 ≡ false)
  taken_between between pre post c p f n a r b w =
      let left = drained_fails c p f (between n) b w in
      (
        (try_execute (case_recv c p f) (between n)).0,
        reaches between pre post (case_recv c p f) n a r,
        left.1,
        left.0,
      )
