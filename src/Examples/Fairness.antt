-- ===== src/Examples/Fairness.antt =====
-- When the loop of `select_example` in examples/select_example.cpp ends.
use tang.Prelude.{
  ℕ, zero, suc, ◌+◌, ◌≤◌, ◌<◌, ◌≡◌, inl, inr, refl, sym, ap, ◌∙◌, true, false, Option, none, some,
  List, [], ◌∷◌, ◌++◌, map, length, drop, ltb, ◌==◌, if◌then◌else◌, Bool-cases, arith,
}
use tang.Channel.Defs.{Channel}
use tang.Channel.Operators.{World, runtime}
use tang.Select.Defs.{Case, Net}
use tang.Examples.Channels.{Line}
use tang.Examples.Selects.{Source, one, two, three, address, case_of, cases, printed, receive_all}
use tang.Examples.Rounds.{Holds, shut, taken, left, values_of, after, select_first, after-Round}

-- How many of the `fuel` rounds from the round `j` have the channel `k` first in their shuffle.
unfoldable pub count : Source → (ℕ → Source) → ℕ → ℕ → ℕ
count k first j zero = 0
count k first j (suc fuel) =
    (if address (first j) == address k then 1 else 0) + count k first (j + 1) fuel

empty : (vs : List ℕ) → length vs ≤ 0 → vs ≡ []
empty [] h = refl
empty (v ∷ vs) h = absurd (omega arith)

values_of-append :
    (k : ℕ) (ks ls : List Line) → values_of k (ks ++ ls) ≡ values_of k ks ++ values_of k ls
unfolding values_of
values_of-append k [] ls = refl
values_of-append k (Line.sent i v ∷ ks) ls = values_of-append k ks ls
values_of-append k (Line.received i v ∷ ks) ls = ground (arith, values_of-append k ks ls)

length-drop_one : (vs : List ℕ) (m : ℕ) → length vs ≤ 1 + m → length (drop 1 vs) ≤ m
length-drop_one [] m h = omega arith
length-drop_one (v ∷ vs) m h = omega arith

-- What is left for the rounds that follow.
length-taken :
    (i : Source) (l : Source → List ℕ) (first : ℕ → Source) (j fuel : ℕ)
    → length (l i) ≤ count i first j (suc fuel)
    → length (taken (first j) l i) ≤ count i first (j + 1) fuel
unfolding taken count
length-taken i l first j fuel h = ground (arith, length-drop_one (l i) (count i first (j + 1) fuel))

module _ (hardware p c busy : ℕ) (shuffle : ℕ → ℕ → List (Case ℕ) → List (Case ℕ))
    (first : ℕ → Source)
    (shuffled : (j : ℕ)
      → (rest : List (Case ℕ)) × (shuffle j 0 (cases p) ≡ case_of p (first j) ∷ rest)) where
  -- What the loop does from the net `n` with the values `l` in the channels.
  pub record Drains (n : Net ℕ World) (l : Source → List ℕ) (o : Option (Net ℕ World × List Line))
      : Type 0 where
    pub last : Net ℕ World
    pub lines : List Line
    pub result : o ≡ some (last, lines)
    pub emptied : (i : Source) → last.chans (address i) ≡ shut c []
    pub prints : (i : Source) → values_of (address i) lines ≡ map some (l i)

  receive_all_stop :
      (fuel j total : ℕ) (n : Net ℕ World)
      → total ≤ length n.called
      → receive_all hardware p busy (suc fuel) shuffle j total n ≡ some (n, [])
  unfolding receive_all
  receive_all_stop fuel j total n h =
      let e : ltb (length n.called) total ≡ false = ground arith in rw (e, receive_all) refl

  receive_all_round :
      (fuel j total : ℕ) (n z : Net ℕ World) (ls : List Line)
      → length n.called < total
      → (n.chans (address (first j))).closed ≡ true
      → receive_all hardware p busy fuel shuffle (j + 1) total (after hardware p (first j) n)
        ≡ some (z, ls)
      → receive_all hardware p busy (suc fuel) shuffle j total n
        ≡ some (z, printed p n (after hardware p (first j) n) ++ ls)
  unfolding receive_all
  receive_all_round fuel j total n z ls h f e =
      let r = shuffled j in
      let t : ltb (length n.called) total ≡ true = ground arith in
      rw (t, select_first hardware p busy (first j) r.0 (shuffle j) n r.1 f, e, receive_all) refl

  nothing_left-Drains :
      (fuel j total : ℕ) (n : Net ℕ World) (l : Source → List ℕ)
      → Holds c n l
      → total ≤ length n.called
      → ((i : Source) → l i ≡ [])
      → Drains n l (receive_all hardware p busy (suc fuel) shuffle j total n)
  unfolding values_of
  nothing_left-Drains fuel j total n l h t e = record {
    last = n;
    lines = [];
    result = receive_all_stop fuel j total n t;
    emptied = λ i. h i ∙ ap (shut c) (e i);
    prints = λ i. ap (map some) (sym (e i));
  }

  round-Drains :
      (fuel j total : ℕ) (n : Net ℕ World) (l : Source → List ℕ)
      → Holds c n l
      → length n.called < total
      → let m = after hardware p (first j) n in
        Drains m (taken (first j) l) (receive_all hardware p busy fuel shuffle (j + 1) total m)
        → Drains n l (receive_all hardware p busy (suc fuel) shuffle j total n)
  round-Drains fuel j total n l h t d =
      let k : Source = first j in
      let r = after-Round hardware p c k l n h in
      record {
        last = d.last;
        lines = printed p n (after hardware p k n) ++ d.lines;
        result =
            receive_all_round fuel j total n d.last d.lines t
              (ap (λ (x : Channel ℕ). x.closed) (h k)) d.result;
        emptied = d.emptied;
        prints = λ i.
            values_of-append (address i) (printed p n (after hardware p k n)) d.lines
            ∙ ap (λ vs. values_of (address i) (printed p n (after hardware p k n)) ++ vs)
                (d.prints i)
            ∙ sym (r.prints i);
      }

  nothing_left : (l : Source → List ℕ) → left l ≡ 0 → (i : Source) → l i ≡ []
  nothing_left l e one = empty (l one) (omega arith)
  nothing_left l e two = empty (l two) (omega arith)
  nothing_left l e three = empty (l three) (omega arith)

  -- The loop of `select_example` on closed channels with values `l`, until it has received as many: it
  -- ends if within `fuel` rounds each channel is first in a shuffle as often as it has values. Then all
  -- the channels are empty, and from each its values were printed, in order.
  pub receive_all-Drains :
      (fuel j total : ℕ) (n : Net ℕ World) (l : Source → List ℕ)
      → Holds c n l
      → length n.called + left l ≡ total
      → ((i : Source) → length (l i) ≤ count i first j fuel)
      → Drains n l (receive_all hardware p busy (suc fuel) shuffle j total n)
  unfolding count
  receive_all-Drains zero j total n l h t e =
      nothing_left-Drains zero j total n l h (omega (arith, e one, e two, e three))
        (λ i. empty (l i) (e i))
  receive_all-Drains (suc fuel) j total n l h t e =
      elim (Bool-cases (ltb (length n.called) total)) [
        | inl more ↦
            let r = after-Round hardware p c (first j) l n h in
            round-Drains (suc fuel) j total n l h (ground arith) (
              receive_all-Drains fuel (j + 1) total (after hardware p (first j) n)
                (taken (first j) l) r.keeps (omega (arith, r.counted))
                (λ i. length-taken i l first j fuel (e i)))
        | inr done ↦
            nothing_left-Drains (suc fuel) j total n l h (ground arith)
              (nothing_left l (ground arith))
      ]

  -- If fewer values are left than the loop waits for, it never ends, whatever the shuffles: a closed and
  -- drained channel counts as ready, so each `select` returns at once.
  pub receive_all_spins :
      (fuel j total : ℕ) (n : Net ℕ World) (l : Source → List ℕ)
      → Holds c n l
      → length n.called + left l < total
      → receive_all hardware p busy fuel shuffle j total n ≡ none
  unfolding receive_all
  receive_all_spins zero j total n l h t = refl
  receive_all_spins (suc fuel) j total n l h t =
      let k : Source = first j in
      let r = after-Round hardware p c k l n h in
      let s = shuffled j in
      let e : ltb (length n.called) total ≡ true = ground arith in
      rw
        (
          e,
          select_first hardware p busy k s.0 (shuffle j) n s.1
              (ap (λ (x : Channel ℕ). x.closed) (h k)),
          receive_all_spins fuel (j + 1) total (after hardware p k n) (taken k l) r.keeps
              (omega (arith, r.counted)),
          receive_all,
        )
        refl
