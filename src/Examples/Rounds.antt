-- ===== src/Examples/Rounds.antt =====
-- The rounds of the loop of `select_example` in examples/select_example.cpp.
use tang.Prelude.{
  ℕ, ◌+◌, ◌≡◌, ◌⊎◌, inl, inr, refl, sym, ap, ◌∙◌, true, false, Option, some, List, [], ◌∷◌, ◌++◌,
  map, length, length-append, Bool-cases, List-cases, take, drop, drop-append, drop_all, ◌==◌,
  if◌then◌else◌, update_self, arith,
}
use tang.Channel.Defs.{Channel}
use tang.Channel.Ops.{try_recv, recv_front}
use tang.Channel.Operators.{World, runtime}
use tang.Select.Defs.{Case, Net, try_ready, is_ready, try_execute, execute}
use tang.Select.Ops.{select}
use tang.Select.Choice.{select_head}
use tang.Examples.Channels.{Line, received}
use tang.Examples.Selects.{Source, one, two, three, address, case_of, cases, printed}

-- A closed channel on which nobody waits, with the values that are left in it.
abbrev pub shut : ℕ → List ℕ → Channel ℕ
shut c vs = record {
  capacity = c;
  buffer = vs;
  closed = true;
  send_waiters = [];
  recv_waiters = [];
}

-- What is left when a round has tried the channel `k`.
unfoldable pub taken : Source → (Source → List ℕ) → Source → List ℕ
taken k l i = if address k == address i then drop 1 (l i) else l i

abbrev pub left : (Source → List ℕ) → ℕ
left l = length (l one) + length (l two) + length (l three)

-- The values that were received from the channel `k`, in a list of lines.
unfoldable pub values_of : ℕ → List Line → List (Option ℕ)
values_of k [] = []
values_of k (Line.sent i v ∷ ls) = values_of k ls
values_of k (received i v ∷ ls) = if i == k then v ∷ values_of k ls else values_of k ls

abbrev pub Holds : ℕ → Net ℕ World → (Source → List ℕ) → Type 0
Holds c n l = (i : Source) → n.chans (address i) ≡ shut c (l i)

module _ (hardware p : ℕ) where
  abbrev pub after : Source → Net ℕ World → Net ℕ World
  after k n = (try_execute ⦃rt = runtime hardware⦄ (case_of p k) n).0

  pub select_first :
      (busy : ℕ) (k : Source) (rest : List (Case ℕ)) (s : ℕ → List (Case ℕ) → List (Case ℕ))
      (n : Net ℕ World)
      → s 0 (cases p) ≡ case_of p k ∷ rest
      → (n.chans (address k)).closed ≡ true
      → select ⦃rt = runtime hardware⦄ busy s (λ i m. m) (cases p) n ≡ some (after k n)
  unfolding try_ready is_ready
  select_first busy k rest s n e f =
      select_head ⦃rt = runtime hardware⦄ busy s (λ i m. m) (cases p) rest (case_of p k) n e
        (ground (arith, f))

  -- A round on a channel with no value left.
  pub drained :
      (c : ℕ) (k : Source) (n : Net ℕ World)
      → n.chans (address k) ≡ shut c []
      → ((after k n).called ≡ n.called) × ((i : ℕ) → (after k n).chans i ≡ n.chans i)
  unfolding try_execute execute try_recv
  drained c k n e = (ground (arith, e), λ i. ground (arith, e))

  -- A round on a channel with a value left.
  received_one :
      (c : ℕ) (k : Source) (x : ℕ) (xs : List ℕ) (n : Net ℕ World)
      → n.chans (address k) ≡ shut c (x ∷ xs)
      → ((after k n).called ≡ n.called ++ address k ∷ [])
        × ((after k n).store.cell p ≡ x)
        × ((i : ℕ) → (after k n).chans i ≡ (if address k == i then shut c xs else n.chans i))
  unfolding try_execute execute try_recv recv_front
  received_one c k x xs n e =
      (ground (arith, e), ground (arith, e, update_self n.store.cell p x), λ i. ground (arith, e))

same_source : (i k : Source) → address i ≡ address k → i ≡ k
same_source one one e = refl
same_source one two e = absurd (omega (arith, e))
same_source one three e = absurd (omega (arith, e))
same_source two one e = absurd (omega (arith, e))
same_source two two e = refl
same_source two three e = absurd (omega (arith, e))
same_source three one e = absurd (omega (arith, e))
same_source three two e = absurd (omega (arith, e))
same_source three three e = refl

-- A list of values in front, as the callbacks print it.
split_value : (vs : List ℕ) → map some vs ≡ map some (take 1 vs) ++ map some (drop 1 vs)
split_value [] = refl
split_value (v ∷ vs) = refl

left_drained : (k : Source) (l : Source → List ℕ) → l k ≡ [] → left (taken k l) ≡ left l
unfolding taken
left_drained one l e = ground (arith, e)
left_drained two l e = ground (arith, e)
left_drained three l e = ground (arith, e)

left_taken :
    (k : Source) (l : Source → List ℕ) (x : ℕ) (xs : List ℕ)
    → l k ≡ x ∷ xs
    → left (taken k l) + 1 ≡ left l
unfolding taken
left_taken one l x xs e = ground (arith, e)
left_taken two l x xs e = ground (arith, e)
left_taken three l x xs e = ground (arith, e)

-- What a round on the channel `k` does: what it takes from the channel is counted and printed.
pub record Round (p c : ℕ) (k : Source) (l : Source → List ℕ) (n m : Net ℕ World) : Type 0 where
  pub keeps : Holds c m (taken k l)
  pub counted : length m.called + left (taken k l) ≡ length n.called + left l
  pub prints :
      (i : Source)
      → map some (l i) ≡ values_of (address i) (printed p n m) ++ map some (taken k l i)

printed_nothing : (p : ℕ) (n m : Net ℕ World) → m.called ≡ n.called → printed p n m ≡ []
printed_nothing p n m e =
    ap (map (λ k. received k (some (m.store.cell p))))
      (ap (drop (length n.called)) e ∙ drop_all n.called)

printed_one :
    (p a x : ℕ) (n m : Net ℕ World)
    → m.called ≡ n.called ++ a ∷ []
    → m.store.cell p ≡ x
    → printed p n m ≡ received a (some x) ∷ []
printed_one p a x n m e f =
    ap (map (λ k. received k (some (m.store.cell p))))
      (ap (drop (length n.called)) e ∙ drop-append n.called (a ∷ []))
    ∙ ap (λ v. received a (some v) ∷ []) f

module _ (k : Source) (l : Source → List ℕ) where
  taken_nil : l k ≡ [] → (i : Source) → taken k l i ≡ l i
  unfolding taken
  taken_nil e i = elim (Bool-cases (address k == address i)) [
    | inl t ↦
        let f : l i ≡ [] = ap l (same_source i k (ground arith)) ∙ e in rw t (ap (drop 1) f ∙ sym f)
    | inr t ↦ rw t
  ]

  -- The channel `i` is the one that the round took `x` from, or another.
  taken_cons :
      (x : ℕ) (xs : List ℕ)
      → l k ≡ x ∷ xs
      → (i : Source)
      → (((address k == address i) ≡ true) × (l i ≡ x ∷ xs) × (taken k l i ≡ xs))
        ⊎ (((address k == address i) ≡ false) × (taken k l i ≡ l i))
  unfolding taken
  taken_cons x xs e i = elim (Bool-cases (address k == address i)) [
    | inl t ↦
        let f : l i ≡ x ∷ xs = ap l (same_source i k (ground arith)) ∙ e in
        inl (t, f, rw t (ap (drop 1) f))
    | inr t ↦ inr (t, rw t refl)
  ]

module _ (hardware p c : ℕ) (k : Source) (l : Source → List ℕ) (n : Net ℕ World)
    (h : Holds c n l) where
  drained-Round : l k ≡ [] → Round p c k l n (after hardware p k n)
  unfolding values_of
  drained-Round e =
      let d = drained hardware p c k n (h k ∙ ap (shut c) e) in
      record {
        keeps = λ i. d.1 (address i) ∙ h i ∙ ap (shut c) (sym (taken_nil k l e i));
        counted = omega (arith, left_drained k l e, ap length d.0);
        prints = λ i. rw (printed_nothing p n (after hardware p k n) d.0, taken_nil k l e i) refl;
      }

  received-Round : (x : ℕ) (xs : List ℕ) → l k ≡ x ∷ xs → Round p c k l n (after hardware p k n)
  unfolding values_of
  received-Round x xs e =
      let d = received_one hardware p c k x xs n (h k ∙ ap (shut c) e) in
      record {
        keeps = λ i. elim (taken_cons k l x xs e i) [
          | inl (t, f, g) ↦ d.2 (address i) ∙ rw t (ap (shut c) (sym g))
          | inr (t, g) ↦ d.2 (address i) ∙ rw t (h i ∙ ap (shut c) (sym g))
        ];
        counted =
            omega (
              arith,
              left_taken k l x xs e,
              ap length d.0,
              length-append n.called (address k ∷ []),
            );
        prints = λ i. elim (taken_cons k l x xs e i) [
          | inl (t, f, g) ↦
              rw (printed_one p (address k) x n (after hardware p k n) d.0 d.1, f) (rw (t, g) refl)
          | inr (t, g) ↦
              rw (printed_one p (address k) x n (after hardware p k n) d.0 d.1) (rw (t, g) refl)
        ];
      }

  -- Whatever is in the channels, a round takes the oldest value of its channel, if there is one.
  pub after-Round : Round p c k l n (after hardware p k n)
  after-Round = elim (List-cases (l k)) [
    | inl e ↦ drained-Round e
    | inr (x, xs, e) ↦ received-Round x xs e
  ]
