-- ===== src/EventLoop/Erasing.antt =====
-- Timers of src/event_loop.cpp that are erased while others are kept.
use tang.Prelude.{
  is_in, ℕ, ◌≤◌, ◌≡◌, refl, subst, sym, ap, ◌∙◌, false, ◌||◌, List, [], ◌∷◌, ◌++◌, ◌==◌, length,
  if◌then◌else◌, All, Bool-cases, inl, inr, arith,
}
use tang.EventLoop.Defs.{Timer, erase}
use tang.EventLoop.Timers.{waiting}
use tang.EventLoop.Callbacks.{erase_all}

-- The timers whose handles are not listed.
unfoldable pub without : List ℕ → List Timer → List Timer
without hs [] = []
without hs (t ∷ ts) = if is_in t.handle hs then without hs ts else t ∷ without hs ts

-- No two timers have one handle.
abbrev pub AreDistinct : List Timer → Type 0
AreDistinct [] = Unit
AreDistinct (t ∷ ts) = All (λ u. (u.handle == t.handle) ≡ false) ts × AreDistinct ts

is_in-append : (h : ℕ) (gs hs : List ℕ) → is_in h (gs ++ hs) ≡ is_in h gs || is_in h hs
is_in-append h [] hs = refl
is_in-append h (g ∷ gs) hs = ground (arith, is_in-append h gs hs)

pub without-append :
    (gs hs : List ℕ) (ts : List Timer) → without hs (without gs ts) ≡ without (gs ++ hs) ts
unfolding without
without-append gs hs [] = refl
without-append gs hs (t ∷ ts) = ground (arith, is_in-append t.handle gs hs, without-append gs hs ts)

pub append-without :
    (hs : List ℕ) (ts us : List Timer) → without hs (ts ++ us) ≡ without hs ts ++ without hs us
unfolding without
append-without hs [] us = refl
append-without hs (t ∷ ts) us = ground (arith, append-without hs ts us)

pub waiting-without :
    (now : ℕ) (hs : List ℕ) (ts : List Timer)
    → waiting now (without hs ts) ≡ without hs (waiting now ts)
unfolding without
waiting-without now hs [] = refl
waiting-without now hs (t ∷ ts) = ground (arith, waiting-without now hs ts)

pub without_none : (ts : List Timer) → without [] ts ≡ ts
unfolding without
without_none [] = refl
without_none (t ∷ ts) = ap (λ us. t ∷ us) (without_none ts)

length-without : (hs : List ℕ) (ts : List Timer) → length (without hs ts) ≤ length ts
unfolding without
length-without hs [] = omega arith
length-without hs (t ∷ ts) = ground (arith, length-without hs ts)

All-without {ℓ} :
    (P : Timer → Type ℓ) (hs : List ℕ) (ts : List Timer) → All P ts → All P (without hs ts)
unfolding without
All-without P hs [] a = tt
All-without P hs (t ∷ ts) a = elim (Bool-cases (is_in t.handle hs)) [
  | inl e ↦ rw e (All-without P hs ts a.1)
  | inr e ↦ rw e (a.0, All-without P hs ts a.1)
]

pub AreDistinct-without :
    (hs : List ℕ) (ts : List Timer) → AreDistinct ts → AreDistinct (without hs ts)
unfolding without
AreDistinct-without hs [] d = tt
AreDistinct-without hs (t ∷ ts) d = elim (Bool-cases (is_in t.handle hs)) [
  | inl e ↦ rw e (AreDistinct-without hs ts d.1)
  | inr e ↦ rw e (All-without _ hs ts d.0, AreDistinct-without hs ts d.1)
]

without_absent :
    (h : ℕ) (ts : List Timer) → All (λ u. (u.handle == h) ≡ false) ts → without (h ∷ []) ts ≡ ts
unfolding without
without_absent h [] a = refl
without_absent h (t ∷ ts) a = ground (arith, without_absent h ts a.1)

erase-without : (h : ℕ) (ts : List Timer) → AreDistinct ts → (erase h ts).0 ≡ without (h ∷ []) ts
unfolding erase without
erase-without h [] d = refl
erase-without h (t ∷ ts) d = elim (Bool-cases (t.handle == h)) [
  | inl e ↦
      let q : t.handle ≡ h = ground arith in
      let a = subst (λ k. All (λ (u : Timer). (u.handle == k) ≡ false) ts) q d.0 in
      ground (arith, without_absent h ts a)
  | inr e ↦ ground (arith, erase-without h ts d.1)
]

pub erase_all-without :
    (hs : List ℕ) (ts : List Timer) → AreDistinct ts → erase_all hs ts ≡ without hs ts
erase_all-without [] ts d = sym (without_none ts)
erase_all-without (h ∷ hs) ts d =
    ap (erase_all hs) (erase-without h ts d)
    ∙ erase_all-without hs (without (h ∷ []) ts) (AreDistinct-without (h ∷ []) ts d)
    ∙ without-append (h ∷ []) hs ts

module _ {ℓ} (P : Timer → Type ℓ) where
  All-left : (ts us : List Timer) → All P (ts ++ us) → All P ts
  All-left [] us a = tt
  All-left (t ∷ ts) us a = (a.0, All-left ts us a.1)

  All-right : (ts us : List Timer) → All P (ts ++ us) → All P us
  All-right [] us a = a
  All-right (t ∷ ts) us a = All-right ts us a.1

  All-append : (ts us : List Timer) → All P ts → All P us → All P (ts ++ us)
  All-append [] us a b = b
  All-append (t ∷ ts) us a b = (a.0, All-append ts us a.1 b)

pub AreDistinct-left : (ts us : List Timer) → AreDistinct (ts ++ us) → AreDistinct ts
AreDistinct-left [] us d = tt
AreDistinct-left (t ∷ ts) us d = (All-left _ ts us d.0, AreDistinct-left ts us d.1)

pub AreDistinct-right : (ts us : List Timer) → AreDistinct (ts ++ us) → AreDistinct us
AreDistinct-right [] us d = d
AreDistinct-right (t ∷ ts) us d = AreDistinct-right ts us d.1

pub AreDistinct-drop :
    (ts us : List Timer) (u : Timer) → AreDistinct (ts ++ u ∷ us) → AreDistinct (ts ++ us)
AreDistinct-drop [] us u d = d.1
AreDistinct-drop (t ∷ ts) us u d = (
  All-append _ ts us (All-left _ ts (u ∷ us) d.0) (All-right _ ts (u ∷ us) d.0).1,
  AreDistinct-drop ts us u d.1,
)

pub AreDistinct-thin :
    (hs : List ℕ) (ts us : List Timer) → AreDistinct (ts ++ us) → AreDistinct (without hs ts ++ us)
unfolding without
AreDistinct-thin hs [] us d = d
AreDistinct-thin hs (t ∷ ts) us d = elim (Bool-cases (is_in t.handle hs)) [
  | inl e ↦ rw e (AreDistinct-thin hs ts us d.1)
  | inr e ↦ rw e (
    All-append _ (without hs ts) us (All-without _ hs ts (All-left _ ts us d.0))
        (All-right _ ts us d.0),
    AreDistinct-thin hs ts us d.1,
  )
]
