-- ===== src/Prelude/Lists.antt =====
-- Lists measured by native numbers.
use Prim.Native.Nat.{ℕ, zero, suc, ◌+◌, ◌-◌, ◌≤◌}
use mathlib.Core.Path.{◌≡◌, refl, ap, ◌∙◌}
use mathlib.Core.Logic.{◌⊎◌, inl, inr}
use mathlib.Core.List.{List, [], ◌∷◌, ◌++◌, map}
use native.Mathlib.Omega.{arith}

module _ {ℓ} {A : Type ℓ} where
  abbrev pub length : List A → ℕ
  length [] = 0
  length (x ∷ xs) = suc (length xs)

  pub length-append : (xs ys : List A) → length (xs ++ ys) ≡ length xs + length ys
  length-append [] ys = omega arith
  length-append (x ∷ xs) ys = omega (arith, length-append xs ys)

  abbrev pub take : ℕ → List A → List A
  take zero xs = []
  take (suc n) [] = []
  take (suc n) (x ∷ xs) = x ∷ take n xs

  abbrev pub drop : ℕ → List A → List A
  drop zero xs = xs
  drop (suc n) [] = []
  drop (suc n) (x ∷ xs) = drop n xs

  -- A predicate at every entry, as a tuple.
  abbrev pub All {κ} : (A → Type κ) → List A → Type κ
  All P [] = Unit
  All P (x ∷ xs) = P x × All P xs

  pub List-cases : (xs : List A) → (xs ≡ []) ⊎ ((y : A) × (ys : List A) × (xs ≡ y ∷ ys))
  List-cases [] = inl refl
  List-cases (x ∷ xs) = inr (x, xs, refl)

module _ {ℓ κ} {A : Type ℓ} {B : Type κ} (f : A → B) where
  pub length-map : (xs : List A) → length (map f xs) ≡ length xs
  length-map [] = refl
  length-map (x ∷ xs) = ap suc (length-map xs)

module _ {ℓ} {A : Type ℓ} where
  pub take_nil : (n : ℕ) → take {A = A} n [] ≡ []
  take_nil zero = refl
  take_nil (suc n) = refl

  pub take-append :
      (k : ℕ) (us vs : List A) → take k us ++ take (k - length (take k us)) vs ≡ take k (us ++ vs)
  take-append zero us vs = refl
  take-append (suc k) [] vs = let same : suc k - 0 ≡ suc k = omega arith in ap (λ j. take j vs) same
  take-append (suc k) (u ∷ us) vs =
      ap (λ ws. u ∷ ws) (ap (λ j. take k us ++ take j vs) (omega arith) ∙ take-append k us vs)

  pub take_none : (n : ℕ) (vs : List A) → n ≤ 0 → take n vs ≡ []
  take_none zero vs h = refl
  take_none (suc n) vs h = absurd (omega arith)

  pub take_some : (n m : ℕ) (v : A) (vs : List A) → n ≡ suc m → take n (v ∷ vs) ≡ v ∷ take m vs
  take_some zero m v vs h = absurd (omega arith)
  take_some (suc n) m v vs h = ap (λ k. v ∷ take k vs) (omega arith)

  pub drop_one : (m : ℕ) (vs : List A) → drop m (drop 1 vs) ≡ drop (suc m) vs
  drop_one zero [] = refl
  drop_one (suc m) [] = refl
  drop_one m (v ∷ vs) = refl

  pub drop-append : (xs ys : List A) → drop (length xs) (xs ++ ys) ≡ ys
  drop-append [] ys = refl
  drop-append (x ∷ xs) ys = drop-append xs ys

  pub drop_all : (xs : List A) → drop (length xs) xs ≡ []
  drop_all [] = refl
  drop_all (x ∷ xs) = drop_all xs
