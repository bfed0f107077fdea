-- ===== src/Prelude/Digits.antt =====
-- The binary digits of native numbers.
use Prim.Native.Nat.{
  ℕ, zero, suc, ◌+◌, ◌*◌, ◌/◌, ◌%◌, ◌≤◌, min, max, bit_and, bit_or, digits, bitwise,
  bit_and-bitwise, bit_or-bitwise,
}
use mathlib.Core.Path.{◌≡◌, refl, ap}
use native.Mathlib.Omega.{arith}

module _ (z : ℕ → ℕ) (g : ℕ → ℕ → ℕ) where
  -- More digits to go than the first number has change nothing.
  spare_digits : (n m a b : ℕ) → a ≤ n → a ≤ m → digits z g n a b ≡ digits z g m a b
  spare_digits zero zero a b p q = refl
  spare_digits zero (suc m) (suc a) b p q = absurd (omega arith)
  spare_digits (suc n) zero (suc a) b p q = absurd (omega arith)
  spare_digits zero (suc m) zero b p q = refl
  spare_digits (suc n) zero zero b p q = refl
  spare_digits (suc n) (suc m) zero b p q = refl
  spare_digits (suc n) (suc m) (suc a) b p q =
      ap (λ r. r * 2 + g (suc a % 2) (b % 2))
        (spare_digits n m (suc a / 2) (b / 2) (omega arith) (omega arith))

  -- The last digit apart from the others.
  bitwise_last :
      ((b : ℕ) → z b ≡ z (b / 2) * 2 + g 0 (b % 2))
      → (a b : ℕ) → bitwise z g a b ≡ bitwise z g (a / 2) (b / 2) * 2 + g (a % 2) (b % 2)
  bitwise_last u zero b = u b
  bitwise_last u (suc a) b =
      ap (λ r. r * 2 + g (suc a % 2) (b % 2))
        (spare_digits a (suc a / 2) (suc a / 2) (b / 2) (omega arith) (omega arith))

and_last : (a b : ℕ) → bit_and a b ≡ bit_and (a / 2) (b / 2) * 2 + min (a % 2) (b % 2)
and_last a b = omega (
  arith,
  bitwise_last (λ _. 0) min (λ c. omega arith) a b,
  bit_and-bitwise a b,
  bit_and-bitwise (a / 2) (b / 2),
)

or_last : (a b : ℕ) → bit_or a b ≡ bit_or (a / 2) (b / 2) * 2 + max (a % 2) (b % 2)
or_last a b = omega (
  arith,
  bitwise_last (λ c. c) max (λ c. omega arith) a b,
  bit_or-bitwise a b,
  bit_or-bitwise (a / 2) (b / 2),
)

and_none : (n a : ℕ) → a ≤ n → bit_and a 0 ≡ 0
and_none n zero p = bit_and-bitwise 0 0
and_none zero (suc a) p = absurd (omega arith)
and_none (suc n) (suc a) p = omega (arith, and_last (suc a) 0, and_none n (suc a / 2) (omega arith))

-- Each of the four lowest digits, taken out by its mask.
pub mask_lowest :
    (a : ℕ)
    → (bit_and a 1 ≡ a % 2)
      × (bit_and a 2 ≡ a / 2 % 2 * 2)
      × (bit_and a 4 ≡ a / 4 % 2 * 4)
      × (bit_and a 8 ≡ a / 8 % 2 * 8)
mask_lowest a = (one a, two a, four a, eight a)
  where
    one : (x : ℕ) → bit_and x 1 ≡ x % 2
    one x = omega (arith, and_last x 1, and_none (x / 2) (x / 2) (omega arith))

    two : (x : ℕ) → bit_and x 2 ≡ x / 2 % 2 * 2
    two x = omega (arith, and_last x 2, one (x / 2))

    four : (x : ℕ) → bit_and x 4 ≡ x / 4 % 2 * 4
    four x = omega (arith, and_last x 4, two (x / 2))

    eight : (x : ℕ) → bit_and x 8 ≡ x / 8 % 2 * 8
    eight x = omega (arith, and_last x 8, four (x / 2))

-- The four lowest digits of a conjunction and of a disjunction.
pub and_lowest :
    (a b : ℕ)
    → (bit_and a b % 2 ≡ min (a % 2) (b % 2))
      × (bit_and a b / 2 % 2 ≡ min (a / 2 % 2) (b / 2 % 2))
      × (bit_and a b / 4 % 2 ≡ min (a / 4 % 2) (b / 4 % 2))
      × (bit_and a b / 8 % 2 ≡ min (a / 8 % 2) (b / 8 % 2))
and_lowest a b =
    let e = and_last a b in
    let f = and_last (a / 2) (b / 2) in
    let g = and_last (a / 2 / 2) (b / 2 / 2) in
    let h = and_last (a / 2 / 2 / 2) (b / 2 / 2 / 2) in
    (omega (arith, e), omega (arith, e, f), omega (arith, e, f, g), omega (arith, e, f, g, h))

pub or_lowest :
    (a b : ℕ)
    → (bit_or a b % 2 ≡ max (a % 2) (b % 2))
      × (bit_or a b / 2 % 2 ≡ max (a / 2 % 2) (b / 2 % 2))
      × (bit_or a b / 4 % 2 ≡ max (a / 4 % 2) (b / 4 % 2))
      × (bit_or a b / 8 % 2 ≡ max (a / 8 % 2) (b / 8 % 2))
or_lowest a b =
    let e = or_last a b in
    let f = or_last (a / 2) (b / 2) in
    let g = or_last (a / 2 / 2) (b / 2 / 2) in
    let h = or_last (a / 2 / 2 / 2) (b / 2 / 2 / 2) in
    (omega (arith, e), omega (arith, e, f), omega (arith, e, f, g), omega (arith, e, f, g, h))
