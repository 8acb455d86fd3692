-- ===== src/Base/Bits/Masks.antt =====
-- `&` with a mask of low ones is a remainder, and `|` of a shifted field and a smaller one a sum.
use Prim.Native.Nat.{ℕ, zero, suc, ◌+◌, ◌-◌, ◌*◌, ◌/◌, ◌%◌, ◌^◌, ◌<◌, bit_and, bit_or}
use mathlib.Core.Path.{◌≡◌, refl, ap}
use native.Mathlib.Nat.{pow-succ', one-le-pow, div-add-mod', div-div-eq-div-mul}
use native.Mathlib.Omega.{arith}
use kagi.Base.Bits.{bit_and_halves, bit_or_halves}

below : (n a : ℕ) → a < n → bit_and a 0 ≡ 0
below zero a h = absurd (omega arith)
below (suc n) zero h = refl
below (suc n) (suc a) h = omega (arith, bit_and_halves (suc a) 0, below n (suc a / 2) (omega arith))

pub bit_and-zero : (a : ℕ) → bit_and a 0 ≡ 0
bit_and-zero a = below (suc a) a (omega arith)

or_below : (n a : ℕ) → a < n → bit_or a 0 ≡ a
or_below zero a h = absurd (omega arith)
or_below (suc n) zero h = refl
or_below (suc n) (suc a) h =
    omega (arith, bit_or_halves (suc a) 0, or_below n (suc a / 2) (omega arith))

pub bit_or-zero : (a : ℕ) → bit_or a 0 ≡ a
bit_or-zero a = or_below (suc a) a (omega arith)

bit_or_of_eq : (a b c : ℕ) → a ≡ b → bit_or a c ≡ bit_or b c
bit_or_of_eq a b c e = ap (λ t. bit_or t c) e

-- The mask of `k` ones.
abbrev pub ones : ℕ → ℕ
ones zero = 0
ones (suc k) = 2 * ones k + 1

pub remainder_halves : (a m : ℕ) → a % (2 * m) ≡ a / 2 % m * 2 + a % 2
remainder_halves a m = omega (
  arith,
  div-add-mod' a (2 * m),
  div-add-mod' (a / 2) m,
  ap (λ (q : ℕ). q * m) (div-div-eq-div-mul a 2 m),
)

half_ones : (k : ℕ) → ones (suc k) / 2 ≡ ones k
half_ones k = omega arith

pub bit_and-ones : (k a : ℕ) → bit_and a (ones k) ≡ a % 2 ^ k
bit_and-ones zero a = rw bit_and-zero (omega arith)
bit_and-ones (suc k) a = rw pow-succ' (
    omega (
      arith,
      bit_and_halves a (ones (suc k)),
      ap (λ (t : ℕ). bit_and (a / 2) t) (half_ones k),
      bit_and-ones k (a / 2),
      remainder_halves a (2 ^ k),
    ))

pub bit_or-field : (k q r : ℕ) → r < 2 ^ k → bit_or (q * 2 ^ k) r ≡ q * 2 ^ k + r
bit_or-field zero q r h = ground (arith, bit_or-zero q)
bit_or-field (suc k) q r h = omega (
  arith,
  bit_or_halves (q * 2 ^ suc k) r,
  bit_or-field k q (r / 2),
  pow-succ' 2 k,
  ap (λ (t : ℕ). q * t) (pow-succ' 2 k),
  bit_or_of_eq (q * 2 ^ suc k / 2) (q * 2 ^ k) (r / 2),
)

pub ones_lem : (k : ℕ) → 2 ^ k - 1 ≡ ones k
ones_lem zero = refl
ones_lem (suc k) = omega (arith, pow-succ' 2 k, ones_lem k, one-le-pow k 2)
