-- ===== src/Base/Bits/Digit.antt =====
-- The binary digits of a word, by position, and those of `&`, `|`, a complement and a single bit.
use Prim.Native.Nat.{
  ℕ, zero, suc, ◌*◌, ◌-◌, ◌/◌, ◌%◌, ◌^◌, ◌≤◌, ◌<◌, min, max, bit_and, bit_or, bit_and-bitwise,
}
use mathlib.Core.Path.{◌≡◌, refl, sym, ap, ◌∙◌}
use mathlib.Core.Logic.{◌≢◌}
use native.Mathlib.Nat.{pow-succ', div-div-eq-div-mul}
use native.Mathlib.Omega.{arith}
use kagi.Base.Bits.{bit_and_halves, bit_or_halves}
use kagi.Base.Bits.Masks.{bit_and-zero}

-- Digit `i` of `a`: 0 or 1.
abbrev pub bit : ℕ → ℕ → ℕ
bit a zero = a % 2
bit a (suc i) = bit (a / 2) i

pub bit-lt : (a i : ℕ) → bit a i < 2
bit-lt a zero = omega arith
bit-lt a (suc i) = bit-lt (a / 2) i

-- `(a >> i) & 1`
pub shift-bit : (a i : ℕ) → a / 2 ^ i % 2 ≡ bit a i
shift-bit a zero = omega arith
shift-bit a (suc i) =
    rw pow-succ'
      (ap (λ (q : ℕ). q % 2) (sym (div-div-eq-div-mul a 2 (2 ^ i))) ∙ shift-bit (a / 2) i)

halve_or : (a b : ℕ) → bit_or a b / 2 ≡ bit_or (a / 2) (b / 2)
halve_or a b = omega (arith, bit_or_halves a b)

halve_and : (a b : ℕ) → bit_and a b / 2 ≡ bit_and (a / 2) (b / 2)
halve_and a b = omega (arith, bit_and_halves a b)

pub bit-bit_or : (a b i : ℕ) → bit (bit_or a b) i ≡ max (bit a i) (bit b i)
bit-bit_or a b zero = omega (arith, bit_or_halves a b)
bit-bit_or a b (suc i) = rw halve_or (bit-bit_or (a / 2) (b / 2) i)

pub bit-bit_and : (a b i : ℕ) → bit (bit_and a b) i ≡ min (bit a i) (bit b i)
bit-bit_and a b zero = omega (arith, bit_and_halves a b)
bit-bit_and a b (suc i) = rw halve_and (bit-bit_and (a / 2) (b / 2) i)

zero-bit_and : (b : ℕ) → bit_and 0 b ≡ 0
zero-bit_and b = bit_and-bitwise 0 b

pub bit-zero : (i : ℕ) → bit 0 i ≡ 0
bit-zero zero = refl
bit-zero (suc i) = bit-zero i

pub bit-pow_self : (i : ℕ) → bit (2 ^ i) i ≡ 1
bit-pow_self zero = refl
bit-pow_self (suc i) = ap (λ (a : ℕ). bit a i) (omega (arith, pow-succ' 2 i)) ∙ bit-pow_self i

pub bit-pow_ne : (i j : ℕ) → i ≢ j → bit (2 ^ i) j ≡ 0
bit-pow_ne zero zero h = absurd (h refl)
bit-pow_ne zero (suc j) h = bit-zero j
bit-pow_ne (suc i) zero h = omega (arith, pow-succ' 2 i)
bit-pow_ne (suc i) (suc j) h =
    ap (λ (a : ℕ). bit a j) (omega (arith, pow-succ' 2 i)) ∙ bit-pow_ne i j (λ e. h (ap suc e))

-- A word of `w` bits is 0 exactly if all its digits are.
pub eq_zero_of_bits : (w a : ℕ) → a < 2 ^ w → ((i : ℕ) → i < w → bit a i ≡ 0) → a ≡ 0
eq_zero_of_bits zero a h z = omega arith
eq_zero_of_bits (suc w) a h z = omega (
  arith,
  z 0 (omega arith),
  eq_zero_of_bits w (a / 2) (omega (arith, pow-succ' 2 w)) (λ i hi. z (suc i) (omega arith)),
)

-- `!a` on `w` bits.
abbrev pub complement : ℕ → ℕ → ℕ
complement w a = 2 ^ w - 1 - a

pub bit-complement : (w a i : ℕ) → a < 2 ^ w → i < w → bit (complement w a) i ≡ 1 - bit a i
bit-complement zero a i h hi = absurd (omega arith)
bit-complement (suc w) a zero h hi = omega (arith, pow-succ' 2 w)
bit-complement (suc w) a (suc i) h hi =
    ap (λ (t : ℕ). bit t i) (omega (arith, pow-succ' 2 w))
    ∙ bit-complement w (a / 2) i (omega (arith, pow-succ' 2 w)) (omega arith)

-- `a & !b == 0`: every digit of `a` is one of `b`.
abbrev pub Within : ℕ → ℕ → ℕ → Type 0
Within w a b = (i : ℕ) → i < w → bit a i ≤ bit b i

pub bit_and-lt : (w a b : ℕ) → a < 2 ^ w → bit_and a b < 2 ^ w
bit_and-lt zero zero b h = omega (arith, bit_and_halves 0 b, zero-bit_and b)
bit_and-lt zero (suc a) b h = absurd (omega arith)
bit_and-lt (suc w) a b h = omega (
  arith,
  bit_and_halves a b,
  bit_and-lt w (a / 2) (b / 2) (omega (arith, pow-succ' 2 w)),
  pow-succ' 2 w,
)

pub Within-of_mask : (w a b : ℕ) → b < 2 ^ w → bit_and a (complement w b) ≡ 0 → Within w a b
Within-of_mask w a b h e i hi = omega (
  arith,
  bit-bit_and a (complement w b) i,
  ap (λ (t : ℕ). bit t i) e,
  bit-zero i,
  bit-complement w b i h hi,
  bit-lt a i,
  bit-lt b i,
)

pub mask_of_Within :
    (w a b : ℕ) → a < 2 ^ w → b < 2 ^ w → Within w a b → bit_and a (complement w b) ≡ 0
mask_of_Within w a b ha hb within = eq_zero_of_bits w _ (bit_and-lt w a (complement w b) ha) λ i hi.
    omega (
      arith,
      bit-bit_and a (complement w b) i,
      bit-complement w b i hb hi,
      within i hi,
      bit-lt a i,
      bit-lt b i,
    )

-- `a & (1 << i)`
pub bit_and-pow : (a i : ℕ) → bit_and a (2 ^ i) ≡ 2 ^ i * bit a i
bit_and-pow a zero = omega (arith, bit_and_halves a 1, bit_and-zero (a / 2))
bit_and-pow a (suc i) = omega (
  arith,
  bit_and_halves a (2 ^ suc i),
  ap (λ (t : ℕ). bit_and (a / 2) t) (half_pow i),
  bit_and-pow (a / 2) i,
  pow-succ' 2 i,
  ap (λ (t : ℕ). t * bit (a / 2) i) (pow-succ' 2 i),
)
  where
    half_pow : (i : ℕ) → 2 ^ suc i / 2 ≡ 2 ^ i
    half_pow i = omega (arith, pow-succ' 2 i)
