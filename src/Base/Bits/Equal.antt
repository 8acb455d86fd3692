-- ===== src/Base/Bits/Equal.antt =====
-- Accumulated differences: `|` is 0 only on zeros, and `^` only on equal numbers.
use Prim.Native.Nat.{
  ℕ, zero, suc, ◌/◌, ◌%◌, ◌<◌, differ, bit_or, bit_xor, bit_or-bitwise, bit_xor-bitwise,
}
use mathlib.Core.Path.{◌≡◌, refl, sym, ◌∙◌}
use native.Mathlib.Omega.{arith}
use kagi.Base.Bits.{bit_or_halves, bit_xor_halves}

or_below : (n a b : ℕ) → a < n → bit_or a b ≡ 0 → (a ≡ 0) × (b ≡ 0)
or_below zero a b h e = absurd (omega arith)
or_below (suc n) zero b h e = (refl, sym (bit_or-bitwise 0 b) ∙ e)
or_below (suc n) (suc a) b h e = omega (
  arith,
  bit_or_halves (suc a) b,
  or_below n (suc a / 2) (b / 2) (omega arith) (omega (arith, bit_or_halves (suc a) b)),
)

pub bit_or-eq-zero : (a b : ℕ) → bit_or a b ≡ 0 → (a ≡ 0) × (b ≡ 0)
bit_or-eq-zero a b e = or_below (suc a) a b (omega arith) e

digits_differ : (x y : ℕ) → x < 2 → y < 2 → differ x y ≡ 0 → x ≡ y
digits_differ zero y h k e = ground arith
digits_differ (suc zero) zero h k e = ground arith
digits_differ (suc zero) (suc zero) h k e = refl
digits_differ (suc zero) (suc (suc y)) h k e = absurd (omega arith)
digits_differ (suc (suc x)) y h k e = absurd (omega arith)

xor_below : (n a b : ℕ) → a < n → bit_xor a b ≡ 0 → a ≡ b
xor_below zero a b h e = absurd (omega arith)
xor_below (suc n) zero b h e = sym e ∙ bit_xor-bitwise 0 b
xor_below (suc n) (suc a) b h e = omega (
  arith,
  bit_xor_halves (suc a) b,
  digits_differ (suc a % 2) (b % 2) (omega arith) (omega arith)
      (omega (arith, bit_xor_halves (suc a) b)),
  xor_below n (suc a / 2) (b / 2) (omega arith) (omega (arith, bit_xor_halves (suc a) b)),
)

pub bit_xor-eq-zero : (a b : ℕ) → bit_xor a b ≡ 0 → a ≡ b
bit_xor-eq-zero a b e = xor_below (suc a) a b (omega arith) e

differ_self : (x : ℕ) → differ x x ≡ 0
differ_self zero = refl
differ_self (suc x) = differ_self x

self_below : (n a : ℕ) → a < n → bit_xor a a ≡ 0
self_below zero a h = absurd (omega arith)
self_below (suc n) zero h = refl
self_below (suc n) (suc a) h = omega (
  arith,
  bit_xor_halves (suc a) (suc a),
  differ_self (suc a % 2),
  self_below n (suc a / 2) (omega arith),
)

pub bit_xor_self : (a : ℕ) → bit_xor a a ≡ 0
bit_xor_self a = self_below (suc a) a (omega arith)
