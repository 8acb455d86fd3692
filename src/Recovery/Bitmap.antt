-- ===== src/Recovery/Bitmap.antt =====
-- modules/common/recovery.rs: the bitmap of the codes spent.
use kagi.Base.{
  ℕ, zero, suc, ◌+◌, ◌/◌, ◌^◌, ◌≤◌, ◌<◌, ◌≡◌, refl, ap, ◌∙◌, false, ltb, ◌||◌, ◌&&◌, arith, ◌==◌,
}
use native.Mathlib.Decide.{ℕ_discrete}
use mathlib.Core.Path.{subst}
use kagi.Base.Bits.Masks.{bit_and-ones}
use kagi.Base.Bits.Digit.{bit, bit-lt, shift-bit, bit-bit_or, bit-pow_self, bit-pow_ne}
use kagi.Recovery.{RecoveryState, is_spent, count_unspent, remaining, spend, code_count}

is_spent_lem :
    (state : RecoveryState) (i : ℕ)
    → is_spent state i ≡ (ltb i code_count && bit state.spent i == 1)
unfolding is_spent
is_spent_lem state i =
    ap (λ (t : ℕ). ltb i code_count && t == 1)
      (bit_and-ones 1 (state.spent / 2 ^ i) ∙ shift-bit state.spent i)

-- Spending an index in range adds it, and nothing else; out of range it changes nothing.
pub is_spent-spend :
    (state : RecoveryState) (i j : ℕ)
    → is_spent (spend state i) j ≡ (is_spent state j || (ltb i code_count && i == j))
unfolding spend
is_spent-spend state i j = elim (ℕ_discrete i j) [
  | yes same ↦
      rw (same, is_spent_lem, is_spent_lem)
        (ground (arith, bit-bit_or state.spent (2 ^ j) j, bit-pow_self j, bit-lt state.spent j))
  | no other ↦
      rw (is_spent_lem, is_spent_lem)
        (ground
          (arith, bit-bit_or state.spent (2 ^ i) j, bit-pow_ne i j other, bit-lt state.spent j))
]

counted_above :
    (state : RecoveryState) (i n : ℕ)
    → n ≤ i
    → count_unspent (spend state i) n ≡ count_unspent state n
unfolding count_unspent
counted_above state i zero h = refl
counted_above state i (suc n) h =
    ground (arith, is_spent-spend state i n, counted_above state i n (omega arith))

counted :
    (state : RecoveryState) (i n : ℕ)
    → i < n
    → i < 10
    → is_spent state i ≡ false
    → count_unspent state n ≡ count_unspent (spend state i) n + 1
unfolding count_unspent
counted state i zero h small fresh = absurd (omega arith)
counted state i (suc n) h small fresh = elim (ℕ_discrete i n) [
  | yes same ↦
      let e : is_spent state n ≡ false = subst (λ k. is_spent state k ≡ false) same fresh in
      ground (arith, is_spent-spend state i n, counted_above state i n (omega arith))
  | no other ↦ ground (arith, is_spent-spend state i n, counted state i n (omega arith) small fresh)
]

-- Spending one of the ten codes that is not spent lowers the number of those that remain by one.
pub remaining-spend :
    (state : RecoveryState) (i : ℕ)
    → i < 10
    → is_spent state i ≡ false
    → remaining state ≡ remaining (spend state i) + 1
unfolding remaining
remaining-spend state i small fresh = counted state i 10 small small fresh
