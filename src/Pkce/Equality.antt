-- ===== src/Pkce/Equality.antt =====
-- modules/common/pkce.rs: the comparison without an early exit, and equality.
use kagi.Base.{ℕ, ◌≡◌, refl, ◌↔◌, true, List, [], ◌∷◌, arith, bit_or, bit_xor, length}
use kagi.Base.Bits.Equal.{bit_or-eq-zero, bit_xor-eq-zero, bit_xor_self}
use kagi.Base.Bits.Masks.{bit_or-zero}
use kagi.Pkce.{differences, ct_eq}

none_of_equal : (diff : ℕ) (a : List ℕ) → differences diff a a ≡ diff
unfolding differences
none_of_equal diff [] = refl
none_of_equal diff (x ∷ a) = rw (bit_xor_self x, bit_or-zero diff) (none_of_equal diff a)

equal_of_none :
    (diff : ℕ) (a b : List ℕ)
    → length a ≡ length b
    → differences diff a b ≡ 0
    → (diff ≡ 0) × (a ≡ b)
unfolding differences
equal_of_none diff [] [] h e = (e, refl)
equal_of_none diff [] (y ∷ b) h e = absurd (omega arith)
equal_of_none diff (x ∷ a) [] h e = absurd (omega arith)
equal_of_none diff (x ∷ a) (y ∷ b) h e =
    let (none_yet, same) = equal_of_none (bit_or diff (bit_xor x y)) a b (omega arith) e in
    let (before, here) = bit_or-eq-zero diff (bit_xor x y) none_yet in
    (before, λ i. bit_xor-eq-zero x y here i ∷ same i)

pub ct_eq_iff : (a b : List ℕ) → (ct_eq a b ≡ true) ↔ (a ≡ b)
unfolding ct_eq
ct_eq_iff a b = (
  λ e. (equal_of_none 0 a b (ground arith) (ground arith)).1,
  λ e. rw e (ground (arith, none_of_equal 0 b)),
)
