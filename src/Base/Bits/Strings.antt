-- ===== src/Base/Bits/Strings.antt =====
-- A word's lowest digits as a string, most significant first: how an encoder regroups octets.
use Prim.Native.Nat.{ℕ, zero, suc, ◌+◌, ◌-◌, ◌*◌, ◌/◌, ◌%◌, ◌^◌, ◌≤◌, ◌<◌, bit_and, bit_or}
use Prim.Native.Nat.add
use mathlib.Core.Path.{◌≡◌, refl, sym, ap, ◌∙◌}
use mathlib.Core.List.{List, [], ◌∷◌, ◌++◌, append_assoc}
use native.Mathlib.Nat.{
  pow-succ', div-div-eq-div-mul, zero-add, div-one, add_comm, mul-add-div_right, div-eq_of_lt,
  mul-add-mod_self_right, mod-eq_of_lt, one-le-pow,
}
use native.Mathlib.Decide.{ℕ_discrete}
use native.Mathlib.Omega.{arith}
use kagi.Base.Lists.{
  length, length-append, length-replicate, take, drop, replicate, take-append_length,
  drop-append_length, All,
}
use kagi.Base.Bits.Masks.{remainder_halves, bit_or-field, bit_and-ones, ones_lem}
use kagi.Base.Bits.Digit.{bit, bit-zero}

-- The lowest `w` digits of `v`.
abbrev pub bits_of : ℕ → ℕ → List ℕ
bits_of zero v = []
bits_of (suc w) v = bit v w ∷ bits_of w v

-- The digits of several words of `w` digits each.
abbrev pub bits_of_all : ℕ → List ℕ → List ℕ
bits_of_all w [] = []
bits_of_all w (v ∷ vs) = bits_of w v ++ bits_of_all w vs

pub length-bits_of : (w v : ℕ) → length (bits_of w v) ≡ w
length-bits_of zero v = refl
length-bits_of (suc w) v = ap suc (length-bits_of w v)

pub length-bits_of_all : (w : ℕ) (vs : List ℕ) → length (bits_of_all w vs) ≡ length vs * w
length-bits_of_all w [] = omega arith
length-bits_of_all w (v ∷ vs) = omega (
  arith,
  length-append (bits_of w v) (bits_of_all w vs),
  length-bits_of w v,
  length-bits_of_all w vs,
)

pub bits_of_all-append :
    (w : ℕ) (xs ys : List ℕ) → bits_of_all w (xs ++ ys) ≡ bits_of_all w xs ++ bits_of_all w ys
bits_of_all-append w [] ys = refl
bits_of_all-append w (x ∷ xs) ys =
    ap (λ t. bits_of w x ++ t) (bits_of_all-append w xs ys)
    ∙ sym (append_assoc (bits_of w x) (bits_of_all w xs) (bits_of_all w ys))

bit-shift : (n m v : ℕ) → bit v (n + m) ≡ bit (v / 2 ^ n) m
bit-shift zero m v = ap (bit v) (zero-add m) ∙ ap (λ (t : ℕ). bit t m) (sym (div-one v))
bit-shift (suc n) m v =
    ap (bit v) (add.suc n m)
    ∙ bit-shift n m (v / 2)
    ∙ ap (λ (t : ℕ). bit t m)
        (div-div-eq-div-mul v 2 (2 ^ n) ∙ ap (λ (t : ℕ). v / t) (sym (pow-succ' 2 n)))

-- The digits above the `n` lowest come first.
pub bits_of-split : (n m v : ℕ) → bits_of (n + m) v ≡ bits_of n (v / 2 ^ m) ++ bits_of m v
bits_of-split zero m v = ap (λ (t : ℕ). bits_of t v) (omega arith)
bits_of-split (suc n) m v =
    ap (λ (t : ℕ). bits_of t v) (add.suc n m) ∙ λ i. head i ∷ bits_of-split n m v i
  where
    head : bit v (n + m) ≡ bit (v / 2 ^ m) n
    head = ap (bit v) (add_comm n m) ∙ bit-shift m n v

bit-mod : (k i a : ℕ) → i < k → bit (a % 2 ^ k) i ≡ bit a i
bit-mod zero i a h = absurd (omega arith)
bit-mod (suc k) zero a h =
    omega (arith, pow-succ' 2 k, remainder_halves a (2 ^ k), ap (λ (t : ℕ). a % t) (pow-succ' 2 k))
bit-mod (suc k) (suc i) a h =
    ap (λ (t : ℕ). bit t i)
      (omega (arith, remainder_halves a (2 ^ k), ap (λ (t : ℕ). a % t) (pow-succ' 2 k)))
    ∙ bit-mod k i (a / 2) (omega arith)

pub bits_of-mod : (k n a : ℕ) → n ≤ k → bits_of n (a % 2 ^ k) ≡ bits_of n a
bits_of-mod k zero a h = refl
bits_of-mod k (suc n) a h = λ i. bit-mod k n a (omega arith) i ∷ bits_of-mod k n a (omega arith) i

eq_of_bits : (w a b : ℕ) → a < 2 ^ w → b < 2 ^ w → ((i : ℕ) → i < w → bit a i ≡ bit b i) → a ≡ b
eq_of_bits zero a b ha hb h = omega arith
eq_of_bits (suc w) a b ha hb h = omega (
  arith,
  h 0 (omega arith),
  eq_of_bits w (a / 2) (b / 2) (omega (arith, pow-succ' 2 w)) (omega (arith, pow-succ' 2 w))
      (λ i hi. h (suc i) (omega arith)),
)

same_bits : (w a b i : ℕ) → bits_of w a ≡ bits_of w b → i < w → bit a i ≡ bit b i
same_bits zero a b i e h = absurd (omega arith)
same_bits (suc w) a b i e h = elim (ℕ_discrete i w) [
  | yes top ↦ rw top (cc)
  | no below ↦ same_bits w a b i (cc) (omega arith)
]

pub bits_of-injective : (w a b : ℕ) → a < 2 ^ w → b < 2 ^ w → bits_of w a ≡ bits_of w b → a ≡ b
bits_of-injective w a b ha hb e = eq_of_bits w a b ha hb (λ i hi. same_bits w a b i e hi)

front_eq :
    (n : ℕ) (xs ys ps qs : List ℕ)
    → length xs ≡ n
    → length ys ≡ n
    → xs ++ ps ≡ ys ++ qs
    → (xs ≡ ys) × (ps ≡ qs)
front_eq n xs ys ps qs h k e = (
  sym (take-append_length n xs ps h) ∙ ap (take n) e ∙ take-append_length n ys qs k,
  sym (drop-append_length n xs ps h) ∙ ap (drop n) e ∙ drop-append_length n ys qs k,
)

too_long : (w y : ℕ) (ps zs : List ℕ) → length ps < w → ¬ (ps ≡ bits_of w y ++ zs)
too_long w y ps zs h e =
    omega (arith, ap length e, length-append (bits_of w y) zs, length-bits_of w y)

-- Words of `w` digits are determined by the string of their digits, and so is what follows them,
-- if it is shorter than a word.
pub bits_of_all_unique :
    (w : ℕ) (xs ys ps qs : List ℕ)
    → All (λ x. x < 2 ^ w) xs
    → All (λ y. y < 2 ^ w) ys
    → length ps < w
    → length qs < w
    → bits_of_all w xs ++ ps ≡ bits_of_all w ys ++ qs
    → (xs ≡ ys) × (ps ≡ qs)
bits_of_all_unique w [] [] ps qs hx hy hp hq e = (refl, e)
bits_of_all_unique w [] (y ∷ ys) ps qs hx hy hp hq e =
    absurd (too_long w y ps _ hp (e ∙ append_assoc (bits_of w y) (bits_of_all w ys) qs))
bits_of_all_unique w (x ∷ xs) [] ps qs hx hy hp hq e =
    absurd (too_long w x qs _ hq (sym e ∙ append_assoc (bits_of w x) (bits_of_all w xs) ps))
bits_of_all_unique w (x ∷ xs) (y ∷ ys) ps qs (hx, hxs) (hy, hys) hp hq e =
    let (heads, tails) =
      front_eq w (bits_of w x) (bits_of w y) (bits_of_all w xs ++ ps) (bits_of_all w ys ++ qs)
        (length-bits_of w x) (length-bits_of w y)
        (sym (append_assoc (bits_of w x) (bits_of_all w xs) ps)
          ∙ e
          ∙ append_assoc (bits_of w y) (bits_of_all w ys) qs) in
    let (rest, after) = bits_of_all_unique w xs ys ps qs hxs hys hp hq tails in
    (λ i. bits_of-injective w x y hx hy heads i ∷ rest i, after)

pub bits_of-join :
    (n k q v : ℕ) → v < 2 ^ k → bits_of (n + k) (q * 2 ^ k + v) ≡ bits_of n q ++ bits_of k v
bits_of-join n k q v h = bits_of-split n k (q * 2 ^ k + v) ∙ λ i.
    ap (bits_of n) high i
    ++ (sym (bits_of-mod k k (q * 2 ^ k + v) (omega arith)) ∙ ap (bits_of k) low) i
  where
    positive : 0 < 2 ^ k
    positive = omega arith

    high : (q * 2 ^ k + v) / 2 ^ k ≡ q
    high = mul-add-div_right positive q v ∙ omega (arith, div-eq_of_lt h)

    low : (q * 2 ^ k + v) % 2 ^ k ≡ v
    low = mul-add-mod_self_right q (2 ^ k) v ∙ mod-eq_of_lt h

-- `(acc << k) | v` appends the `k` digits of `v`, as long as `acc` keeps `j` digits in its word.
pub bits_of-push :
    (k n j acc shifted v : ℕ)
    → shifted ≡ acc % 2 ^ j * 2 ^ k
    → n ≤ j
    → v < 2 ^ k
    → bits_of (n + k) (bit_or shifted v) ≡ bits_of n acc ++ bits_of k v
bits_of-push k n j acc shifted v e h hv =
    ap (λ (t : ℕ). bits_of (n + k) t)
      (ap (λ (t : ℕ). bit_or t v) e ∙ bit_or-field k (acc % 2 ^ j) v hv)
    ∙ bits_of-join n k (acc % 2 ^ j) v hv
    ∙ ap (λ t. t ++ bits_of k v) (bits_of-mod j n acc h)

pub bits_of-zero : (w : ℕ) → bits_of w 0 ≡ replicate w 0
bits_of-zero zero = refl
bits_of-zero (suc w) = λ i. bit-zero w i ∷ bits_of-zero w i

-- The mask test of the digits left over, and their being zeros.
pub mask_zero_of_zeros :
    (last left padding : ℕ)
    → bits_of left last ≡ replicate padding 0
    → bit_and last (2 ^ left - 1) ≡ 0
mask_zero_of_zeros last left padding e =
    ap (bit_and last) (ones_lem left)
    ∙ bit_and-ones left last
    ∙ bits_of-injective left (last % 2 ^ left) 0 (omega (arith, one-le-pow left 2))
        (omega (arith, one-le-pow left 2))
        (bits_of-mod left left last (omega arith)
          ∙ e
          ∙ ap (λ (n : ℕ). replicate n 0) (sym count)
          ∙ sym (bits_of-zero left))
  where
    count : left ≡ padding
    count = sym (length-bits_of left last) ∙ ap length e ∙ length-replicate {A = ℕ} padding 0

pub zeros_of_mask_zero :
    (last left : ℕ) → bit_and last (2 ^ left - 1) ≡ 0 → bits_of left last ≡ replicate left 0
zeros_of_mask_zero last left e =
    sym (bits_of-mod left left last (omega arith))
    ∙ ap (bits_of left) (sym (bit_and-ones left last) ∙ ap (bit_and last) (sym (ones_lem left)) ∙ e)
    ∙ bits_of-zero left
