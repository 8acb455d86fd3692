-- ===== src/Totp/Base32/Encoded.antt =====
-- What modules/common/totp.rs's base32 encoder writes: the digits of the octets, regrouped by five.
use kagi.Base.{
  ℕ, zero, suc, ◌+◌, ◌*◌, ◌/◌, ◌%◌, ◌^◌, ◌≤◌, ◌<◌, ◌≡◌, refl, sym, ap, ◌∙◌, List, [], ◌∷◌, ◌++◌,
  map, arith, bit_and, length, length-append, replicate, All, All-append,
}
use mathlib.Core.List.{append_assoc, map-append}
use kagi.Base.Bits.Masks.{bit_and-ones, bit_or-zero}
use kagi.Base.Bits.Strings.{
  bits_of, bits_of_all, bits_of-split, bits_of-mod, bits_of-push, bits_of-zero, bits_of_all-append,
}
use kagi.Base.Bytes.{AreBytes}
use kagi.Totp.Base32.{base32_symbol, drain, encode_loop, push_byte}

abbrev pub AreValues : List ℕ → Type 0
AreValues = All (λ v. v < 2 ^ 5)

-- What one call of `drain` has done.
abbrev Drained : ℕ → ℕ → Type 0
Drained buffer bits =
    (vs : List ℕ) × ((drain buffer bits).0 ≡ map base32_symbol vs)
    × AreValues vs
    × ((drain buffer bits).1 < 5)
    × (bits_of bits buffer ≡ bits_of_all 5 vs ++ bits_of (drain buffer bits).1 buffer)
    × (length vs * 5 + (drain buffer bits).1 ≡ bits)

five_more : (bits : ℕ) → 5 + bits ≡ suc (suc (suc (suc (suc bits))))
five_more bits = omega arith

low_five : (x : ℕ) → bits_of 5 (bit_and x 0x1f) ≡ bits_of 5 x
low_five x = ap (bits_of 5) (bit_and-ones 5 x) ∙ bits_of-mod 5 5 x (omega arith)

drain_lem : (buffer bits : ℕ) → Drained buffer bits
unfolding drain
drain_lem buffer (suc (suc (suc (suc (suc bits))))) =
    let (vs, symbols, small, left, digits, count) = drain_lem buffer bits in
    let v = bit_and (buffer / 2 ^ bits) 0x1f in
    (
      v ∷ vs,
      ap (λ t. base32_symbol v ∷ t) symbols,
      (omega (arith, bit_and-ones 5 (buffer / 2 ^ bits)), small),
      left,
      ap (λ (n : ℕ). bits_of n buffer) (sym (five_more bits))
          ∙ bits_of-split 5 bits buffer
          ∙ ap (λ t. t ++ bits_of bits buffer) (sym (low_five (buffer / 2 ^ bits)))
          ∙ ap (λ t. bits_of 5 v ++ t) digits
          ∙ sym (
              append_assoc (bits_of 5 v) (bits_of_all 5 vs) (bits_of (drain buffer bits).1 buffer)),
      omega arith,
    )
drain_lem buffer zero = ([], refl, tt, omega arith, refl, omega arith)
drain_lem buffer (suc zero) = ([], refl, tt, omega arith, refl, omega arith)
drain_lem buffer (suc (suc zero)) = ([], refl, tt, omega arith, refl, omega arith)
drain_lem buffer (suc (suc (suc zero))) = ([], refl, tt, omega arith, refl, omega arith)
drain_lem buffer (suc (suc (suc (suc zero)))) = ([], refl, tt, omega arith, refl, omega arith)

-- The string of digits that the encoder writes, from the `bits` digits that it still holds: those,
-- the octets, and zeros up to a multiple of five.
abbrev Writes : List ℕ → ℕ → ℕ → Type 0
Writes data_ buffer bits =
    (vs : List ℕ) × (padding : ℕ) × (encode_loop data_ buffer bits ≡ map base32_symbol vs)
    × AreValues vs
    × (padding < 5)
    × (bits_of_all 5 vs ≡ (bits_of bits buffer ++ bits_of_all 8 data_) ++ replicate padding 0)
    × (length vs * 5 ≡ bits + length data_ * 8 + padding)

shifted_byte : (buffer : ℕ) → buffer * 2 ^ 8 % 2 ^ 16 ≡ buffer % 2 ^ 8 * 2 ^ 8
shifted_byte buffer = omega arith

push_byte_lem :
    (buffer bits byte : ℕ)
    → bits < 5
    → byte < 256
    → bits_of (bits + 8) (push_byte buffer byte) ≡ bits_of bits buffer ++ bits_of 8 byte
push_byte_lem buffer bits byte hb h =
    bits_of-push 8 bits 8 buffer _ byte (shifted_byte buffer) (omega arith) h

last_digits :
    (p bits j buffer shifted : ℕ)
    → shifted ≡ buffer % 2 ^ j * 2 ^ p
    → bits ≤ j
    → 0 < 2 ^ p
    → bits_of (bits + p) shifted ≡ bits_of bits buffer ++ replicate p 0
last_digits p bits j buffer shifted e h positive =
    ap (bits_of (bits + p)) (sym (bit_or-zero shifted))
    ∙ bits_of-push p bits j buffer shifted 0 e h positive
    ∙ ap (λ t. bits_of bits buffer ++ t) (bits_of-zero p)

-- The last symbol, of what the loop leaves in the buffer: `p` zeros fill it up.
last_symbol :
    (p j buffer bits : ℕ)
    → bits + p ≡ 5
    → bits ≤ j
    → 0 < 2 ^ p
    → buffer * 2 ^ p % 2 ^ 16 ≡ buffer % 2 ^ j * 2 ^ p
    → bits_of 5 (bit_and (buffer * 2 ^ p % 2 ^ 16) 0x1f) ≡ bits_of bits buffer ++ replicate p 0
last_symbol p j buffer bits five h positive e =
    low_five (buffer * 2 ^ p % 2 ^ 16)
    ∙ ap (λ (n : ℕ). bits_of n (buffer * 2 ^ p % 2 ^ 16)) (sym five)
    ∙ last_digits p bits j buffer _ e h positive

in_range : (x : ℕ) → bit_and x 0x1f < 2 ^ 5
in_range x = omega (arith, bit_and-ones 5 x)

last-Writes : (buffer bits : ℕ) → bits < 5 → Writes [] buffer bits
unfolding encode_loop
last-Writes buffer zero h = ([], 0, refl, tt, omega arith, refl, omega arith)
last-Writes buffer (suc zero) h = (
  _ ∷ [],
  4,
  refl,
  (in_range _, tt),
  omega arith,
  last_symbol 4 12 buffer 1 refl (omega arith) (omega arith) (omega arith),
  omega arith,
)
last-Writes buffer (suc (suc zero)) h = (
  _ ∷ [],
  3,
  refl,
  (in_range _, tt),
  omega arith,
  last_symbol 3 13 buffer 2 refl (omega arith) (omega arith) (omega arith),
  omega arith,
)
last-Writes buffer (suc (suc (suc zero))) h = (
  _ ∷ [],
  2,
  refl,
  (in_range _, tt),
  omega arith,
  last_symbol 2 14 buffer 3 refl (omega arith) (omega arith) (omega arith),
  omega arith,
)
last-Writes buffer (suc (suc (suc (suc zero)))) h = (
  _ ∷ [],
  1,
  refl,
  (in_range _, tt),
  omega arith,
  last_symbol 1 15 buffer 4 refl (omega arith) (omega arith) (omega arith),
  omega arith,
)
last-Writes buffer (suc (suc (suc (suc (suc bits))))) h = absurd (omega arith)

regroup : (a l d p b y : List ℕ) → b ++ y ≡ a ++ l → a ++ ((l ++ d) ++ p) ≡ (b ++ (y ++ d)) ++ p
regroup a l d p b y e =
    simp append_assoc (
      sym (append_assoc a l (d ++ p)) ∙ ap (λ t. t ++ (d ++ p)) (sym e) ∙ append_assoc b y (d ++ p))

pub encode_loop_lem :
    (data_ : List ℕ) (buffer bits : ℕ) → AreBytes data_ → bits < 5 → Writes data_ buffer bits
unfolding encode_loop
encode_loop_lem [] buffer bits hd hb = last-Writes buffer bits hb
encode_loop_lem (byte ∷ data_) buffer bits (hbyte, hd) hb =
    let buffer' = push_byte buffer byte in
    let (vs, symbols, small, left, digits, count) = drain_lem buffer' (bits + 8) in
    let (ws, padding, symbols', small', short, digits', count') =
      encode_loop_lem data_ buffer' (drain buffer' (bits + 8)).1 hd left in
    (
      vs ++ ws,
      padding,
      (λ i. symbols i ++ symbols' i) ∙ sym (map-append base32_symbol vs ws),
      All-append _ vs ws small small',
      short,
      bits_of_all-append 5 vs ws
          ∙ ap (λ t. bits_of_all 5 vs ++ t) digits'
          ∙ regroup (bits_of_all 5 vs) _ (bits_of_all 8 data_) (replicate padding 0)
              (bits_of bits buffer) (bits_of 8 byte)
              (sym (push_byte_lem buffer bits byte hb hbyte) ∙ digits),
      omega (arith, length-append vs ws),
    )
