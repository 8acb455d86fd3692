-- ===== src/B64/Encoded.antt =====
-- What modules/common/b64.rs's `encode` writes: the digits of the octets, regrouped by six.
use kagi.Base.{
  ℕ, ◌+◌, ◌*◌, ◌/◌, ◌%◌, ◌^◌, ◌<◌, ◌≡◌, refl, sym, ap, ◌∙◌, List, [], ◌∷◌, ◌++◌, map, arith, length,
  replicate, All, bit_or,
}
use kagi.Base.Bits.Masks.{bit_or-field}
use kagi.Base.Bits.Strings.{bits_of, bits_of_all, bits_of-split, bits_of-mod, bits_of-join}
use kagi.Base.Bytes.{AreBytes}
use kagi.B64.{symbol, chunk2, chunk3, encode_chunks}
use kagi.B64.Alphabet.{symbol-mod}

abbrev pub AreSextets : List ℕ → Type 0
AreSextets = All (λ v. v < 2 ^ 6)

abbrev pub Writes : List ℕ → Type 0
Writes input =
    (vs : List ℕ) × (padding : ℕ) × (encode_chunks input ≡ map symbol vs)
    × AreSextets vs
    × (padding < 6)
    × (bits_of_all 6 vs ≡ bits_of_all 8 input ++ replicate padding 0)
    × (length vs * 6 ≡ length input * 8 + padding)

-- The lowest 6, 12, 18 and 24 digits, in sextets.
sextet : (n : ℕ) → bits_of 6 (n % 64) ≡ bits_of 6 n
sextet n = bits_of-mod 6 6 n (omega arith)

two : (n : ℕ) → bits_of 6 (n / 2 ^ 6 % 64) ++ bits_of 6 (n % 64) ≡ bits_of 12 n
two n = (λ i. sextet (n / 2 ^ 6) i ++ sextet n i) ∙ sym (bits_of-split 6 6 n)

three :
    (n : ℕ)
    → bits_of 6 (n / 2 ^ 12 % 64) ++ (bits_of 6 (n / 2 ^ 6 % 64) ++ bits_of 6 (n % 64))
      ≡ bits_of 18 n
three n = (λ i. sextet (n / 2 ^ 12) i ++ two n i) ∙ sym (bits_of-split 6 12 n)

four :
    (n : ℕ)
    → bits_of 6 (n / 2 ^ 18 % 64)
        ++ (bits_of 6 (n / 2 ^ 12 % 64) ++ (bits_of 6 (n / 2 ^ 6 % 64) ++ bits_of 6 (n % 64)))
      ≡ bits_of 24 n
four n = (λ i. sextet (n / 2 ^ 18) i ++ three n i) ∙ sym (bits_of-split 6 18 n)

octets3 :
    (a b c : ℕ)
    → b < 256
    → c < 256
    → bits_of 24 (chunk3 a b c) ≡ bits_of 8 a ++ (bits_of 8 b ++ bits_of 8 c)
octets3 a b c hb hc =
    ap (bits_of 24) sum
    ∙ bits_of-join 8 16 a (b * 2 ^ 8 + c) (omega arith)
    ∙ ap (λ t. bits_of 8 a ++ t) (bits_of-join 8 8 b c hc)
  where
    grouped : a * 2 ^ 16 + b * 2 ^ 8 ≡ (a * 2 ^ 8 + b) * 2 ^ 8
    grouped = omega arith

    sum : chunk3 a b c ≡ a * 2 ^ 16 + (b * 2 ^ 8 + c)
    sum =
        ap (λ (t : ℕ). bit_or t c) (bit_or-field 16 a (b * 2 ^ 8) (omega arith) ∙ grouped)
        ∙ bit_or-field 8 (a * 2 ^ 8 + b) c hc
        ∙ omega arith

same_symbol : (n m : ℕ) → n % 64 ≡ m → symbol n ≡ symbol m
same_symbol n m e = symbol-mod n ∙ ap symbol e

one_octet : (a : ℕ) → a < 256 → Writes (a ∷ [])
unfolding encode_chunks
one_octet a ha =
    let m = a * 2 ^ 4 in
    (
      (m / 2 ^ 6 % 64) ∷ (m % 64) ∷ [],
      4,
      (λ i.
          same_symbol (a * 2 ^ 16 / 2 ^ 18) (m / 2 ^ 6 % 64) (omega arith) i
          ∷ same_symbol (a * 2 ^ 16 / 2 ^ 12) (m % 64) (omega arith) i
          ∷ []),
      (omega arith, (omega arith, tt)),
      omega arith,
      two m ∙ ap (bits_of 12) (omega arith) ∙ bits_of-join 8 4 a 0 (omega arith),
      omega arith,
    )

two_octets : (a b : ℕ) → a < 256 → b < 256 → Writes (a ∷ b ∷ [])
unfolding encode_chunks
two_octets a b ha hb =
    let m = (a * 2 ^ 8 + b) * 2 ^ 2 in
    (
      (m / 2 ^ 12 % 64) ∷ (m / 2 ^ 6 % 64) ∷ (m % 64) ∷ [],
      2,
      (λ i.
          same_symbol (chunk2 a b / 2 ^ 18) (m / 2 ^ 12 % 64) (omega (arith, sum)) i
          ∷ same_symbol (chunk2 a b / 2 ^ 12) (m / 2 ^ 6 % 64) (omega (arith, sum)) i
          ∷ same_symbol (chunk2 a b / 2 ^ 6) (m % 64) (omega (arith, sum)) i
          ∷ []),
      (omega arith, (omega arith, (omega arith, tt))),
      omega arith,
      three m
          ∙ ap (bits_of 18) (omega arith)
          ∙ bits_of-join 8 10 a (b * 2 ^ 2) (omega arith)
          ∙ ap (λ t. bits_of 8 a ++ t)
              (ap (bits_of 10) (omega arith) ∙ bits_of-join 8 2 b 0 (omega arith)),
      omega arith,
    )
  where
    sum : chunk2 a b ≡ a * 2 ^ 16 + b * 2 ^ 8
    sum = bit_or-field 16 a (b * 2 ^ 8) (omega arith)

pub encode_chunks_lem : (input : List ℕ) → AreBytes input → Writes input
unfolding encode_chunks
encode_chunks_lem [] h = ([], 0, refl, tt, omega arith, refl, omega arith)
encode_chunks_lem (a ∷ []) h = one_octet a h.0
encode_chunks_lem (a ∷ b ∷ []) h = two_octets a b h.0 h.1.0
encode_chunks_lem (a ∷ b ∷ c ∷ rest) (ha, (hb, (hc, h))) =
    let (vs, padding, symbols, small, short, digits, count) = encode_chunks_lem rest h in
    let n = chunk3 a b c in
    (
      (n / 2 ^ 18 % 64) ∷ (n / 2 ^ 12 % 64) ∷ (n / 2 ^ 6 % 64) ∷ (n % 64) ∷ vs,
      padding,
      (λ i.
          symbol-mod (n / 2 ^ 18) i
          ∷ symbol-mod (n / 2 ^ 12) i
          ∷ symbol-mod (n / 2 ^ 6) i
          ∷ symbol-mod n i
          ∷ symbols i),
      (omega arith, (omega arith, (omega arith, (omega arith, small)))),
      short,
      ap (λ t. t ++ bits_of_all 6 vs) (four n ∙ octets3 a b c hb hc)
          ∙ ap (λ t. bits_of 8 a ++ (bits_of 8 b ++ (bits_of 8 c ++ t))) digits,
      omega arith,
    )
