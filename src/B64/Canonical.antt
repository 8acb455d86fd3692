-- ===== src/B64/Canonical.antt =====
-- modules/common/b64.rs: which texts `decode` accepts.
use kagi.Base.{
  ℕ, zero, suc, ◌+◌, ◌-◌, ◌*◌, ◌/◌, ◌%◌, ◌≢◌, ◌<◌, ◌≤◌, ◌≡◌, refl, sym, ap, ◌∙◌, Bool, true, some,
  none, List, [], ◌∷◌, ◌++◌, map, arith, ltb, leb, ◌==◌, ◌&&◌, length, length-map, length-append,
  length-replicate, replicate, inl, inr, Bool-cases,
}
use mathlib.Core.List.{append-nil}
use kagi.Base.Maybe.{>>=-eq-some, require}
use kagi.Base.Bytes.{AreBytes}
use kagi.Base.Text.{all_below, all_below_lem}
use kagi.Base.Bits.Strings.{
  bits_of, bits_of_all, bits_of_all_unique, length-bits_of_all, zeros_of_mask_zero,
}
use kagi.B64.{
  symbol_at, symbol, decode_char, push_char, trailing, encode_chunks, decode_loop, decode,
  decoded_len,
}
use kagi.B64.Encoded.{AreSextets, encode_chunks_lem}
use kagi.B64.RoundTrip.{decode_run}

abbrev spelled : ℕ → Bool
spelled c = elim (decode_char c) [ some v ↦ ltb v 64 && symbol v == c | none ↦ true ]

table : all_below 256 spelled ≡ true
unfolding all_below symbol symbol_at decode_char
table = refl

symbol-decode_char : (c v : ℕ) → c < 256 → decode_char c ≡ some v → (v < 64) × (symbol v ≡ c)
symbol-decode_char c v h e = ground (arith, all_below_lem 256 spelled c table h)

add :
    {c : ℕ} {input : List ℕ} (v : ℕ)
    → v < 64
    → symbol v ≡ c
    → (vs : List ℕ) × (input ≡ map symbol vs) × AreSextets vs
    → (vs : List ℕ) × (c ∷ input ≡ map symbol vs) × AreSextets vs
add v small spelt (vs, same, all_small) = (v ∷ vs, λ i. sym spelt i ∷ same i, (small, all_small))

-- Every character of an accepted text is a symbol.
symbols_of :
    (input : List ℕ) (acc bits : ℕ) (out : List ℕ)
    → AreBytes input
    → decode_loop input acc bits ≡ some out
    → (vs : List ℕ) × (input ≡ map symbol vs) × AreSextets vs
unfolding decode_loop
symbols_of [] acc bits out h e = ([], refl, tt)
symbols_of (c ∷ input) acc bits out (hc, h) e =
    let (v, decoded, rest) = >>=-eq-some (decode_char c) _ e in
    let (small, spelt) = symbol-decode_char c v hc decoded in
    let acc' = push_char acc v in
    elim (Bool-cases (leb 8 (bits + 6))) [
      | inl more ↦
          let (out', later, joined) =
            >>=-eq-some (decode_loop input acc' (bits + 6 - 8)) _ (rw more at rest) in
          add v small spelt (symbols_of input acc' (bits + 6 - 8) out' h later)
      | inr less ↦ add v small spelt (symbols_of input acc' (bits + 6) out h (rw less at rest))
    ]

all_zeros :
    (last left : ℕ) (out : List ℕ)
    → trailing last left ≡ some out
    → (out ≡ []) × (bits_of left last ≡ replicate left 0)
unfolding trailing
all_zeros last zero out e = (ground arith, refl)
all_zeros last (suc left) out e = (ground arith, zeros_of_mask_zero last (suc left) (ground arith))

-- A length that is not one more than a multiple of four, and the octets it stands for.
sized_lem : (n need : ℕ) → decoded_len n ≡ some need → (n % 4 ≢ 1) × (need ≡ n * 6 / 8)
unfolding decoded_len
sized_lem n need e = ground arith

-- Two strings of sextets over the same octets and zeros are one.
same_spelling :
    (vs ws ds : List ℕ) (left padding : ℕ)
    → AreSextets vs
    → AreSextets ws
    → length vs % 4 ≢ 1
    → left < 8
    → padding < 6
    → bits_of_all 6 vs ≡ bits_of_all 8 ds ++ replicate left 0
    → bits_of_all 6 ws ≡ bits_of_all 8 ds ++ replicate padding 0
    → (vs ≡ ws) × (length vs * 6 ≡ length ds * 8 + left)
same_spelling vs ws ds left padding hv hw odd few short e e' = (
  (bits_of_all_unique 6 vs ws [] [] hv hw (omega arith) (omega arith)
      (append-nil (bits_of_all 6 vs) ∙ same ∙ sym (append-nil (bits_of_all 6 ws)))).0,
  digits_vs,
)
  where
    count :
        (us : List ℕ) (zeros : ℕ)
        → bits_of_all 6 us ≡ bits_of_all 8 ds ++ replicate zeros 0
        → length us * 6 ≡ length ds * 8 + zeros
    count us zeros h = omega (
      arith,
      ap length h,
      length-bits_of_all 6 us,
      length-bits_of_all 8 ds,
      length-append (bits_of_all 8 ds) (replicate zeros 0),
      length-replicate {A = ℕ} zeros 0,
    )

    digits_vs : length vs * 6 ≡ length ds * 8 + left
    digits_vs = count vs left e

    level : left ≡ padding
    level = omega (arith, digits_vs, count ws padding e')

    same : bits_of_all 6 vs ≡ bits_of_all 6 ws
    same = e ∙ ap (λ n. bits_of_all 8 ds ++ replicate n 0) level ∙ sym e'

-- A text of octets that `decode` accepts is the encoding of what it answers, which are octets.
pub encode-decode_b64 :
    (input : List ℕ) (out_len : ℕ) {out : List ℕ}
    → AreBytes input
    → decode input out_len ≡ some out
    → AreBytes out × (encode_chunks out ≡ input) × (length out ≤ out_len)
unfolding decode
encode-decode_b64 input out_len {out} h e =
    let (need, sized, after) = >>=-eq-some (decoded_len (length input)) _ e in
    let (_, room, loop) = >>=-eq-some (require (leb need out_len)) _ after in
    let (vs, spelt, small) = symbols_of input 0 0 out h loop in
    let (ds, last, left, run, bytes, few, digits) = decode_run vs 0 0 small (omega arith) in
    let (tail, ended, joined) =
      >>=-eq-some (trailing last left) _
        (sym run ∙ ap (λ t. decode_loop t 0 0) (sym spelt) ∙ loop) in
    let (none_more, zeros) = all_zeros last left tail ended in
    let (ws, padding, symbols, small', short, digits', count) = encode_chunks_lem ds bytes in
    let same : out ≡ ds = cc (append-nil ds) in
    let (one, counted) =
      same_spelling vs ws ds left padding small small' (odd need vs spelt sized) few short
        (digits ∙ ap (λ t. bits_of_all 8 ds ++ t) zeros) digits' in
    (
      rw same bytes,
      ap encode_chunks same ∙ symbols ∙ ap (map symbol) (sym one) ∙ sym spelt,
      ground (
        arith,
        ap length same,
        ap length spelt,
        length-map symbol vs,
        sized_lem (length input) need sized,
      ),
    )
  where
    odd :
        (need : ℕ) (vs : List ℕ)
        → input ≡ map symbol vs
        → decoded_len (length input) ≡ some need
        → length vs % 4 ≢ 1
    odd need vs spelt sized =
        rw (← length-map symbol vs, ← ap length spelt) (sized_lem (length input) need sized).0
