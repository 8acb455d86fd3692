-- ===== src/B64/RoundTrip.antt =====
-- modules/common/b64.rs: decoding what was encoded.
use kagi.Base.{
  ℕ, ◌+◌, ◌-◌, ◌/◌, ◌%◌, ◌^◌, ◌≤◌, ◌<◌, ◌≡◌, refl, sym, ap, ◌∙◌, inl, inr, Option, some, none, List,
  [], ◌∷◌, ◌++◌, map, arith, length, length-map, length-replicate, replicate, Bool-cases, leb,
}
use mathlib.Core.Path.{subst}
use mathlib.Core.List.{append_assoc, append-nil}
use kagi.Base.Maybe.{◌>>=◌}
use kagi.Base.Bytes.{AreBytes}
use kagi.Base.Bits.Strings.{
  bits_of, bits_of_all, bits_of-split, bits_of-mod, bits_of-push, bits_of_all_unique,
  length-bits_of, mask_zero_of_zeros,
}
use kagi.B64.{
  symbol, push_char, trailing, encode_chunks, decode_loop, encode, decode, encoded_len, decoded_len,
}
use kagi.B64.Alphabet.{decode_char-symbol}
use kagi.B64.Encoded.{AreSextets, encode_chunks_lem}

decode_kept :
    (v acc bits : ℕ) (text : List ℕ)
    → v < 64
    → bits < 2
    → decode_loop (symbol v ∷ text) acc bits ≡ decode_loop text (push_char acc v) (bits + 6)
unfolding decode_loop
decode_kept v acc bits text hv h = rw (decode_char-symbol v hv) (ground arith)

abbrev pub octet : ℕ → ℕ → ℕ
octet acc left = acc / 2 ^ left % 256

decode_emitted :
    (v acc left : ℕ) (text : List ℕ)
    → v < 64
    → decode_loop (symbol v ∷ text) acc (left + 2) ≡ (
        decode_loop text (push_char acc v) left >>= λ rest.
        some (octet (push_char acc v) left ∷ rest))
unfolding decode_loop
decode_emitted v acc left text hv = rw (decode_char-symbol v hv, eight left) (ground arith)
  where
    eight : (n : ℕ) → n + 2 + 6 - 8 ≡ n
    eight n = omega arith

-- What the decoder makes of symbols, from the `bits` digits that it already holds.
abbrev pub Reads : List ℕ → ℕ → ℕ → Type 0
Reads vs acc bits =
    (ds : List ℕ) × (last : ℕ) × (left : ℕ) × (decode_loop (map symbol vs) acc bits
      ≡ (trailing last left >>= λ rest. some (ds ++ rest)))
    × AreBytes ds
    × (left < 8)
    × (bits_of bits acc ++ bits_of_all 6 vs ≡ bits_of_all 8 ds ++ bits_of left last)

push_char_lem :
    (acc bits v : ℕ)
    → bits < 8
    → v < 2 ^ 6
    → bits_of (bits + 6) (push_char acc v) ≡ bits_of bits acc ++ bits_of 6 v
push_char_lem acc bits v hb h = bits_of-push 6 bits 26 acc _ v (omega arith) (omega arith) h

octet_lem : (b left : ℕ) → bits_of (left + 8) b ≡ bits_of 8 (octet b left) ++ bits_of left b
octet_lem b left =
    ap (λ (n : ℕ). bits_of n b) (omega arith)
    ∙ bits_of-split 8 left b
    ∙ ap (λ t. t ++ bits_of left b) (sym (bits_of-mod 8 8 (b / 2 ^ left) (omega arith)))

trailing_shape : (last left : ℕ) → trailing last left ≡ (trailing last left >>= λ rest. some rest)
unfolding trailing
trailing_shape last left = ground arith

prepend :
    (o : ℕ) (ds : List ℕ) (r : Option (List ℕ))
    → ((r >>= λ rest. some (ds ++ rest)) >>= λ rest. some (o ∷ rest))
      ≡ (r >>= λ rest. some (o ∷ ds ++ rest))
prepend o ds none = refl
prepend o ds (some rest) = refl

emitted-Reads :
    (v acc left : ℕ) (vs : List ℕ)
    → v < 2 ^ 6
    → left < 6
    → Reads vs (push_char acc v) left
    → Reads (v ∷ vs) acc (left + 2)
emitted-Reads v acc left vs hv hl (ds, last, left', run, bytes, small, digits) =
    let b = push_char acc v in
    (
      octet b left ∷ ds,
      last,
      left',
      decode_emitted v acc left _ hv
          ∙ ap (λ r. r >>= λ rest. some (octet b left ∷ rest)) run
          ∙ prepend (octet b left) ds (trailing last left'),
      (omega arith, bytes),
      small,
      sym (append_assoc (bits_of (left + 2) acc) (bits_of 6 v) (bits_of_all 6 vs))
          ∙ ap (λ t. t ++ bits_of_all 6 vs)
              (sym (push_char_lem acc (left + 2) v (omega arith) hv)
                ∙ ap (λ (n : ℕ). bits_of n b) (omega arith)
                ∙ octet_lem b left)
          ∙ append_assoc (bits_of 8 (octet b left)) (bits_of left b) (bits_of_all 6 vs)
          ∙ ap (λ t. bits_of 8 (octet b left) ++ t) digits
          ∙ sym (append_assoc (bits_of 8 (octet b left)) (bits_of_all 8 ds) (bits_of left' last)),
    )

pub decode_run : (vs : List ℕ) (acc bits : ℕ) → AreSextets vs → bits < 8 → Reads vs acc bits
decode_run [] acc bits hv hb = (
  [],
  acc,
  bits,
  unfold decode_loop in trailing_shape acc bits,
  tt,
  hb,
  append-nil (bits_of bits acc),
)
decode_run (v ∷ vs) acc bits (hv, hvs) hb = elim (Bool-cases (leb 2 bits)) [
  | inl more ↦
      subst (λ n. Reads (v ∷ vs) acc n) (ground arith)
        (emitted-Reads v acc (bits - 2) vs hv (omega arith)
          (decode_run vs (push_char acc v) (bits - 2) hvs (omega arith)))
  | inr less ↦
      let (ds, last, left, run, bytes, small, digits) =
        decode_run vs (push_char acc v) (bits + 6) hvs (ground arith) in
      (
        ds,
        last,
        left,
        decode_kept v acc bits _ hv (ground arith) ∙ run,
        bytes,
        small,
        sym (append_assoc (bits_of bits acc) (bits_of 6 v) (bits_of_all 6 vs))
            ∙ ap (λ t. t ++ bits_of_all 6 vs) (sym (push_char_lem acc bits v hb hv))
            ∙ digits,
      )
]

zeros_left :
    (last left padding : ℕ)
    → left < 8
    → bits_of left last ≡ replicate padding 0
    → trailing last left ≡ some []
unfolding trailing
zeros_left last left padding h e = ground (arith, mask_zero_of_zeros last left padding e)

pub decode_loop-encode_chunks :
    (input : List ℕ) → AreBytes input → decode_loop (encode_chunks input) 0 0 ≡ some input
decode_loop-encode_chunks input h =
    let (vs, padding, symbols, small, short, digits, count) = encode_chunks_lem input h in
    let (ds, last, left, run, bytes, few, digits') = decode_run vs 0 0 small (omega arith) in
    let (same, tail) =
      bits_of_all_unique 8 ds input (bits_of left last) (replicate padding 0) bytes h
        (omega (arith, length-bits_of left last))
        (omega (arith, length-replicate {A = ℕ} padding 0)) (sym digits' ∙ digits) in
    ap (λ t. decode_loop t 0 0) symbols
    ∙ run
    ∙ ap (λ r. r >>= λ rest. some (ds ++ rest)) (zeros_left last left padding few tail)
    ∙ ap some (append-nil ds ∙ same)

pub length-encode_chunks :
    (input : List ℕ) → AreBytes input → length (encode_chunks input) ≡ encoded_len (length input)
unfolding encoded_len
length-encode_chunks input h =
    let (vs, padding, symbols, small, short, digits, count) = encode_chunks_lem input h in
    omega (arith, ap length symbols, length-map symbol vs)

decoded_len-encoded_len : (n : ℕ) → decoded_len (encoded_len n) ≡ some n
unfolding decoded_len encoded_len
decoded_len-encoded_len n = ground arith

-- Into buffers that are long enough, encoding succeeds with `encoded_len` characters, and decoding
-- those gives the octets back.
pub b64_round_trip :
    (input : List ℕ) (text_len out_len : ℕ)
    → AreBytes input
    → encoded_len (length input) ≤ text_len
    → length input ≤ out_len
    → (text : List ℕ) × (encode input text_len ≡ some text)
      × (length text ≡ encoded_len (length input))
      × (decode text out_len ≡ some input)
unfolding encode decode
b64_round_trip input text_len out_len h room room' = (
  encode_chunks input,
  ground arith,
  length-encode_chunks input h,
  rw (length-encode_chunks input h, decoded_len-encoded_len (length input))
      (ground (arith, decode_loop-encode_chunks input h)),
)
