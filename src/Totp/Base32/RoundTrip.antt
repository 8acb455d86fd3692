-- ===== src/Totp/Base32/RoundTrip.antt =====
-- Decoding what the encoder of modules/common/totp.rs wrote.
use kagi.Base.{
  ℕ, ◌+◌, ◌-◌, ◌*◌, ◌/◌, ◌^◌, ◌≤◌, ◌<◌, ◌≡◌, refl, sym, ap, ◌∙◌, inl, inr, List, [], ◌∷◌, ◌++◌, map,
  arith, bit_and, length, length-replicate, length-map, replicate, Bool-cases, leb,
}
use mathlib.Core.Path.{subst}
use mathlib.Core.List.{append_assoc, append-nil}
use kagi.Base.Outcome.{Result, ok, err, ◌>>=◌}
use kagi.Base.Bytes.{AreBytes}
use kagi.Base.Bits.Masks.{bit_and-ones}
use kagi.Base.Bits.Strings.{
  bits_of, bits_of_all, bits_of-split, bits_of-mod, bits_of-push, bits_of_all_unique,
  length-bits_of, length-bits_of_all, mask_zero_of_zeros,
}
use kagi.Totp.Errors.{TotpError}
use kagi.Totp.Base32.{
  base32_symbol, base32_encoded_len, encode_loop, base32_encode, leftover, decode_loop,
  base32_decode, push_value,
}
use kagi.Totp.Base32.Value.{value-symbol, symbol_is_data}
use kagi.Totp.Base32.Encoded.{AreValues, encode_loop_lem}

-- One symbol that completes no octet, and one that does.
decode_kept :
    (out_len written v buffer bits : ℕ) (text : List ℕ)
    → v < 32
    → bits < 3
    → decode_loop out_len written (base32_symbol v ∷ text) buffer bits
      ≡ decode_loop out_len written text (push_value buffer v) (bits + 5)
unfolding decode_loop
decode_kept out_len written v buffer bits text hv h =
    rw (symbol_is_data v hv, value-symbol v hv) (ground arith)

abbrev octet : ℕ → ℕ → ℕ
octet buffer' left = bit_and (buffer' / 2 ^ left) 0xff

decode_emitted :
    (out_len written v buffer left : ℕ) (text : List ℕ)
    → v < 32
    → written < out_len
    → decode_loop out_len written (base32_symbol v ∷ text) buffer (left + 3) ≡ (
        decode_loop out_len (written + 1) text (push_value buffer v) left >>= λ rest.
        ok (octet (push_value buffer v) left ∷ rest))
unfolding decode_loop
decode_emitted out_len written v buffer left text hv h =
    rw (symbol_is_data v hv, value-symbol v hv, eight left) (ground arith)
  where
    eight : (n : ℕ) → n + 3 + 5 - 8 ≡ n
    eight n = omega arith

-- What the decoder makes of symbols, from the `bits` digits that it already holds.
abbrev Reads : ℕ → ℕ → List ℕ → ℕ → ℕ → Type 0
Reads out_len written vs buffer bits =
    (ds : List ℕ) × (last : ℕ) × (left : ℕ) × (decode_loop out_len written (map base32_symbol vs)
        buffer bits
      ≡ (leftover last left >>= λ rest. ok (ds ++ rest)))
    × AreBytes ds
    × (left < 8)
    × (bits_of bits buffer ++ bits_of_all 5 vs ≡ bits_of_all 8 ds ++ bits_of left last)

push_value_lem :
    (buffer bits v : ℕ)
    → bits < 8
    → v < 2 ^ 5
    → bits_of (bits + 5) (push_value buffer v) ≡ bits_of bits buffer ++ bits_of 5 v
push_value_lem buffer bits v hb h = bits_of-push 5 bits 11 buffer _ v (omega arith) (omega arith) h

octet_lem : (b left : ℕ) → bits_of (left + 8) b ≡ bits_of 8 (octet b left) ++ bits_of left b
octet_lem b left =
    ap (λ (n : ℕ). bits_of n b) (omega arith)
    ∙ bits_of-split 8 left b
    ∙ ap (λ t. t ++ bits_of left b)
        (sym (
          ap (bits_of 8) (bit_and-ones 8 (b / 2 ^ left))
          ∙ bits_of-mod 8 8 (b / 2 ^ left) (omega arith)))

leftover_shape : (last left : ℕ) → (leftover last left) ≡ (leftover last left >>= λ rest. ok rest)
unfolding leftover
leftover_shape last left = ground arith

prepend :
    (o : ℕ) (ds : List ℕ) (r : Result TotpError (List ℕ))
    → ((r >>= λ rest. ok (ds ++ rest)) >>= λ rest. ok (o ∷ rest))
      ≡ (r >>= λ rest. ok (o ∷ ds ++ rest))
prepend o ds (ok rest) = refl
prepend o ds (err e) = refl

emitted-Reads :
    (out_len written v buffer left : ℕ) (vs : List ℕ)
    → v < 2 ^ 5
    → left < 5
    → written < out_len
    → Reads out_len (written + 1) vs (push_value buffer v) left
    → Reads out_len written (v ∷ vs) buffer (left + 3)
emitted-Reads out_len written v buffer left vs hv hl room
      (ds, last, left', run, bytes, small, digits) =
    let b = push_value buffer v in
    (
      octet b left ∷ ds,
      last,
      left',
      decode_emitted out_len written v buffer left _ hv room
          ∙ ap (λ r. r >>= λ rest. ok (octet b left ∷ rest)) run
          ∙ prepend (octet b left) ds (leftover last left'),
      (omega (arith, bit_and-ones 8 (b / 2 ^ left)), bytes),
      small,
      sym (append_assoc (bits_of (left + 3) buffer) (bits_of 5 v) (bits_of_all 5 vs))
          ∙ ap (λ t. t ++ bits_of_all 5 vs)
              (sym (push_value_lem buffer (left + 3) v (omega arith) hv)
                ∙ ap (λ (n : ℕ). bits_of n b) (omega arith)
                ∙ octet_lem b left)
          ∙ append_assoc (bits_of 8 (octet b left)) (bits_of left b) (bits_of_all 5 vs)
          ∙ ap (λ t. bits_of 8 (octet b left) ++ t) digits
          ∙ sym (append_assoc (bits_of 8 (octet b left)) (bits_of_all 8 ds) (bits_of left' last)),
    )

decode_run :
    (vs : List ℕ) (out_len written buffer bits : ℕ)
    → AreValues vs
    → bits < 8
    → written * 8 + bits + length vs * 5 < out_len * 8 + 8
    → Reads out_len written vs buffer bits
decode_run [] out_len written buffer bits hv hb room = (
  [],
  buffer,
  bits,
  unfold decode_loop in leftover_shape buffer bits,
  tt,
  hb,
  append-nil (bits_of bits buffer),
)
decode_run (v ∷ vs) out_len written buffer bits (hv, hvs) hb room = elim (Bool-cases (leb 3 bits)) [
  | inl more ↦
      subst (λ n. Reads out_len written (v ∷ vs) buffer n) (ground arith)
        (emitted-Reads out_len written v buffer (bits - 3) vs hv (omega arith) (ground arith) (
          decode_run vs out_len (written + 1) (push_value buffer v) (bits - 3) hvs (ground arith)
            (ground arith)))
  | inr less ↦
      let (ds, last, left, run, bytes, small, digits) =
        decode_run vs out_len written (push_value buffer v) (bits + 5) hvs (ground arith)
          (ground arith) in
      (
        ds,
        last,
        left,
        decode_kept out_len written v buffer bits _ hv (ground arith) ∙ run,
        bytes,
        small,
        sym (append_assoc (bits_of bits buffer) (bits_of 5 v) (bits_of_all 5 vs))
            ∙ ap (λ t. t ++ bits_of_all 5 vs) (sym (push_value_lem buffer bits v hb hv))
            ∙ digits,
      )
]

zeros_left :
    (last left padding : ℕ)
    → left < 8
    → bits_of left last ≡ replicate padding 0
    → leftover last left ≡ ok []
unfolding leftover
zeros_left last left padding h e = ground (arith, mask_zero_of_zeros last left padding e)

decode-encode_loop :
    (data_ : List ℕ) (out_len : ℕ)
    → AreBytes data_
    → length data_ ≤ out_len
    → base32_decode (encode_loop data_ 0 0) out_len ≡ ok data_
unfolding base32_decode
decode-encode_loop data_ out_len h room =
    let (vs, padding, symbols, small, short, digits, count) =
      encode_loop_lem data_ 0 0 h (omega arith) in
    let (ds, last, left, run, bytes, few, digits') =
      decode_run vs out_len 0 0 0 small (omega arith) (omega (arith, length-bits_of_all 5 vs)) in
    let (same, tail) =
      bits_of_all_unique 8 ds data_ (bits_of left last) (replicate padding 0) bytes h
        (omega (arith, length-bits_of left last))
        (omega (arith, length-replicate {A = ℕ} padding 0)) (sym digits' ∙ digits) in
    ap (λ t. decode_loop out_len 0 t 0 0) symbols
    ∙ run
    ∙ ap (λ r. r >>= λ rest. ok (ds ++ rest)) (zeros_left last left padding few tail)
    ∙ ap ok (append-nil ds ∙ same)

-- The encoder writes as many symbols as `base32_encoded_len` says, so it stays in its buffer.
length-encode_loop :
    (data_ : List ℕ)
    → AreBytes data_
    → length (encode_loop data_ 0 0) ≡ base32_encoded_len (length data_)
unfolding base32_encoded_len
length-encode_loop data_ h =
    let (vs, padding, symbols, small, short, digits, count) =
      encode_loop_lem data_ 0 0 h (omega arith) in
    ground (arith, ap length symbols, length-map base32_symbol vs)

-- Into buffers that are long enough, encoding succeeds with `base32_encoded_len` symbols, and
-- decoding those gives the octets back.
pub base32_round_trip :
    (data_ : List ℕ) (text_len out_len : ℕ)
    → AreBytes data_
    → base32_encoded_len (length data_) ≤ text_len
    → length data_ ≤ out_len
    → (text : List ℕ) × (base32_encode data_ text_len ≡ ok text)
      × (length text ≡ base32_encoded_len (length data_))
      × (base32_decode text out_len ≡ ok data_)
unfolding base32_encode
base32_round_trip data_ text_len out_len h room room' = (
  encode_loop data_ 0 0,
  ground arith,
  length-encode_loop data_ h,
  decode-encode_loop data_ out_len h room',
)
