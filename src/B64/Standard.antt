-- ===== src/B64/Standard.antt =====
-- modules/common/b64.rs: standard base64 with padding, written and read back.
use kagi.Base.{
  ℕ, zero, suc, ◌+◌, ◌-◌, ◌*◌, ◌/◌, ◌≤◌, ◌≡◌, refl, sym, ap, ◌∙◌, inl, inr, true, false, some, List,
  [], ◌∷◌, ◌++◌, map, arith, length, length-map, length-append, length-replicate, replicate,
  Bool-cases, leb, ltb, ◌==◌,
}
use kagi.Base.Maybe.{>>=-eq-some}
use kagi.Base.Bytes.{AreBytes}
use kagi.B64.{
  push_char, trailing, decode_char, encode_chunks, decode_loop, encode, encoded_len, standard_value,
  to_standard, decode_standard_loop, decode_standard, encode_standard,
}
use kagi.B64.RoundTrip.{octet, length-encode_chunks, decode_loop-encode_chunks}

-- A symbol of the url alphabet becomes the standard one of the same value, which is no padding.
standard_value-to_standard :
    (c v : ℕ)
    → decode_char c ≡ some v
    → (standard_value (to_standard c) ≡ some v) × ((to_standard c == b'=') ≡ false)
unfolding decode_char
standard_value-to_standard c v e = ground arith

trailing_nothing : (acc bits : ℕ) (out : List ℕ) → trailing acc bits ≡ some out → out ≡ []
unfolding trailing
trailing_nothing acc bits out e = ground arith

module _ (out_len padding : ℕ) where
  padding_read :
      (k o acc bits : ℕ) → decode_standard_loop out_len o (replicate k b'=') acc bits ≡ some []
  unfolding decode_standard_loop
  padding_read zero o acc bits = refl
  padding_read (suc k) o acc bits = padding_read k o acc bits

  -- What the url decoder reads, the standard one reads in its own alphabet and with padding.
  decode_standard_run :
      (text : List ℕ) (o acc bits : ℕ) (out : List ℕ)
      → decode_loop text acc bits ≡ some out
      → o + length out ≤ out_len
      → decode_standard_loop out_len o (map to_standard text ++ replicate padding b'=') acc bits
        ≡ some out
  unfolding decode_loop decode_standard_loop
  decode_standard_run [] o acc bits out e room =
      padding_read padding o acc bits ∙ ap some (sym (trailing_nothing acc bits out e))
  decode_standard_run (c ∷ text) o acc bits out e room =
      let (v, decoded, rest) = >>=-eq-some (decode_char c) _ e in
      let (read, symbol) = standard_value-to_standard c v decoded in
      let acc' = push_char acc v in
      elim (Bool-cases (leb 8 (bits + 6))) [
        | inl more ↦
            let (out', later, joined) =
              >>=-eq-some (decode_loop text acc' (bits + 6 - 8)) _ (rw more at rest) in
            let same : octet acc' (bits + 6 - 8) ∷ out' ≡ out = cc in
            let longer : length out ≡ suc (length out') = ap length (sym same) in
            let roomy : leb out_len o ≡ false = ground arith in
            let run =
              decode_standard_run text (o + 1) acc' (bits + 6 - 8) out' later (omega arith) in
            rw (symbol, read, more, roomy, run) (ap some same)
        | inr less ↦
            let run = decode_standard_run text o acc' (bits + 6) out (rw less at rest) room in
            rw (symbol, read, less, run) refl
      ]

padded_len : (n : ℕ) → (encoded_len n + 3) / 4 * 4 ≡ (n + 2) / 3 * 4
unfolding encoded_len
padded_len n = omega arith

encoded_len_le : (n : ℕ) → encoded_len n ≤ (n + 2) / 3 * 4
unfolding encoded_len
encoded_len_le n = omega arith

-- The text of octets that fit, padded.
encode_standard_lem :
    (input : List ℕ) (text_len : ℕ)
    → AreBytes input
    → (length input + 2) / 3 * 4 ≤ text_len
    → encode_standard input text_len
      ≡ some (
          map to_standard (encode_chunks input)
          ++ replicate ((length input + 2) / 3 * 4 - length (encode_chunks input)) b'=')
unfolding encode_standard encode
encode_standard_lem input text_len h room =
    let fits : ltb text_len (encoded_len (length input)) ≡ false =
      ground (arith, encoded_len_le (length input)) in
    let padded : (length (encode_chunks input) + 3) / 4 * 4 ≡ (length input + 2) / 3 * 4 =
      ap (λ (n : ℕ). (n + 3) / 4 * 4) (length-encode_chunks input h) ∙ padded_len (length input) in
    let wide : leb ((length input + 2) / 3 * 4) text_len ≡ true = ground arith in
    rw (fits, padded, wide) refl

-- Into buffers that are long enough, the standard encoding succeeds with four characters for every three
-- octets begun, and decoding those gives the octets back.
pub standard_round_trip :
    (input : List ℕ) (text_len out_len : ℕ)
    → AreBytes input
    → (length input + 2) / 3 * 4 ≤ text_len
    → length input ≤ out_len
    → (text : List ℕ) × (encode_standard input text_len ≡ some text)
      × (length text ≡ (length input + 2) / 3 * 4)
      × (decode_standard text out_len ≡ some input)
unfolding decode_standard
standard_round_trip input text_len out_len h room room' =
    let size = length-encode_chunks input h in
    let below = encoded_len_le (length input) in
    let padding : ℕ = (length input + 2) / 3 * 4 - length (encode_chunks input) in
    (
      map to_standard (encode_chunks input) ++ replicate padding b'=',
      encode_standard_lem input text_len h room,
      omega (
        arith,
        length-append (map to_standard (encode_chunks input)) (replicate padding b'='),
        length-map to_standard (encode_chunks input),
        length-replicate {A = ℕ} padding b'=',
      ),
      decode_standard_run out_len padding (encode_chunks input) 0 0 0 input
          (decode_loop-encode_chunks input h) (omega arith),
    )
