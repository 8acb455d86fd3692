-- ===== src/B64/Examples.antt =====
-- modules/common/b64.rs at concrete inputs.
use kagi.Base.{ℕ, ◌≤◌, ◌≡◌, refl, some, List, ◌+◌, ◌*◌, ◌/◌, arith, length}
use kagi.Base.Text.{codes}
use kagi.B64.{
  encode, encode_chunks, decode, decoded_len, decode_loop, decode_char, trailing, encoded_len,
  decode_standard, encode_standard,
}
use kagi.Base.Bytes.{AreBytes}
use kagi.B64.RoundTrip.{b64_round_trip}
use kagi.B64.Canonical.{encode-decode_b64}
use kagi.B64.Standard.{standard_round_trip}

b64_round_trip_example :
    (text : List ℕ) × (encode (codes "kagi") 8 ≡ some text)
    × (length text ≡ encoded_len (length (codes "kagi")))
    × (decode text 8 ≡ some (codes "kagi"))
b64_round_trip_example = b64_round_trip (codes "kagi") 8 8 (omega arith) room (omega arith)
  where
    room : encoded_len (length (codes "kagi")) ≤ 8
    room = unfold encoded_len in omega arith

kagi_decoded : decode (codes "a2FnaQ") 8 ≡ some (codes "kagi")
unfolding decode decoded_len decode_loop decode_char trailing
kagi_decoded = refl

encode-decode_b64_example :
    AreBytes (codes "kagi")
    × (encode_chunks (codes "kagi") ≡ codes "a2FnaQ")
    × (length (codes "kagi") ≤ 8)
encode-decode_b64_example =
    encode-decode_b64 (codes "a2FnaQ") 8 {out = codes "kagi"} (omega arith) kagi_decoded

standard_round_trip_example :
    (text : List ℕ) × (encode_standard (codes "kagi") 8 ≡ some text)
    × (length text ≡ (length (codes "kagi") + 2) / 3 * 4)
    × (decode_standard text 4 ≡ some (codes "kagi"))
standard_round_trip_example =
    standard_round_trip (codes "kagi") 8 4 (omega arith) (omega arith) (omega arith)

kagi_padded : encode_standard (codes "kagi") 8 ≡ some (codes "a2FnaQ==")
unfolding encode_standard
kagi_padded = refl
