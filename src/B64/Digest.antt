-- ===== src/B64/Digest.antt =====
-- modules/common/b64.rs: the 43-character form of a 32-octet digest.
use kagi.Base.{ℕ, ◌≡◌, ◌↔◌, refl, sym, ap, ◌∙◌, some, List, arith, length}
use kagi.Base.Bytes.{AreBytes}
use kagi.B64.{encode_chunks, encode, encode_digest32, encoded_len, decode}
use kagi.B64.RoundTrip.{b64_round_trip, length-encode_chunks}
use kagi.B64.Canonical.{encode-decode_b64}

fits : encoded_len 32 ≡ 43
unfolding encoded_len
fits = refl

pub encode_digest32_lem :
    (digest : List ℕ) → length digest ≡ 32 → encode_digest32 digest ≡ encode_chunks digest
unfolding encode_digest32
encode_digest32_lem digest h = ground arith

pub length-encode_digest32 :
    (digest : List ℕ) → length digest ≡ 32 → AreBytes digest → length (encode_digest32 digest) ≡ 43
length-encode_digest32 digest h bytes =
    ap length (encode_digest32_lem digest h)
    ∙ length-encode_chunks digest bytes
    ∙ ap encoded_len h
    ∙ fits

-- A text is a digest's form exactly if it decodes to the digest.
pub encode_digest32_iff :
    (digest text : List ℕ)
    → length digest ≡ 32
    → AreBytes digest
    → AreBytes text
    → (encode_digest32 digest ≡ text) ↔ (decode text 32 ≡ some digest)
encode_digest32_iff digest text h bytes octets = (
  λ e.
      let (written, sent, count, back) =
        b64_round_trip digest 43 32 bytes (omega (arith, fits, ap encoded_len h)) (omega arith) in
      ap (λ t. decode t 32) (sym e ∙ encode_digest32_lem digest h ∙ same written sent) ∙ back,
  λ e. encode_digest32_lem digest h ∙ (encode-decode_b64 text 32 octets e).1,
)
  where
    same : (written : List ℕ) → encode digest 43 ≡ some written → encode_chunks digest ≡ written
    same written sent = unfold encode in ground (arith, fits, ap encoded_len h)
