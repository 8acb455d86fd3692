-- ===== src/Pkce/Challenge.antt =====
-- modules/common/pkce.rs: which challenges a verifier answers.
use kagi.Base.{ℕ, ◌≤◌, ◌≡◌, ◌↔◌, true, some, List, arith, length}
use kagi.Base.Bytes.{AreBytes}
use kagi.B64.{encode_digest32, decode}
use kagi.B64.Digest.{encode_digest32_iff}
use kagi.Pkce.{Sha256, verify_s256}
use kagi.Pkce.Equality.{ct_eq_iff}

-- What the code relies on of SHA-256: a digest is 32 octets.
abbrev pub Digests : Sha256 → Type 0
Digests sha256 = (message : List ℕ) → (length (sha256 message) ≡ 32) × AreBytes (sha256 message)

-- With digests of 32 octets and a challenge of octets, a verifier is accepted exactly if its length is
-- 43 to 128 and the challenge decodes, as base64url, to its digest.
pub verify_s256_iff :
    (sha256 : Sha256) (verifier challenge : List ℕ)
    → Digests sha256
    → AreBytes challenge
    → (verify_s256 sha256 verifier challenge ≡ true) ↔ (
        (43 ≤ length verifier)
        × (length verifier ≤ 128)
        × (decode challenge 32 ≡ some (sha256 verifier)))
unfolding verify_s256
verify_s256_iff sha256 verifier challenge digests h =
    let (size, octets) = digests verifier in
    let (decodes, encodes) = encode_digest32_iff (sha256 verifier) challenge size octets h in
    let (equal, unequal) = ct_eq_iff (encode_digest32 (sha256 verifier)) challenge in
    (
      λ e. (ground arith, ground arith, decodes (equal (ground arith))),
      λ (long, short, e). ground (arith, unequal (encodes e)),
    )
