-- ===== src/Pkce.antt =====
-- modules/common/pkce.rs: the S256 code challenge, with SHA-256 a parameter.
pub mod Equality
pub mod Challenge
mod Examples
use kagi.Base.{
  ℕ, ◌+◌, Bool, false, not, ◌||◌, List, [], ◌∷◌, bit_or, bit_xor, ltb, ◌==◌, if◌then◌else◌, length,
}
use kagi.B64.{encode_digest32}

abbrev pub Sha256 : Type 0
Sha256 = List ℕ → List ℕ

abbrev pub min_verifier : ℕ
min_verifier = 43

abbrev pub max_verifier : ℕ
max_verifier = 128

-- The loop over the two slices, `diff |= x ^ y`.
unfoldable pub differences : ℕ → List ℕ → List ℕ → ℕ
differences diff (x ∷ a) (y ∷ b) = differences (bit_or diff (bit_xor x y)) a b
differences diff _ _ = diff

unfoldable pub ct_eq : List ℕ → List ℕ → Bool
unfolding differences
ct_eq a b = if not (length a == length b) then false else differences 0 a b == 0

pub verify_s256 : Sha256 → List ℕ → List ℕ → Bool
unfolding ct_eq encode_digest32
verify_s256 sha256 verifier challenge =
    if ltb (length verifier) min_verifier || ltb max_verifier (length verifier)
    then false
    else ct_eq (encode_digest32 (sha256 verifier)) challenge
