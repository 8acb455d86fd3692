-- ===== src/Pkce/Examples.antt =====
-- modules/common/pkce.rs at a concrete input, with digests of constant octets.
use kagi.Base.{ℕ, ◌≤◌, ◌≡◌, ◌↔◌, refl, true, some, List, arith, length, replicate}
use kagi.Base.Text.{codes}
use kagi.B64.{decode}
use kagi.Pkce.{Sha256, verify_s256}
use kagi.Pkce.Challenge.{Digests, verify_s256_iff}

abbrev nines : Sha256
nines message = replicate 32 9

nines-Digests : Digests nines
nines-Digests message = (refl, omega arith)

abbrev verifier : List ℕ
verifier = codes "dBjftJeZ4CVP-mB92K27uhbUJU1p1r_wW1gFWFOEjXk"

abbrev challenge : List ℕ
challenge = codes "CQkJCQkJCQkJCQkJCQkJCQkJCQkJCQkJCQkJCQkJCQk"

verify_s256_iff_example : (verify_s256 nines verifier challenge ≡ true) ↔ (
    (43 ≤ length verifier)
    × (length verifier ≤ 128)
    × (decode challenge 32 ≡ some (replicate 32 9)))
verify_s256_iff_example = verify_s256_iff nines verifier challenge nines-Digests (omega arith)
