-- ===== src/TimePolicy/Examples.antt =====
-- modules/common/time_policy.rs at a concrete record of the clock.
use kagi.Base.{ℕ, ◌≤◌, ◌≡◌, ◌↔◌, refl, none, some, List, [], ◌∷◌, ◌++◌, length, replicate, take}
use kagi.Base.Bytes.{le_bytes, from_le}
use kagi.TimePolicy.{Decision, Requirement, decode, is_trustworthy, now_for, permits, requirement}
use kagi.TimePolicy.Refusals.{IsTrusted, now_for_iff}

-- A trusted clock of a network source, at the second 1700000000.
abbrev trusted : List ℕ
trusted = le_bytes 8 1700000000 ++ (replicate 24 0 ++ 3 ∷ 3 ∷ [])

-- The same clock with a rollback suspected.
abbrev rolled_back : List ℕ
rolled_back = le_bytes 8 1700000000 ++ (replicate 24 0 ++ 3 ∷ 7 ∷ [])

now_for_iff_example : (now_for Decision.credential_window trusted ≡ some 1700000000) ↔ (
    (34 ≤ length trusted)
    × (requirement Decision.credential_window ≡ Requirement.trusted_wall_clock → IsTrusted trusted)
    × (1700000000 ≡ from_le (take 8 trusted)))
now_for_iff_example = now_for_iff Decision.credential_window trusted 1700000000

refused : now_for Decision.credential_window rolled_back ≡ none
unfolding now_for decode permits requirement is_trustworthy
refused = refl

accepted : now_for Decision.proof_freshness rolled_back ≡ some 1700000000
unfolding now_for decode permits requirement is_trustworthy
accepted = refl
