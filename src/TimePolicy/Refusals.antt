-- ===== src/TimePolicy/Refusals.antt =====
-- modules/common/time_policy.rs: when `now_for` answers with a time.
use kagi.Base.{ℕ, ◌≤◌, ◌≡◌, ◌≢◌, ◌↔◌, refl, true, some, List, arith, length, take}
use kagi.Base.Bits.Digit.{bit, bit-lt, bit_and-pow}
use kagi.Base.Bytes.{from_le}
use kagi.TimePolicy.{
  Observation, Decision, Requirement, decode, is_trustworthy, requirement, permits, now_for, index,
  permits_under, observe,
}

-- The clock is trusted: a source answered, the provider vouches for it, and no rollback is suspected.
abbrev pub IsTrusted : List ℕ → Type 0
IsTrusted rec = (index rec 32 ≢ 0) × (bit (index rec 33) 1 ≡ 1) × (bit (index rec 33) 2 ≡ 0)

abbrev Vouched : Observation → Type 0
Vouched o = (o.source_class ≢ 0) × (bit o.flags 1 ≡ 1) × (bit o.flags 2 ≡ 0)

is_trustworthy_iff : (o : Observation) → (is_trustworthy o ≡ true) ↔ Vouched o
unfolding is_trustworthy
is_trustworthy_iff o = (
  λ h. ground (arith, bit_and-pow o.flags 1, bit_and-pow o.flags 2, bit-lt o.flags 1),
  λ h. ground (arith, bit_and-pow o.flags 1, bit_and-pow o.flags 2),
)

under :
    (r : Requirement) (o : Observation)
    → (permits_under r o ≡ true) ↔ (r ≡ Requirement.trusted_wall_clock → Vouched o)
under Requirement.trusted_wall_clock o =
    (λ h _. (is_trustworthy_iff o).0 h, λ h. (is_trustworthy_iff o).1 (h refl))
under Requirement.monotonic_duration o = (λ h e. absurd (cc), λ h. refl)
under Requirement.signed_observation_accepted o = (λ h e. absurd (cc), λ h. refl)

-- `now_for` answers a number exactly if the record is whole, and trusted where the decision needs a
-- trusted wall clock; the number is then the record's first 8 bytes.
pub now_for_iff :
    (d : Decision) (rec : List ℕ) (s : ℕ)
    → (now_for d rec ≡ some s) ↔ (
        (34 ≤ length rec)
        × (requirement d ≡ Requirement.trusted_wall_clock → IsTrusted rec)
        × (s ≡ from_le (take 8 rec)))
unfolding now_for decode permits
now_for_iff d rec s = (
  λ e. ground (arith, (under (requirement d) (observe rec)).0),
  λ h. ground (arith, (under (requirement d) (observe rec)).1 h.1),
)
