-- ===== src/Assurance/Examples.antt =====
-- modules/common/assurance.rs at concrete tokens.
use kagi.Base.{
  ℕ, ◌≤◌, ◌≡◌, refl, true, false, none, some, List, [], ◌∷◌, arith, leb, length, if◌then◌else◌,
}
use kagi.Base.Text.{codes}
use kagi.Base.Maybe.{◌>>=◌}
use kagi.Base.Outcome.{ok}
use kagi.Assurance.{
  AssuranceLevel, Evidence, KeyBinding, evidence_at, level, level_of, rank, supports, with_amr_name,
  parse_bytes, named, with_parsed, with_method, methods_of, filter_recorded, distinct_factors,
  factors_loop, factor,
}
use kagi.Assurance.Recorded.{gather, contains, recovery_caps}
use kagi.Assurance.Wire.{encode, decode, decode-encode_evidence}
use kagi.Assurance.Amr.{write_amr, max_amr_json}
use kagi.Assurance.Amr.Rendered.{rendered, write_amr_lem, write_amr-fits}
use kagi.Assurance.Policy.{
  AssurancePolicy, check, check_method, check_supported, check_floor, check_age,
}
use kagi.Assurance.Policy.Accepted.{check-aal3}

abbrev passkey : List (List ℕ)
passkey = codes "hwk" ∷ codes "user" ∷ codes "webauthn" ∷ []

abbrev strict : AssurancePolicy
strict = record { min_level = AssuranceLevel.aal3; max_age = some 300; require_method = none }

accepted : check strict (some (codes "aal3")) passkey (some 1000) 1200 ≡ ok tt
unfolding check check_method check_supported check_floor check_age gather with_amr_name parse_bytes
    named with_parsed with_method supports level level_of distinct_factors methods_of
    filter_recorded factors_loop factor
accepted = refl

check-aal3_example :
    ((some (codes "aal3") >>= level_of) ≡ some AssuranceLevel.aal3)
    × (contains passkey (codes "hwk") ≡ true)
    × (contains passkey (codes "webauthn") ≡ true)
    × (contains passkey (codes "user") ≡ true)
    × (contains passkey (codes "recovery") ≡ false)
check-aal3_example = check-aal3 strict (some (codes "aal3")) passkey (some 1000) 1200 refl accepted

at_aal3 : 2 ≤ rank (level (gather (evidence_at 1000) passkey))
unfolding gather with_amr_name parse_bytes named with_parsed with_method level distinct_factors
    methods_of filter_recorded factors_loop factor
at_aal3 = omega arith

recovery_caps_example : contains passkey (codes "recovery") ≡ false
recovery_caps_example = recovery_caps 1000 passkey at_aal3

-- An email and a one-time password.
abbrev two_factors : Evidence
two_factors = record {
  methods = 0b100001;
  key_binding = KeyBinding.software;
  user_verified = false;
  phishing_resistant = false;
  auth_time = 1000;
}

decode-encode_evidence_example : decode (encode two_factors) ≡ two_factors
decode-encode_evidence_example = decode-encode_evidence two_factors

write_amr_lem_example :
    write_amr two_factors 10
    ≡ (if leb (length (rendered two_factors)) 10 then some (rendered two_factors) else none)
write_amr_lem_example = write_amr_lem two_factors 10

write_amr-fits_example : write_amr two_factors max_amr_json ≡ some (rendered two_factors)
write_amr-fits_example = write_amr-fits two_factors refl

listed : rendered two_factors ≡ codes "[\"email\",\"otp\",\"mfa\"]"
unfolding methods_of filter_recorded distinct_factors factors_loop factor
listed = refl
