-- ===== src/Assurance/Policy.antt =====
-- modules/common/assurance.rs: what a relying party demands of a token. A text is the list of its octets.
pub mod Accepted
use kagi.Base.{
  ℕ, ◌-◌, Bool, true, false, not, ◌||◌, Option, none, some, List, [], ◌∷◌, ltb, leb, if◌then◌else◌,
  bytes_eq,
}
use kagi.Base.Maybe.{◌>>=◌}
use kagi.Base.Outcome.{Result, ok, err, ◌>>◌, refuse_if}
use kagi.Assurance.{
  AuthMethod, AssuranceLevel, Evidence, method_text, rank, level_of, level, supports, evidence_at,
}
use kagi.Assurance.Recorded.{gather, contains}

pub record AssurancePolicy : Type 0 where
  pub min_level : AssuranceLevel
  pub max_age : Option ℕ
  pub require_method : Option AuthMethod

pub data AssuranceFailure : Type 0 where
  level_unknown : AssuranceFailure
  level_too_low : AssuranceLevel → AssuranceLevel → AssuranceFailure
  proof_too_old : ℕ → ℕ → AssuranceFailure
  method_missing : AuthMethod → AssuranceFailure
  level_unsupported : AssuranceLevel → AssuranceLevel → AssuranceFailure

abbrev pub Checked : Type 0
Checked = Result AssuranceFailure (Unit {0})

pub at_least : AssuranceLevel → AssurancePolicy
at_least min = record { min_level = min; max_age = none; require_method = none }

pub within : ℕ → AssurancePolicy → AssurancePolicy
within seconds policy = record policy { max_age = some seconds }

pub requiring : AuthMethod → AssurancePolicy → AssurancePolicy
requiring method policy = record policy { require_method = some method }

abbrev pub or_zero : Option ℕ → ℕ
or_zero none = 0
or_zero (some n) = n

-- The first test: a method that must be reported.
unfoldable pub check_method : Option AuthMethod → List (List ℕ) → Checked
unfolding contains
check_method none amr = ok tt
check_method (some required) amr =
    refuse_if (not (contains amr (method_text required))) (AssuranceFailure.method_missing required)

-- The second: no claim above the token's own methods.
unfoldable pub check_supported : Option AssuranceLevel → List (List ℕ) → Option ℕ → Checked
unfolding gather supports level
check_supported none amr auth_time = ok tt
check_supported (some claimed) amr auth_time =
    let evidence = gather (evidence_at (or_zero auth_time)) amr in
    refuse_if (not (supports evidence claimed))
      (AssuranceFailure.level_unsupported claimed (level evidence))

-- The third: the floor, where there is one.
unfoldable pub check_floor : AssuranceLevel → Option AssuranceLevel → Checked
check_floor min none = refuse_if (ltb 1 (rank min)) AssuranceFailure.level_unknown
check_floor min (some presented) =
    refuse_if (if ltb 1 (rank min) then ltb (rank presented) (rank min) else false)
      (AssuranceFailure.level_too_low min presented)

-- The last: the age of the proof.
unfoldable pub check_age : Option ℕ → Option ℕ → ℕ → Checked
check_age none auth_time now = ok tt
check_age (some max_age) none now = err AssuranceFailure.level_unknown
check_age (some max_age) (some proved_at) now =
    refuse_if (ltb max_age (now - proved_at))
      (AssuranceFailure.proof_too_old (now - proved_at) max_age)

unfoldable pub check : AssurancePolicy → Option (List ℕ) → List (List ℕ) → Option ℕ → ℕ → Checked
unfolding check_method check_supported check_floor check_age
check policy acr amr auth_time now = do
  check_method policy.require_method amr
  check_supported (acr >>= level_of) amr auth_time
  check_floor policy.min_level (acr >>= level_of)
  check_age policy.max_age auth_time now
