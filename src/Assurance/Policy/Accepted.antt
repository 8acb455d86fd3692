-- ===== src/Assurance/Policy/Accepted.antt =====
-- modules/common/assurance.rs: which tokens a policy accepts.
use kagi.Base.{ℕ, ◌+◌, ◌≤◌, ◌≡◌, ◌↔◌, refl, true, false, not, Option, none, some, List, arith, leb}
use kagi.Base.Maybe.{◌>>=◌}
use kagi.Base.Text.{codes}
use kagi.Base.Outcome.{ok, err, ◌>>◌, refuse_if}
use kagi.Assurance.{
  AuthMethod, AssuranceLevel, rank, method_text, level, level_of, supports, evidence_at,
}
use kagi.Assurance.Recorded.{gather, contains, aal3_names}
use kagi.Assurance.Policy.{
  AssurancePolicy, AssuranceFailure, Checked, check, check_method, check_supported, check_floor,
  check_age, or_zero,
}

-- The method that the policy names is reported.
abbrev pub Reports : Option AuthMethod → List (List ℕ) → Type 0
Reports none amr = Unit {0}
Reports (some required) amr = contains amr (method_text required) ≡ true

-- The level claimed is one that the methods reported reach.
abbrev pub Supported : Option AssuranceLevel → List (List ℕ) → Option ℕ → Type 0
Supported none amr auth_time = Unit {0}
Supported (some claimed) amr auth_time =
    rank claimed ≤ rank (level (gather (evidence_at (or_zero auth_time)) amr))

-- A token without a level is at the lowest.
abbrev pub Reaches : AssuranceLevel → Option AssuranceLevel → Type 0
Reaches min none = rank min ≤ 1
Reaches min (some presented) = rank min ≤ rank presented

abbrev pub Recent : Option ℕ → Option ℕ → ℕ → Type 0
Recent none auth_time now = Unit {0}
Recent (some max_age) none now = ⊥
Recent (some max_age) (some proved_at) now = now ≤ proved_at + max_age

method_iff :
    (required : Option AuthMethod) (amr : List (List ℕ))
    → (check_method required amr ≡ ok tt) ↔ Reports required amr
unfolding check_method
method_iff none amr = (λ _. tt, λ _. refl)
method_iff (some required) amr = (λ h. ground arith, λ h. ground arith)

refused_above : (c l : ℕ) (e : AssuranceFailure) → (refuse_if (not (leb c l)) e ≡ ok tt) ↔ (c ≤ l)
refused_above c l e = (λ h. ground arith, λ h. ground arith)

claim_iff :
    (claimed : Option AssuranceLevel) (amr : List (List ℕ)) (auth_time : Option ℕ)
    → (check_supported claimed amr auth_time ≡ ok tt) ↔ Supported claimed amr auth_time
unfolding check_supported supports
claim_iff none amr auth_time = (λ _. tt, λ _. refl)
claim_iff (some claimed) amr auth_time = refused_above (rank claimed) _ _

rank_pos : (l : AssuranceLevel) → 1 ≤ rank l
rank_pos AssuranceLevel.aal1 = omega arith
rank_pos AssuranceLevel.aal2 = omega arith
rank_pos AssuranceLevel.aal3 = omega arith

floor_iff :
    (min : AssuranceLevel) (presented : Option AssuranceLevel)
    → (check_floor min presented ≡ ok tt) ↔ Reaches min presented
unfolding check_floor
floor_iff min none = (λ h. ground arith, λ h. ground arith)
floor_iff min (some presented) =
    (λ h. ground (arith, rank_pos presented), λ h. ground (arith, rank_pos presented))

age_iff :
    (max_age auth_time : Option ℕ) (now : ℕ)
    → (check_age max_age auth_time now ≡ ok tt) ↔ Recent max_age auth_time now
unfolding check_age
age_iff none auth_time now = (λ _. tt, λ _. refl)
age_iff (some max_age) none now = (λ h. absurd (cc), λ h. absurd h)
age_iff (some max_age) (some proved_at) now = (λ h. ground arith, λ h. ground arith)

both_ok : (a b : Checked) → (a >> b) ≡ ok tt → (a ≡ ok tt) × (b ≡ ok tt)
both_ok (ok tt) b h = (refl, h)
both_ok (err e) b h = absurd (cc)

pub check_iff :
    (policy : AssurancePolicy) (acr : Option (List ℕ)) (amr : List (List ℕ)) (auth_time : Option ℕ)
    (now : ℕ)
    → (check policy acr amr auth_time now ≡ ok tt) ↔ (
        Reports policy.require_method amr
        × Supported (acr >>= level_of) amr auth_time
        × Reaches policy.min_level (acr >>= level_of)
        × Recent policy.max_age auth_time now)
unfolding check
check_iff policy acr amr auth_time now =
    let claimed = acr >>= level_of in
    let method = method_iff policy.require_method amr in
    let supported = claim_iff claimed amr auth_time in
    let floor = floor_iff policy.min_level claimed in
    let age = age_iff policy.max_age auth_time now in
    (
      λ h.
          let (a, h1) = both_ok (check_method policy.require_method amr) _ h in
          let (b, h2) = both_ok (check_supported claimed amr auth_time) _ h1 in
          let (c, d) = both_ok (check_floor policy.min_level claimed) _ h2 in
          (method.0 a, supported.0 b, floor.0 c, age.0 d),
      λ (a, b, c, d). rw (method.1 a, supported.1 b, floor.1 c) (age.1 d),
    )

-- A token that a policy with the floor `aal3` accepts claims `aal3`, and reports a hardware key, the
-- binding to the relying party and the verification of the user, and no recovery code.
pub check-aal3 :
    (policy : AssurancePolicy) (acr : Option (List ℕ)) (amr : List (List ℕ)) (auth_time : Option ℕ)
    (now : ℕ)
    → policy.min_level ≡ AssuranceLevel.aal3
    → check policy acr amr auth_time now ≡ ok tt
    → ((acr >>= level_of) ≡ some AssuranceLevel.aal3)
      × (contains amr (codes "hwk") ≡ true)
      × (contains amr (codes "webauthn") ≡ true)
      × (contains amr (codes "user") ≡ true)
      × (contains amr (codes "recovery") ≡ false)
check-aal3 policy acr amr auth_time now top h =
    let (reports, supported, reaches, recent) = (check_iff policy acr amr auth_time now).0 h in
    top_claim (acr >>= level_of) (rw top at reaches) supported
  where
    top_rank : (l : AssuranceLevel) → 3 ≤ rank l → l ≡ AssuranceLevel.aal3
    top_rank AssuranceLevel.aal1 h = absurd (omega arith)
    top_rank AssuranceLevel.aal2 h = absurd (omega arith)
    top_rank AssuranceLevel.aal3 h = refl

    top_claim :
        (claimed : Option AssuranceLevel)
        → Reaches AssuranceLevel.aal3 claimed
        → Supported claimed amr auth_time
        → (claimed ≡ some AssuranceLevel.aal3)
          × (contains amr (codes "hwk") ≡ true)
          × (contains amr (codes "webauthn") ≡ true)
          × (contains amr (codes "user") ≡ true)
          × (contains amr (codes "recovery") ≡ false)
    top_claim none low s = absurd (omega arith)
    top_claim (some l) reach s =
        let (hwk, webauthn, user, recovery) =
          aal3_names (or_zero auth_time) amr (top_rank _ (omega arith)) in
        (λ i. some (top_rank l reach i), hwk, webauthn, user, recovery)
