-- ===== src/KeyCustody/Floors.antt =====
-- modules/common/key_custody.rs: which tiers a posture accepts.
use kagi.Base.{ℕ, ◌≤◌, ◌≡◌, ◌≢◌, ◌↔◌, refl, true, arith}
use kagi.KeyCustody.{KeyRole, Posture, required_tier, permits}

-- A key that authorises somebody: all but the challenge and the data encryption key.
abbrev pub Authorises : KeyRole → Type 0
Authorises role = (role ≢ KeyRole.enrolment_challenge) × (role ≢ KeyRole.data_encryption)

floor_of : (role : KeyRole) → (required_tier role Posture.production ≡ 1) ↔ Authorises role
unfolding required_tier
floor_of KeyRole.issuer = (λ _. ((λ e. absurd (cc)), λ e. absurd (cc)), λ _. refl)
floor_of KeyRole.certificate_authority = (λ _. ((λ e. absurd (cc)), λ e. absurd (cc)), λ _. refl)
floor_of KeyRole.workload = (λ _. ((λ e. absurd (cc)), λ e. absurd (cc)), λ _. refl)
floor_of KeyRole.transfer_grant = (λ _. ((λ e. absurd (cc)), λ e. absurd (cc)), λ _. refl)
floor_of KeyRole.enrolment_challenge = (λ e. absurd (omega arith), λ (a, b). absurd (a refl))
floor_of KeyRole.data_encryption = (λ e. absurd (omega arith), λ (a, b). absurd (b refl))

floor_most : (role : KeyRole) → required_tier role Posture.production ≤ 1
unfolding required_tier
floor_most KeyRole.issuer = omega arith
floor_most KeyRole.certificate_authority = omega arith
floor_most KeyRole.workload = omega arith
floor_most KeyRole.transfer_grant = omega arith
floor_most KeyRole.enrolment_challenge = omega arith
floor_most KeyRole.data_encryption = omega arith

-- In production a backend may hold a key exactly if there is a backend and, where the key authorises
-- somebody, its tier is not the software one.
pub production_iff :
    (role : KeyRole) (tier : ℕ)
    → (permits role Posture.production tier ≡ true) ↔ ((tier ≢ 255) × (Authorises role → 1 ≤ tier))
unfolding permits
production_iff role tier =
    let (tells, floors) = floor_of role in
    let most = floor_most role in
    (
      λ h. (ground arith, λ a. ground (arith, floors a)),
      λ (wired, enough).
          ground (arith, λ (e : required_tier role Posture.production ≡ 1). enough (tells e)),
    )

-- In development a backend may hold any key, exactly if there is a backend.
pub development_iff :
    (role : KeyRole) (tier : ℕ) → (permits role Posture.development tier ≡ true) ↔ (tier ≢ 255)
unfolding permits required_tier
development_iff role tier = (λ h. ground arith, λ wired. ground arith)
