-- ===== src/KeyCustody/Examples.antt =====
-- modules/common/key_custody.rs at concrete roles and tiers.
use kagi.Base.{ℕ, ◌≤◌, ◌≡◌, ◌≢◌, ◌↔◌, refl, true, false}
use kagi.KeyCustody.{KeyRole, Posture, permits}
use kagi.KeyCustody.Floors.{Authorises, production_iff, development_iff}

production_iff_example :
    (permits KeyRole.issuer Posture.production 1 ≡ true)
    ↔ ((◌≢◌ {A = ℕ} 1 255) × (Authorises KeyRole.issuer → 1 ≤ 1))
production_iff_example = production_iff KeyRole.issuer 1

development_iff_example :
    (permits KeyRole.issuer Posture.development 0 ≡ true) ↔ (◌≢◌ {A = ℕ} 0 255)
development_iff_example = development_iff KeyRole.issuer 0

no_vault : permits KeyRole.data_encryption Posture.development 255 ≡ false
unfolding permits
no_vault = refl
