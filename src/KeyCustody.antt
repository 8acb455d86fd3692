-- ===== src/KeyCustody.antt =====
-- modules/common/key_custody.rs: which custody tier may hold a key for which role. A tier is an octet.
pub mod Floors
mod Examples
use kagi.Base.{ℕ, Bool, true, false, List, leb, ◌==◌, if◌then◌else◌}
use kagi.Base.Text.{codes}

abbrev pub tier_software : ℕ
tier_software = 0

abbrev pub tier_process_hw : ℕ
tier_process_hw = 1

abbrev pub tier_device_hw : ℕ
tier_device_hw = 2

abbrev pub tier_none : ℕ
tier_none = 0xFF

pub data KeyRole : Type 0 where
  issuer certificate_authority workload enrolment_challenge data_encryption transfer_grant : KeyRole

pub data Posture : Type 0 where
  development production : Posture

pub required_tier : KeyRole → Posture → ℕ
required_tier role Posture.development = tier_software
required_tier KeyRole.issuer Posture.production = tier_process_hw
required_tier KeyRole.certificate_authority Posture.production = tier_process_hw
required_tier KeyRole.workload Posture.production = tier_process_hw
required_tier KeyRole.transfer_grant Posture.production = tier_process_hw
required_tier KeyRole.enrolment_challenge Posture.production = tier_software
required_tier KeyRole.data_encryption Posture.production = tier_software

pub permits : KeyRole → Posture → ℕ → Bool
unfolding required_tier
permits role posture tier =
    if tier == tier_none then false else leb (required_tier role posture) tier

pub refusal_text : ℕ → List ℕ
refusal_text tier =
    if tier == tier_none
    then codes "no key_vault backend is wired"
    else codes "key_vault tier is below this role's production floor"

pub tier_text : ℕ → List ℕ
tier_text tier =
    if tier == tier_software
    then codes "software"
    else if tier == tier_process_hw
    then codes "process-hw"
    else if tier == tier_device_hw
    then codes "device-hw"
    else codes "none"
