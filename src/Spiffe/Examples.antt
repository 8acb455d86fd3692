-- ===== src/Spiffe/Examples.antt =====
-- modules/common/spiffe.rs: names read and written.
use kagi.Base.{ℕ, ◌≡◌, refl, ◌↔◌, true, none, some, List, [], ◌∷◌, arith, length, replicate}
use kagi.Base.Bytes.{AreBytes}
use kagi.Base.Text.{codes}
use kagi.Pkce.{Sha256}
use kagi.Spiffe.{
  Class, Identity, write_device, write_service_account, write_host, write_operator, belongs_to,
  parse, from_code, class_code,
}
use kagi.Spiffe.Written.{parse-write}
use kagi.Spiffe.Membership.{belongs_to-parse}

-- A digest that is the same for every input.
abbrev sha_example : Sha256
sha_example bytes = replicate 32 7

abbrev domain_example : List ℕ
domain_example = codes "nano.example"

abbrev host_example : List ℕ
host_example =
    0 ∷ 17 ∷ 34 ∷ 51 ∷ 68 ∷ 85 ∷ 102 ∷ 119 ∷ 136 ∷ 153 ∷ 170 ∷ 187 ∷ 204 ∷ 221 ∷ 238 ∷ 255 ∷ []

abbrev name_example : List ℕ
name_example = codes "spiffe://nano.example/host/00112233445566778899aabbccddeeff"

abbrev device_example : List ℕ
device_example = codes "spiffe://nano.example/device/t/d"

parse-write_example :
    ((parse sha_example name_example domain_example
        ≡ some (record { class = Class.host; id = host_example }))
      ↔ ((length host_example ≡ 16)
          × AreBytes host_example
          × (write_host 512 domain_example host_example ≡ some name_example)))
    × ((parse sha_example name_example domain_example
          ≡ some (record { class = Class.operator; id = host_example }))
        ↔ ((length host_example ≡ 16)
            × AreBytes host_example
            × (write_operator 512 domain_example host_example ≡ some name_example)))
parse-write_example =
    parse-write sha_example 512 domain_example name_example host_example (omega arith)

belongs_to-parse_example :
    (belongs_to device_example domain_example ≡ true)
    ↔ ((who : Identity) × (parse sha_example device_example domain_example ≡ some who))
belongs_to-parse_example = belongs_to-parse sha_example device_example domain_example

host_read :
    parse sha_example name_example domain_example
    ≡ some (record { class = Class.host; id = host_example })
unfolding parse
host_read = refl

host_written : write_host 512 domain_example host_example ≡ some name_example
unfolding write_host
host_written = refl

device_read :
    parse sha_example device_example domain_example
    ≡ some (record { class = Class.device; id = replicate 16 7 })
unfolding parse
device_read = refl

device_written : write_device 32 domain_example (codes "t") (codes "d") ≡ some device_example
unfolding write_device
device_written = refl

does_not_fit : write_device 31 domain_example (codes "t") (codes "d") ≡ none
unfolding write_device
does_not_fit = refl

account_written :
    write_service_account 64 domain_example (codes "prod") (codes "api")
    ≡ some (codes "spiffe://nano.example/ns/prod/sa/api")
unfolding write_service_account
account_written = refl

class_round : (c : Class) → from_code (class_code c) ≡ some c
unfolding from_code class_code
class_round Class.device = refl
class_round Class.workload = refl
class_round Class.service = refl
class_round Class.host = refl
class_round Class.operator = refl
