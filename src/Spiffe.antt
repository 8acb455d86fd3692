-- ===== src/Spiffe.antt =====
-- modules/common/spiffe.rs: the names of identities in a trust domain. SHA-256 is a parameter.
pub mod Hex
pub mod Cut
pub mod Names
pub mod Written
pub mod Membership
mod Examples
use kagi.Base.{
  ℕ, ◌+◌, ◌-◌, ◌*◌, ◌/◌, Bool, true, false, not, ◌||◌, ◌&&◌, Option, none, some, List, [], ◌∷◌, ltb,
  leb, ◌==◌, bit_and, bit_or, if◌then◌else◌, length, take, drop, bytes_eq, get_elem?,
}
use kagi.Base.Text.{codes}
use kagi.Base.Maybe.{◌>>=◌}
use kagi.Base.Buffer.{put_parts}
use kagi.Pkce.{Sha256}

abbrev pub class_device : List ℕ
class_device = codes "device"

abbrev pub class_namespace : List ℕ
class_namespace = codes "ns"

abbrev pub class_service : List ℕ
class_service = codes "svc"

abbrev pub class_host : List ℕ
class_host = codes "host"

abbrev pub class_operator : List ℕ
class_operator = codes "operator"

abbrev pub id_len : ℕ
id_len = 16

abbrev pub id_hex_len : ℕ
id_hex_len = 32

pub data Class : Type 0 where
  device workload service host operator : Class

unfoldable pub class_code : Class → ℕ
class_code Class.device = 1
class_code Class.workload = 2
class_code Class.service = 3
class_code Class.host = 4
class_code Class.operator = 5

pub from_code : ℕ → Option Class
from_code code =
    if code == 1
    then some Class.device
    else if code == 2
    then some Class.workload
    else if code == 3
    then some Class.service
    else if code == 4
    then some Class.host
    else if code == 5
    then some Class.operator
    else none

pub class_word : Class → List ℕ
class_word Class.device = class_device
class_word Class.workload = class_namespace
class_word Class.service = class_service
class_word Class.host = class_host
class_word Class.operator = class_operator

-- `Class::fixed_id`.
pub carries_fixed_id : Class → Bool
carries_fixed_id Class.device = false
carries_fixed_id Class.workload = false
carries_fixed_id Class.service = false
carries_fixed_id Class.host = true
carries_fixed_id Class.operator = true

pub record Identity : Type 0 where
  pub class : Class
  pub id : List ℕ

abbrev pub scheme : List ℕ
scheme = codes "spiffe://"

-- `b"0123456789abcdef"[i]`
pub hex_digit : ℕ → ℕ
hex_digit i = if ltb i 10 then b'0' + i else b'a' + i - 10

pub hex_value : ℕ → Option ℕ
hex_value c =
    if leb b'0' c && leb c b'9'
    then some (c - b'0')
    else if leb b'a' c && leb c b'f'
    then some (c - b'a' + 10)
    else none

unfoldable pub hex_into : List ℕ → List ℕ
unfolding hex_digit
hex_into [] = []
hex_into (b ∷ id) = hex_digit (b / 16) ∷ hex_digit (bit_and b 0x0F) ∷ hex_into id

-- The loop over the pairs of digits.
pub from_pairs : List ℕ → Option (List ℕ)
unfolding hex_value
from_pairs [] = some []
from_pairs (high ∷ []) = some []
from_pairs (high ∷ (low ∷ path)) = do
  h ← hex_value high
  l ← hex_value low
  rest ← from_pairs path
  some (bit_or (h * 16) l ∷ rest)

pub fixed_id : List ℕ → Option (List ℕ)
unfolding from_pairs
fixed_id path = if not (length path == id_hex_len) then none else from_pairs path

-- The parts that `join` puts after the trust domain.
abbrev pub slashed : List (List ℕ) → List (List ℕ)
slashed [] = []
slashed (segment ∷ segments) = codes "/" ∷ segment ∷ slashed segments

pub join : ℕ → List ℕ → List (List ℕ) → Option (List ℕ)
unfolding put_parts
join out_len trust_domain segments = put_parts out_len [] (scheme ∷ trust_domain ∷ slashed segments)

pub write_device : ℕ → List ℕ → List ℕ → List ℕ → Option (List ℕ)
unfolding join
write_device out_len trust_domain tenant device_id =
    join out_len trust_domain (class_device ∷ tenant ∷ device_id ∷ [])

pub write_service_account : ℕ → List ℕ → List ℕ → List ℕ → Option (List ℕ)
unfolding join
write_service_account out_len trust_domain namespace name =
    join out_len trust_domain (class_namespace ∷ namespace ∷ codes "sa" ∷ name ∷ [])

pub write_service : ℕ → List ℕ → List ℕ → List ℕ → Option (List ℕ)
unfolding join
write_service out_len trust_domain service_name id =
    join out_len trust_domain (class_service ∷ service_name ∷ id ∷ [])

pub write_host : ℕ → List ℕ → List ℕ → Option (List ℕ)
unfolding join hex_into
write_host out_len trust_domain host_id =
    join out_len trust_domain (class_host ∷ hex_into host_id ∷ [])

pub write_operator : ℕ → List ℕ → List ℕ → Option (List ℕ)
unfolding join hex_into
write_operator out_len trust_domain operator_id =
    join out_len trust_domain (class_operator ∷ hex_into operator_id ∷ [])

pub strip_prefix : List ℕ → List ℕ → Option (List ℕ)
strip_prefix bytes prefix =
    if ltb (length bytes) (length prefix) || not (bytes_eq (take (length prefix) bytes) prefix)
    then none
    else some (drop (length prefix) bytes)

-- What stands before the first slash and after it; with no slash, all and nothing.
pub at_slash : List ℕ → List ℕ × List ℕ
at_slash [] = ([], [])
at_slash (byte ∷ rest) =
    let (before, after) = at_slash rest in
    if byte == b'/' then ([], rest) else (byte ∷ before, after)

pub split : List ℕ → List ℕ → Option (List ℕ × List ℕ)
unfolding strip_prefix at_slash
split id trust_domain = do
  rest ← strip_prefix id scheme
  rest ← strip_prefix rest trust_domain
  rest ← strip_prefix rest (codes "/")
  some (at_slash rest)

abbrev pub is_fixed : List ℕ → Bool
is_fixed class = bytes_eq class class_host || bytes_eq class class_operator

abbrev pub is_some : Option (List ℕ) → Bool
is_some none = false
is_some (some id) = true

abbrev pub is_reserved : List ℕ → Bool
is_reserved class =
    bytes_eq class class_device
    || bytes_eq class class_namespace
    || bytes_eq class class_service
    || bytes_eq class class_host
    || bytes_eq class class_operator

abbrev pub belongs_at : Option (List ℕ × List ℕ) → Bool
belongs_at none = false
belongs_at (some (class, path)) =
    if is_fixed class then is_some (fixed_id path) else is_reserved class

pub belongs_to : List ℕ → List ℕ → Bool
unfolding split fixed_id
belongs_to id trust_domain = belongs_at (split id trust_domain)

-- The class whose identity is a digest of the name.
abbrev pub digested_class : List ℕ → Option Class
digested_class class =
    if bytes_eq class class_device
    then some Class.device
    else if bytes_eq class class_namespace
    then some Class.workload
    else if bytes_eq class class_service
    then some Class.service
    else none

abbrev pub identify : Sha256 → List ℕ → List ℕ → List ℕ → Option Identity
identify sha256 id class path =
    if is_fixed class
    then (fixed_id path >>= λ fixed. some (record {
      class = if bytes_eq class class_host then Class.host else Class.operator;
      id = fixed;
    }))
    else (digested_class class >>= λ digested.
        some (record { class = digested; id = take id_len (sha256 id) }))

unfoldable pub parse : Sha256 → List ℕ → List ℕ → Option Identity
unfolding split fixed_id
parse sha256 id trust_domain =
    split id trust_domain >>= λ (class, path). identify sha256 id class path
