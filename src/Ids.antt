-- ===== src/Ids.antt =====
-- modules/common/ids.rs: the identifiers of a tenant, a device and a workload. HKDF and SHA-256 are
-- parameters that answer their 32 octets.
pub mod Trimmed
pub mod Derived
mod Examples
use kagi.Base.{
  ℕ, ◌+◌, ◌&&◌, ◌||◌, List, [], ◌∷◌, ◌++◌, map, ltb, leb, ◌==◌, if◌then◌else◌, length, take,
}
use mathlib.Core.List.{reverse}
use kagi.Base.Text.{codes}
use kagi.Base.Outcome.{Result, ok, err}
use kagi.B64.{encode_digest32}
use kagi.Pkce.{Sha256}
use kagi.Recovery.{Hkdf}
use kagi.Totp.Base32.{is_ascii_whitespace}

abbrev pub tenant_id_length : ℕ
tenant_id_length = 22

abbrev pub device_id_length : ℕ
device_id_length = 22

abbrev pub workload_subject_length : ℕ
workload_subject_length = 22

abbrev pub max_email : ℕ
max_email = 256

abbrev pub max_identity : ℕ
max_identity = 256

abbrev pub tenant_info_label : List ℕ
tenant_info_label = codes "tenant-id"

abbrev pub workload_info_label : List ℕ
workload_info_label = codes "kagi-workload-subject"

pub data IdError : Type 0 where
  empty_secret empty_email email_too_long empty_identity identity_too_long : IdError

-- The first loop of `trim_ascii`.
pub trim_start : List ℕ → List ℕ
trim_start [] = []
trim_start (first ∷ rest) =
    let trimmed = trim_start rest in if is_ascii_whitespace first then trimmed else first ∷ rest

-- The second loop takes items off the end: what it keeps of `first ∷ rest` follows from what it keeps
-- of `rest`, and `first` goes only if all after it went.
abbrev pub keep_before : ℕ → List ℕ → List ℕ
keep_before first [] = if is_ascii_whitespace first then [] else first ∷ []
keep_before first (x ∷ kept) = first ∷ x ∷ kept

pub trim_end : List ℕ → List ℕ
trim_end [] = []
trim_end (first ∷ rest) = keep_before first (trim_end rest)

pub trim_ascii : List ℕ → List ℕ
unfolding trim_start trim_end
trim_ascii bytes = trim_end (trim_start bytes)

abbrev pub to_ascii_lowercase : ℕ → ℕ
to_ascii_lowercase c = if leb b'A' c && leb c b'Z' then c + 32 else c

pub tenant_id : Hkdf → List ℕ → List ℕ → Result IdError (List ℕ)
unfolding trim_ascii
tenant_id hkdf secret email =
    let trimmed = trim_ascii email in
    if length secret == 0
    then err IdError.empty_secret
    else if length trimmed == 0
    then err IdError.empty_email
    else if ltb max_email (length trimmed)
    then err IdError.email_too_long
    else let okm = hkdf (map to_ascii_lowercase trimmed) secret tenant_info_label in
      ok (take tenant_id_length (encode_digest32 okm))

pub workload_subject : Hkdf → List ℕ → List ℕ → Result IdError (List ℕ)
unfolding trim_ascii
workload_subject hkdf secret identity =
    let trimmed = trim_ascii identity in
    if length secret == 0
    then err IdError.empty_secret
    else if length trimmed == 0
    then err IdError.empty_identity
    else if ltb max_identity (length trimmed)
    then err IdError.identity_too_long
    else let okm = hkdf trimmed secret workload_info_label in
      ok (take workload_subject_length (encode_digest32 okm))

pub device_id_from_canonical : Sha256 → List ℕ → List ℕ
device_id_from_canonical sha256 canonical =
    take device_id_length (encode_digest32 (sha256 canonical))
