-- ===== src/Ids/Derived.antt =====
-- modules/common/ids.rs: when an identifier is derived, and what it depends on.
use kagi.Base.{ℕ, ◌≤◌, ◌≡◌, List, ◌++◌, map, arith, length, take, length-take_le}
use kagi.Base.Outcome.{ok}
use kagi.B64.{encode_digest32}
use kagi.B64.Digest.{length-encode_digest32}
use kagi.Recovery.{Hkdf}
use kagi.Recovery.Redeeming.{Fills}
use kagi.Ids.{
  trim_ascii, to_ascii_lowercase, tenant_id, workload_subject, tenant_info_label,
  workload_info_label,
}
use kagi.Ids.Trimmed.{AreSpaces, trim_ascii_lem}

-- The text of a key: the first 22 characters of its base64url form.
abbrev pub short : List ℕ → List ℕ
short okm = take 22 (encode_digest32 okm)

module _ (hkdf : Hkdf) (secret : List ℕ) where
  length-short : (salt info : List ℕ) → Fills hkdf → length (short (hkdf salt secret info)) ≡ 22
  length-short salt info fills =
      let (size, octets) = fills salt secret info in
      let full = length-encode_digest32 (hkdf salt secret info) size octets in
      length-take_le 22 (encode_digest32 (hkdf salt secret info)) (omega arith)

  -- With an HKDF that fills its 32 octets, a secret, and an identity of 1 to 256 octets once trimmed,
  -- both derivations answer 22 characters. The tenant's folds the case of the salt and the workload's does not, and the labels
  -- differ. Whitespace around the identity changes neither.
  pub identifiers_lem :
      (identity front back : List ℕ)
      → Fills hkdf
      → 1 ≤ length secret
      → 1 ≤ length (trim_ascii identity)
      → length (trim_ascii identity) ≤ 256
      → AreSpaces front
      → AreSpaces back
      → let tenant =
          short (hkdf (map to_ascii_lowercase (trim_ascii identity)) secret tenant_info_label) in
        let subject = short (hkdf (trim_ascii identity) secret workload_info_label) in
        (tenant_id hkdf secret (front ++ (identity ++ back)) ≡ ok tenant)
        × (workload_subject hkdf secret (front ++ (identity ++ back)) ≡ ok subject)
        × (length tenant ≡ 22)
        × (length subject ≡ 22)
  unfolding tenant_id workload_subject
  identifiers_lem identity front back fills keyed some_left few hf hb =
      let same = (trim_ascii_lem front identity back hf hb).0 in
      (
        rw same (ground arith),
        rw same (ground arith),
        length-short (map to_ascii_lowercase (trim_ascii identity)) tenant_info_label fills,
        length-short (trim_ascii identity) workload_info_label fills,
      )
