-- ===== src/CarrierAuth.antt =====
-- modules/common/carrier_auth.rs: who presents a carrier, and the window of carriers already
-- presented. What verifies a carrier (modules/common/cert_bound_identity.rs) and what reads a leaf
-- (modules/common/x509_leaf.rs) are parameters; names are read by Spiffe.
pub mod Slots
pub mod Fresh
pub mod Window
pub mod Presented
pub mod Admission
mod Examples
use kagi.Base.{
  ℕ, zero, suc, ◌+◌, Bool, true, false, not, ◌||◌, ◌&&◌, Option, none, some, List, [], ◌∷◌, map,
  ltb, leb, ◌==◌, if◌then◌else◌, length, set, replicate, bytes_eq,
}
use kagi.Base.Maybe.{◌>>=◌, ◌>>◌, require}
use kagi.Base.Outcome.{Result, ok, err}
use kagi.Pkce.{Sha256}
use kagi.Spiffe.{Class, class_code, Identity, parse}

abbrev pub svid_len : ℕ
svid_len = 32

-- `CARRIER_JTI_MAX`
abbrev pub replay_id_max : ℕ
replay_id_max = 48

pub data AuthError : Type 0 where
  no_anchor carrier peer_mismatch name replayed_carrier : AuthError

pub record Caller : Type 0 where
  pub class : ℕ
  pub id : List ℕ
  pub svid : List ℕ

-- `id` is the first `len` octets of the code's array.
pub record Seen : Type 0 where
  pub id : List ℕ
  pub expires_at : ℕ

abbrev pub empty_slot : Seen
empty_slot = record { id = []; expires_at = 0 }

pub record Trust : Type 0 where
  pub anchor : List ℕ
  pub audience : List ℕ
  pub trust_domain : List ℕ

abbrev pub new_window : ℕ → List Seen
new_window n = replicate n empty_slot

abbrev pub is_nil : List ℕ → Bool
is_nil [] = true
is_nil (x ∷ xs) = false

abbrev pub expired_slot : ℕ → Seen → Seen
expired_slot now slot =
    if not (is_nil (slot.id)) && leb (slot.expires_at) now then empty_slot else slot

pub expire : ℕ → List Seen → List Seen
expire now [] = []
expire now (slot ∷ seen) = expired_slot now slot ∷ expire now seen

pub was_seen : List ℕ → List Seen → Bool
was_seen id [] = false
was_seen id (slot ∷ seen) = (not (is_nil (slot.id)) && bytes_eq (slot.id) id) || was_seen id seen

abbrev pub slot_key : Seen → ℕ
slot_key slot = if is_nil (slot.id) then 0 else slot.expires_at

-- The place of the first least key, `best` being the least key before, at `place`.
pub min_from : ℕ → ℕ → ℕ → List Seen → ℕ
min_from place best i [] = place
min_from place best i (slot ∷ seen) =
    let here = min_from i (slot_key slot) (suc i) seen in
    let before = min_from place best (suc i) seen in
    if ltb (slot_key slot) best then here else before

-- The entry takes the place that `min_by_key` chooses.
pub remember : Seen → List Seen → List Seen
unfolding min_from
remember entry [] = []
remember entry (slot ∷ seen) = set (slot ∷ seen) (min_from 0 (slot_key slot) 1 seen) entry

pub replayed : List Seen → List ℕ → ℕ → ℕ → Bool × List Seen
unfolding expire was_seen remember
replayed seen id expires_at now =
    if is_nil id || ltb replay_id_max (length id)
    then (true, seen)
    else if was_seen id (expire now seen)
    then (true, expire now seen)
    else (false, remember (record { id = id; expires_at = expires_at }) (expire now seen))

-- `CertBoundIdentity`, as far as it is used here.
pub record Bound : Type 0 where
  pub svid : List ℕ
  pub spiffe : List ℕ
  pub replay_id : List ℕ
  pub expires_at : ℕ

-- `CarrierPolicy`
pub record Policy : Type 0 where
  pub anchor_der : List ℕ
  pub audience : List ℕ
  pub now_unix_secs : ℕ
  pub require_clock : Bool

abbrev pub policy_of : Trust → ℕ → Policy
policy_of trust now = record {
  anchor_der = trust.anchor;
  audience = trust.audience;
  now_unix_secs = now;
  require_clock = true;
}

abbrev pub mismatches : Option (List ℕ) → List ℕ → Bool
mismatches none svid = false
mismatches (some peer) svid = not (bytes_eq peer svid)

unfoldable pub caller_of : Identity → List ℕ → Caller
unfolding class_code
caller_of who svid = record { class = class_code (who.class); id = who.id; svid = svid }

abbrev pub answered : Bool × List Seen → Caller → Result AuthError Caller × List Seen
answered (true, seen) caller = (err AuthError.replayed_carrier, seen)
answered (false, seen) caller = (ok caller, seen)

abbrev pub named_caller :
    List Seen → Bound → Option Identity → ℕ → Result AuthError Caller × List Seen
unfolding replayed
named_caller seen bound none now = (err AuthError.name, seen)
named_caller seen bound (some who) now =
    answered (replayed seen (bound.replay_id) (bound.expires_at) now) (caller_of who (bound.svid))

abbrev pub verified_caller :
    Sha256
    → Trust
    → List Seen
    → Option (List ℕ)
    → ℕ
    → Option Bound
    → Result AuthError Caller × List Seen
unfolding parse replayed
verified_caller sha256 trust seen peer now none = (err AuthError.carrier, seen)
verified_caller sha256 trust seen peer now (some bound) =
    if mismatches peer (bound.svid)
    then (err AuthError.peer_mismatch, seen)
    else named_caller seen bound (parse sha256 (bound.spiffe) (trust.trust_domain)) now

pub authenticate :
    Sha256
    → (Policy → List ℕ → Option Bound)
    → Trust
    → List Seen
    → List ℕ
    → Option (List ℕ)
    → ℕ
    → Result AuthError Caller × List Seen
unfolding parse replayed
authenticate sha256 verify trust seen bytes peer now =
    if is_nil (trust.anchor)
    then (err AuthError.no_anchor, seen)
    else verified_caller sha256 trust seen peer now (verify (policy_of trust now) bytes)

-- What is read from a leaf.
pub record Leaf : Type 0 where
  pub suite : ℕ
  pub public : List ℕ
  pub not_before : ℕ
  pub not_after : ℕ
  pub san_uri : List ℕ

-- The key is what the code copies into `out`, 65 octets long; the answer is its suite and length.
pub identity_leaf_key :
    Sha256
    → (List ℕ → Option Leaf)
    → (List ℕ → Option (ℕ × List ℕ))
    → (List ℕ → ℕ → List ℕ → Bool)
    → Trust
    → List ℕ
    → ℕ
    → List ℕ
    → ℕ
    → Option (ℕ × List ℕ)
unfolding parse class_code
identity_leaf_key sha256 parse_leaf anchor_of signed_by trust leaf class id now = do
  parsed ← parse_leaf leaf
  (anchor_suite, anchor_public) ← anchor_of (trust.anchor)
  require (signed_by leaf anchor_suite anchor_public)
  require (not (ltb now (parsed.not_before) || leb (parsed.not_after) now))
  who ← parse sha256 (parsed.san_uri) (trust.trust_domain)
  require (class_code (who.class) == class && bytes_eq (who.id) id)
  require (leb (length (parsed.public)) 65)
  some (parsed.suite, parsed.public)
