-- ===== src/TransferGrant.antt =====
-- modules/common/transfer_grant.rs: the grant that moves one connection's secrets to a standby.
pub mod Record
pub mod Ledger
pub mod Service
pub mod Reply
pub mod Wrapped
mod Examples
use kagi.Base.{
  ℕ, ◌+◌, ◌-◌, ◌^◌, min, Bool, true, false, not, ◌||◌, ◌&&◌, List, [], ltb, leb, ◌==◌,
  if◌then◌else◌, replicate, bytes_eq,
}
use kagi.Base.Outcome.{Result, ok, err, ◌>>◌, refuse_if}

abbrev pub transfer_grant_ttl_ms : ℕ
transfer_grant_ttl_ms = 30000

abbrev pub skew_ms : ℕ
skew_ms = 5000

abbrev pub inbound : ℕ
inbound = 1

abbrev pub outbound : ℕ
outbound = 2

abbrev pub both_ways : ℕ
both_ways = 3

abbrev pub valid_direction : ℕ → Bool
valid_direction d = d == inbound || d == outbound || d == both_ways

pub data Refusal : Type 0 where
  malformed not_authenticated not_source destination_mismatch attestation_required
        attestation_insufficient :
      Refusal
  attestation_invalid wrong_recipient expired replayed invalidated unknown_grant : Refusal
  bad_signature unknown_key no_issuer_key ledger_unavailable conflict no_clock : Refusal
  busy not_operator generation_not_advanced window_invalid not_this_transfer : Refusal

pub refusal_code : Refusal → ℕ
refusal_code Refusal.malformed = 1
refusal_code Refusal.not_authenticated = 2
refusal_code Refusal.not_source = 3
refusal_code Refusal.destination_mismatch = 4
refusal_code Refusal.attestation_required = 5
refusal_code Refusal.attestation_insufficient = 6
refusal_code Refusal.attestation_invalid = 7
refusal_code Refusal.wrong_recipient = 8
refusal_code Refusal.expired = 9
refusal_code Refusal.replayed = 10
refusal_code Refusal.invalidated = 11
refusal_code Refusal.unknown_grant = 12
refusal_code Refusal.bad_signature = 13
refusal_code Refusal.unknown_key = 14
refusal_code Refusal.no_issuer_key = 15
refusal_code Refusal.ledger_unavailable = 16
refusal_code Refusal.conflict = 17
refusal_code Refusal.no_clock = 18
refusal_code Refusal.busy = 19
refusal_code Refusal.not_operator = 20
refusal_code Refusal.generation_not_advanced = 21
refusal_code Refusal.window_invalid = 22
refusal_code Refusal.not_this_transfer = 23

pub record Grant : Type 0 where
  pub key_use : ℕ
  pub direction : ℕ
  pub custody : ℕ
  pub proven_tier : ℕ
  pub algorithm : ℕ
  pub traffic_epoch : ℕ
  pub target_epoch : ℕ
  pub issued_ms : ℕ
  pub expiry_ms : ℕ
  pub generation : ℕ
  pub service : List ℕ
  pub flow : List ℕ
  pub session : List ℕ
  pub source : List ℕ
  pub destination : List ℕ
  pub anchor : List ℕ
  pub nonce : List ℕ
  pub recipient : List ℕ
  pub policy : List ℕ

-- The window is ordered and no longer than the profile allows.
unfoldable pub check : Grant → Result Refusal (Unit {0})
check g =
    refuse_if (not (valid_direction g.direction) || g.algorithm == 0 || g.key_use == 0)
      Refusal.malformed
    >> refuse_if
        (leb g.expiry_ms g.issued_ms || ltb transfer_grant_ttl_ms (g.expiry_ms - g.issued_ms))
        Refusal.window_invalid

-- `now_ms.saturating_add(SKEW_MS)` on a `u64`.
abbrev pub saturating_add : ℕ → ℕ → ℕ
saturating_add a b = min (a + b) (2 ^ 64 - 1)

unfoldable pub live_at : Grant → ℕ → Result Refusal (Unit {0})
live_at g now_ms =
    refuse_if (now_ms == 0) Refusal.no_clock
    >> refuse_if (leb g.expiry_ms now_ms) Refusal.expired
    >> refuse_if (ltb (saturating_add now_ms skew_ms) g.issued_ms) Refusal.window_invalid

pub record Wrap : Type 0 where
  pub service : List ℕ
  pub flow : List ℕ
  pub session : List ℕ
  pub source : List ℕ
  pub destination : List ℕ
  pub anchor : List ℕ
  pub recipient : List ℕ
  pub target_epoch : ℕ
  pub traffic_epoch : ℕ
  pub algorithm : ℕ
  pub key_use : ℕ
  pub direction : ℕ

abbrev pub covers_direction : ℕ → ℕ → Bool
covers_direction granted wrapped =
    valid_direction wrapped && (granted == wrapped || granted == both_ways)

abbrev pub same_transfer : Grant → Wrap → Bool
same_transfer g wrap =
    bytes_eq g.service wrap.service
    && bytes_eq g.flow wrap.flow
    && bytes_eq g.session wrap.session
    && bytes_eq g.source wrap.source
    && bytes_eq g.destination wrap.destination
    && bytes_eq g.anchor wrap.anchor
    && g.target_epoch == wrap.target_epoch
    && g.traffic_epoch == wrap.traffic_epoch
    && g.algorithm == wrap.algorithm
    && g.key_use == wrap.key_use
    && bytes_eq g.recipient wrap.recipient

unfoldable pub authorizes : Grant → Wrap → Result Refusal (Unit {0})
authorizes g wrap =
    if same_transfer g wrap && covers_direction g.direction wrap.direction
    then ok tt
    else err Refusal.not_this_transfer
