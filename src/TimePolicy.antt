-- ===== src/TimePolicy.antt =====
-- modules/common/time_policy.rs: which credential decisions may proceed on which clock.
-- A record of the kernel's clock is a byte string; a byte is a number below 256.
pub mod Refusals
mod Examples
use kagi.Base.{
  ℕ, ◌+◌, Bool, true, false, not, ◌&&◌, Option, none, some, List, bit_and, ltb, ◌==◌, if◌then◌else◌,
  length, take, drop, get_elem?,
}
use kagi.Base.Bytes.{from_le}
use kagi.Base.Maybe.{◌>>=◌}

-- The offsets into the record, and its length.
abbrev pub off_unix_seconds : ℕ
off_unix_seconds = 0

abbrev pub off_uncertainty_ms : ℕ
off_uncertainty_ms = 12

abbrev pub off_monotonic_us : ℕ
off_monotonic_us = 16

abbrev pub off_source_epoch : ℕ
off_source_epoch = 24

abbrev pub off_source_class : ℕ
off_source_class = 32

abbrev pub off_flags : ℕ
off_flags = 33

abbrev pub record_len : ℕ
record_len = 34

abbrev pub source_unavailable : ℕ
source_unavailable = 0

abbrev pub flag_trusted : ℕ
flag_trusted = 0x02

abbrev pub flag_rollback_suspect : ℕ
flag_rollback_suspect = 0x04

pub record Observation : Type 0 where
  pub unix_seconds : ℕ
  pub uncertainty_ms : ℕ
  pub monotonic_us : ℕ
  pub source_epoch : ℕ
  pub source_class : ℕ
  pub flags : ℕ

-- `rec[at]`, at a position that `decode` has checked.
abbrev pub index : List ℕ → ℕ → ℕ
index rec at = from_le (take 1 (drop at rec))

-- The fields of a record that is long enough.
abbrev pub observe : List ℕ → Observation
observe rec = record {
  unix_seconds = from_le (take 8 (drop off_unix_seconds rec));
  uncertainty_ms = from_le (take 4 (drop off_uncertainty_ms rec));
  monotonic_us = from_le (take 8 (drop off_monotonic_us rec));
  source_epoch = from_le (take 8 (drop off_source_epoch rec));
  source_class = index rec off_source_class;
  flags = index rec off_flags;
}

pub decode : List ℕ → Option Observation
decode rec = if ltb (length rec) record_len then none else some (observe rec)

pub is_trustworthy : Observation → Bool
is_trustworthy o =
    not (o.source_class == source_unavailable)
    && not (bit_and o.flags flag_trusted == 0)
    && bit_and o.flags flag_rollback_suspect == 0

pub data Requirement : Type 0 where
  trusted_wall_clock monotonic_duration signed_observation_accepted : Requirement

pub data Decision : Type 0 where
  credential_window proof_freshness certificate_validity enrolment_ceremony : Decision
  key_retirement replay_record_expiry rate_limit_bucket : Decision

pub requirement : Decision → Requirement
requirement Decision.credential_window = Requirement.trusted_wall_clock
requirement Decision.certificate_validity = Requirement.trusted_wall_clock
requirement Decision.key_retirement = Requirement.trusted_wall_clock
requirement Decision.rate_limit_bucket = Requirement.trusted_wall_clock
requirement Decision.proof_freshness = Requirement.monotonic_duration
requirement Decision.replay_record_expiry = Requirement.monotonic_duration
requirement Decision.enrolment_ceremony = Requirement.signed_observation_accepted

abbrev permits_under : Requirement → Observation → Bool
permits_under Requirement.trusted_wall_clock o = is_trustworthy o
permits_under Requirement.monotonic_duration o = true
permits_under Requirement.signed_observation_accepted o = true

pub permits : Decision → Observation → Bool
permits decision o = permits_under (requirement decision) o

pub now_for : Decision → List ℕ → Option ℕ
now_for decision trusted_unix = do
  obs ← decode trusted_unix
  if not (permits decision obs) then none else some obs.unix_seconds
