-- ===== src/OperationScope.antt =====
-- modules/common/operation_scope.rs: the scope that an actor may hold, and what it covers.
-- An octet is a number below 256, and the `u32` and `u64` fields are numbers below 2^32 and 2^64.
pub mod Kind
pub mod Level
pub mod Class
pub mod Cursor
pub mod Record
pub mod Mint
pub mod Privilege
pub mod Reply
mod Examples
use kagi.Base.{
  ℕ, ◌+◌, ◌-◌, Bool, true, false, not, ◌&&◌, ◌||◌, List, bit_and, ltb, leb, min, ◌==◌,
  if◌then◌else◌, replicate, bytes_eq,
}
use kagi.OperationScope.Kind
use kagi.OperationScope.Level
use kagi.OperationScope.Class
use kagi.Base.Bits.Digit.{complement}
use kagi.Base.Outcome.{Result, ok, err, ◌>>◌, refuse_if}

pub valid_kind : ℕ → Bool
valid_kind k =
    k == Kind.dial
    || k == Kind.chain
    || k == Kind.prefix
    || k == Kind.failure_domain
    || k == Kind.dr_intent
    || k == Kind.fence

-- The masks are written as numbers: `ALL` of five operations is 31, of four 15 and of two 3.
pub ceiling : ℕ → ℕ → ℕ
ceiling scope_kind actor_class =
    if scope_kind == Kind.dial && (actor_class == Class.operator || actor_class == Class.service)
    then 0b11111
    else if scope_kind == Kind.failure_domain && actor_class == Class.operator
    then 0b10111
    else if scope_kind == Kind.failure_domain && actor_class == Class.service
    then 0b11000
    else if scope_kind == Kind.prefix && actor_class == Class.operator
    then 0b11111
    else if scope_kind == Kind.chain
        && (actor_class == Class.operator || actor_class == Class.service)
    then 0b1111
    else if scope_kind == Kind.prefix && actor_class == Class.service
    then 0b11110
    else if scope_kind == Kind.chain && actor_class == Class.workload
    then 0b11
    else if scope_kind == Kind.dr_intent && actor_class == Class.operator
    then 0b11111
    else if scope_kind == Kind.dr_intent && actor_class == Class.service
    then 0b11
    else if scope_kind == Kind.fence && actor_class == Class.service
    then 0b11
    else if scope_kind == Kind.fence && actor_class == Class.host
    then 0b1
    else 0

abbrev pub fence_confirm : ℕ
fence_confirm = 1

abbrev pub fence_regional_confirm : ℕ
fence_regional_confirm = 2

pub level_permits : ℕ → ℕ → ℕ → Bool
level_permits scope_kind ops at =
    if scope_kind == Kind.dr_intent
    then at == Level.global
    else if scope_kind == Kind.fence
    then (if ops == fence_regional_confirm
        then at == Level.global
        else if ops == fence_confirm
        then at == Level.cell || at == Level.region
        else false)
    else if scope_kind == Kind.dial || scope_kind == Kind.failure_domain || scope_kind == Kind.chain
    then at == Level.cell || at == Level.region
    else if scope_kind == Kind.prefix
    then at == Level.region || at == Level.global
    else false

abbrev pub max_window_ms : ℕ
max_window_ms = 3600000

abbrev pub skew_ms : ℕ
skew_ms = 60000

abbrev pub u64_max : ℕ
u64_max = 0xFFFFFFFFFFFFFFFF

abbrev pub saturating_add : ℕ → ℕ → ℕ
saturating_add a b = min (a + b) u64_max

pub data Refusal : Type 0 where
  malformed not_authenticated unknown_kind not_permitted level_invalid window_invalid : Refusal
  expired not_yet_valid bad_signature unknown_key no_issuer_key no_clock replayed out_of_scope :
      Refusal

pub record Scope : Type 0 where
  pub kind : ℕ
  pub level : ℕ
  pub actor_class : ℕ
  pub ops : ℕ
  pub region : ℕ
  pub cell : ℕ
  pub locality : ℕ
  pub recovery_generation : ℕ
  pub issued_ms : ℕ
  pub expiry_ms : ℕ
  pub actor : List ℕ
  pub tenant : List ℕ
  pub service : List ℕ
  pub object : List ℕ
  pub policy : List ℕ

pub record Ask : Type 0 where
  pub kind : ℕ
  pub ops : ℕ
  pub actor_class : ℕ
  pub actor : List ℕ
  pub tenant : List ℕ
  pub service : List ℕ
  pub object : List ℕ

abbrev pub zero_id : List ℕ
zero_id = replicate 16 0

-- `ops & !limit != 0`
abbrev pub exceeds : ℕ → ℕ → Bool
exceeds ops limit = not (bit_and ops (complement 32 limit) == 0)

pub check : Scope → Result Refusal (Unit {0})
unfolding valid_kind ceiling level_permits
check s = do
  refuse_if (not (valid_kind s.kind)) Refusal.unknown_kind
  refuse_if (s.ops == 0 || exceeds s.ops (ceiling s.kind s.actor_class)) Refusal.not_permitted
  refuse_if (not (level_permits s.kind s.ops s.level)) Refusal.level_invalid
  refuse_if (bytes_eq s.actor zero_id || bytes_eq s.object zero_id) Refusal.malformed
  refuse_if (leb s.expiry_ms s.issued_ms || ltb max_window_ms (s.expiry_ms - s.issued_ms))
      Refusal.window_invalid

pub live_at : Scope → ℕ → Result Refusal (Unit {0})
live_at s now_ms = do
  refuse_if (now_ms == 0) Refusal.no_clock
  refuse_if (leb s.expiry_ms now_ms) Refusal.expired
  refuse_if (ltb (saturating_add now_ms skew_ms) s.issued_ms) Refusal.not_yet_valid

pub authorizes : Scope → Ask → Result Refusal (Unit {0})
authorizes s ask =
    if s.kind == ask.kind
      && not (ask.ops == 0)
      && not (exceeds ask.ops s.ops)
      && s.actor_class == ask.actor_class
      && bytes_eq s.actor ask.actor
      && bytes_eq s.tenant ask.tenant
      && bytes_eq s.service ask.service
      && bytes_eq s.object ask.object
    then ok tt
    else err Refusal.out_of_scope
