-- ===== src/OperationScope/Mint.antt =====
-- modules/common/operation_scope.rs: the request for a scope, its wire form, and the decision on it.
pub mod RoundTrip
pub mod Minted
use kagi.Base.{
  ℕ, ◌+◌, Bool, Option, none, some, List, [], ◌∷◌, max, min, ◌==◌, ◌||◌, not, if◌then◌else◌, length,
}
use kagi.Base.Bytes.{le_bytes}
use kagi.Base.Maybe
use kagi.Base.Outcome.{Result, ok, err, ◌>>=◌, ◌>>◌, refuse_if, ok_or}
use kagi.Base.Buffer.{put_parts}
use kagi.OperationScope.{Refusal, Scope, check, max_window_ms, saturating_add}
use kagi.OperationScope.Cursor.{read_take, read_uint, read_field, put_field}

pub record MintRequest : Type 0 where
  pub kind : ℕ
  pub level : ℕ
  pub ops : ℕ
  pub region : ℕ
  pub cell : ℕ
  pub locality : ℕ
  pub recovery_generation : ℕ
  pub tenant : List ℕ
  pub service : List ℕ
  pub object : List ℕ
  pub ttl_ms : ℕ
  pub policy : List ℕ
  pub carrier : List ℕ

-- The writes before the carrier's.
abbrev pub request_parts : MintRequest → List (List ℕ)
request_parts r =
    le_bytes 1 r.kind
    ∷ le_bytes 1 r.level
    ∷ le_bytes 4 r.ops
    ∷ le_bytes 4 r.region
    ∷ le_bytes 4 r.cell
    ∷ le_bytes 4 r.locality
    ∷ le_bytes 8 r.recovery_generation
    ∷ r.tenant
    ∷ r.service
    ∷ r.object
    ∷ le_bytes 4 r.ttl_ms
    ∷ r.policy
    ∷ []

pub encode_request : MintRequest → ℕ → Option (List ℕ)
unfolding put_parts put_field
encode_request r out_len =
    Maybe.◌>>=◌ (put_parts out_len [] (request_parts r))
      λ fixed. put_field 2 out_len fixed r.carrier

pub decode_request : List ℕ → Result Refusal MintRequest
unfolding read_take read_uint read_field
decode_request b = do
  (kind, rest) ← ok_or (read_uint 1 b) Refusal.malformed
  (level, rest) ← ok_or (read_uint 1 rest) Refusal.malformed
  (ops, rest) ← ok_or (read_uint 4 rest) Refusal.malformed
  (region, rest) ← ok_or (read_uint 4 rest) Refusal.malformed
  (cell, rest) ← ok_or (read_uint 4 rest) Refusal.malformed
  (locality, rest) ← ok_or (read_uint 4 rest) Refusal.malformed
  (recovery_generation, rest) ← ok_or (read_uint 8 rest) Refusal.malformed
  (tenant, rest) ← ok_or (read_take 16 rest) Refusal.malformed
  (service, rest) ← ok_or (read_take 16 rest) Refusal.malformed
  (object, rest) ← ok_or (read_take 16 rest) Refusal.malformed
  (ttl_ms, rest) ← ok_or (read_uint 4 rest) Refusal.malformed
  (policy, rest) ← ok_or (read_take 32 rest) Refusal.malformed
  (carrier, rest) ← ok_or (read_field 2 rest) Refusal.malformed
  refuse_if (not (length rest == 0) || length carrier == 0) Refusal.malformed
  ok (record {
    kind = kind;
    level = level;
    ops = ops;
    region = region;
    cell = cell;
    locality = locality;
    recovery_generation = recovery_generation;
    tenant = tenant;
    service = service;
    object = object;
    ttl_ms = ttl_ms;
    policy = policy;
    carrier = carrier;
  })

-- The scope to sign, with the authenticated class and identity.
abbrev pub scope_for : MintRequest → ℕ → List ℕ → ℕ → Scope
scope_for r actor_class actor now_ms = record {
  kind = r.kind;
  level = r.level;
  actor_class = actor_class;
  ops = r.ops;
  region = r.region;
  cell = r.cell;
  locality = r.locality;
  recovery_generation = r.recovery_generation;
  issued_ms = now_ms;
  expiry_ms = saturating_add now_ms (min (max r.ttl_ms 1) max_window_ms);
  actor = actor;
  tenant = r.tenant;
  service = r.service;
  object = r.object;
  policy = r.policy;
}

unfoldable pub decide_mint : MintRequest → Option (ℕ × List ℕ) → ℕ → Result Refusal Scope
unfolding check
decide_mint r requester now_ms = do
  refuse_if (now_ms == 0) Refusal.no_clock
  (actor_class, actor) ← ok_or requester Refusal.not_authenticated
  let s = scope_for r actor_class actor now_ms
  check s
  ok s
