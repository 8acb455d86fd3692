-- ===== src/OperationScope/Record.antt =====
-- modules/common/operation_scope.rs: the signed record of a scope. The keys known and the signature
-- check are parameters; `verify` gets the suite, the public key, the octets signed and the signature.
pub mod Authorized
pub mod Layout
pub mod Parsed
pub mod RoundTrip
use kagi.Base.{
  ℕ, ◌+◌, ◌-◌, Bool, not, ◌||◌, Option, none, some, List, [], ◌∷◌, ltb, ◌==◌, if◌then◌else◌, length,
  take, bytes_eq,
}
use kagi.Base.Bytes.{le_bytes, from_le, get_range}
use kagi.Base.Text.{codes}
use kagi.Base.Maybe.{◌>>=◌}
use kagi.Base.Outcome
use kagi.Base.Outcome.{Result, ok, err, ◌>>◌, refuse_if, ok_or}
use kagi.Base.Buffer.{put, put_parts}
use kagi.OperationScope.{Refusal, Scope, Ask, check, live_at, authorizes}
use kagi.OperationScope.Cursor.{read_take, read_uint, read_field, put_field}

abbrev pub magic : List ℕ
magic = codes "KSCP"

abbrev pub version : ℕ
version = 1

abbrev pub fixed_len : ℕ
fixed_len = 144

abbrev pub max_id : ℕ
max_id = 64

abbrev pub max_signature : ℕ
max_signature = 64

-- The writes of `Scope::write`.
abbrev pub scope_parts : Scope → List (List ℕ)
scope_parts s =
    magic
    ∷ le_bytes 1 version
    ∷ le_bytes 1 s.kind
    ∷ le_bytes 1 s.level
    ∷ le_bytes 1 s.actor_class
    ∷ le_bytes 4 s.ops
    ∷ le_bytes 4 s.region
    ∷ le_bytes 4 s.cell
    ∷ le_bytes 4 s.locality
    ∷ le_bytes 8 s.recovery_generation
    ∷ le_bytes 8 s.issued_ms
    ∷ le_bytes 8 s.expiry_ms
    ∷ s.actor
    ∷ s.tenant
    ∷ s.service
    ∷ s.object
    ∷ s.policy
    ∷ []

-- `rd_u32`, `rd_u64`, and an octet by its index.
abbrev pub uint_at : List ℕ → ℕ → ℕ → Option ℕ
uint_at b at n = get_range b at n >>= λ part. some (from_le part)

pub read_scope : List ℕ → Option Scope
read_scope b = do
  front ← get_range b 0 4
  byte ← uint_at b 4 1
  known ← if not (bytes_eq front magic) || not (byte == version) then none else some (tt {0})
  kind ← uint_at b 5 1
  level ← uint_at b 6 1
  actor_class ← uint_at b 7 1
  ops ← uint_at b 8 4
  region ← uint_at b 12 4
  cell ← uint_at b 16 4
  locality ← uint_at b 20 4
  recovery_generation ← uint_at b 24 8
  issued_ms ← uint_at b 32 8
  expiry_ms ← uint_at b 40 8
  actor ← get_range b 48 16
  tenant ← get_range b 64 16
  service ← get_range b 80 16
  object ← get_range b 96 16
  policy ← get_range b 112 32
  some (record {
    kind = kind;
    level = level;
    actor_class = actor_class;
    ops = ops;
    region = region;
    cell = cell;
    locality = locality;
    recovery_generation = recovery_generation;
    issued_ms = issued_ms;
    expiry_ms = expiry_ms;
    actor = actor;
    tenant = tenant;
    service = service;
    object = object;
    policy = policy;
  })

pub record Signer : Type 0 where
  pub issuer : List ℕ
  pub kid : List ℕ

-- `issuer.is_empty() || issuer.len() > MAX_ID`, and the same of the key's name.
abbrev pub names_refused : Signer → Bool
names_refused signer =
    length signer.issuer == 0
    || ltb max_id (length signer.issuer)
    || length signer.kid == 0
    || ltb max_id (length signer.kid)

abbrev pub signature_refused : List ℕ → Bool
signature_refused signature = length signature == 0 || ltb max_signature (length signature)

pub write_unsigned : ℕ → Scope → Signer → ℕ → Option (List ℕ)
unfolding put_parts put_field put
write_unsigned out_len s signer signature_suite =
    if names_refused signer
    then none
    else (put_parts out_len [] (scope_parts s) >>= λ fixed.
        put_field 1 out_len fixed signer.issuer >>= λ named.
        put_field 1 out_len named signer.kid >>= λ keyed.
        put out_len keyed (le_bytes 2 signature_suite))

-- The octets that stand in the buffer before the signature are `unsigned`.
pub append_signature : ℕ → List ℕ → List ℕ → Option (List ℕ)
unfolding put_field
append_signature out_len unsigned signature =
    if signature_refused signature
    then none
    else if ltb out_len (length unsigned)
    then none
    else put_field 2 out_len unsigned signature

pub record Record : Type 0 where
  pub scope : Scope
  pub signer : Signer
  pub signature_suite : ℕ
  pub signature : List ℕ
  pub signed : List ℕ

-- The position of a reader that has `rest` left of `b`.
abbrev pub position : List ℕ → List ℕ → ℕ
position b rest = length b - length rest

pub parse : List ℕ → Result Refusal Record
unfolding read_scope read_take read_field read_uint
parse b = Outcome.◌>>=◌ (ok_or (read_scope b) Refusal.malformed) λ scope.
    Outcome.◌>>=◌ (ok_or (read_take fixed_len b) Refusal.malformed) λ (fixed, rest).
      Outcome.◌>>=◌ (ok_or (read_field 1 rest) Refusal.malformed) λ (issuer, rest).
        Outcome.◌>>=◌ (ok_or (read_field 1 rest) Refusal.malformed) λ (kid, rest).
          refuse_if (names_refused (record { issuer = issuer; kid = kid })) Refusal.malformed
          >> Outcome.◌>>=◌ (ok_or (read_uint 2 rest) Refusal.malformed)
              λ (signature_suite, unsigned).
                Outcome.◌>>=◌ (ok_or (read_field 2 unsigned) Refusal.malformed) λ (signature, rest).
                  refuse_if (not (length rest == 0) || signature_refused signature)
                    Refusal.malformed
                  >> ok (record {
                    scope = scope;
                    signer = record { issuer = issuer; kid = kid };
                    signature_suite = signature_suite;
                    signature = signature;
                    signed = take (position b unsigned) b;
                  })

abbrev pub Lookup : Type 0
Lookup = List ℕ → List ℕ → Option (ℕ × List ℕ)

abbrev pub VerifyFn : Type 0
VerifyFn = ℕ → List ℕ → List ℕ → List ℕ → Bool

unfoldable pub verify_record : Record → Lookup → VerifyFn → ℕ → Result Refusal (Unit {0})
unfolding check live_at
verify_record r lookup verify now_ms =
    check r.scope
    >> Outcome.◌>>=◌ (ok_or (lookup r.signer.issuer r.signer.kid) Refusal.unknown_key)
        λ (suite, public).
          refuse_if
            (not (r.signature_suite == suite) || not (verify suite public r.signed r.signature))
            Refusal.bad_signature
          >> live_at r.scope now_ms

unfoldable pub authorize_record : Record → Lookup → VerifyFn → ℕ → Ask → Result Refusal Scope
unfolding verify_record authorizes
authorize_record r lookup verify now_ms ask =
    verify_record r lookup verify now_ms >> (authorizes r.scope ask >> ok r.scope)
