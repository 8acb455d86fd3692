-- ===== src/TransferGrant/Record.antt =====
-- modules/common/transfer_grant.rs: the signed record of a grant. The keys known and the signature
-- check are parameters; `verify` gets the suite, the public key, the octets signed and the signature.
use kagi.Base.{
  ℕ, ◌-◌, Bool, not, ◌||◌, Option, none, some, List, [], ◌∷◌, ltb, ◌==◌, if◌then◌else◌, length,
  take, bytes_eq,
}
use kagi.Base.Bytes.{le_bytes, from_le, get_range}
use kagi.Base.Text.{codes}
use kagi.Base.Maybe.{◌>>=◌}
use kagi.Base.Outcome
use kagi.Base.Outcome.{Result, ok, err, ◌>>◌, refuse_if, ok_or}
use kagi.Base.Buffer.{put, put_parts}
use kagi.OperationScope.Cursor.{read_take, read_uint, read_field, put_field}
use kagi.TransferGrant.{Refusal, Grant, Wrap, check, live_at, authorizes}

abbrev pub magic : List ℕ
magic = codes "KTGR"

abbrev pub version : ℕ
version = 1

abbrev pub fixed_len : ℕ
fixed_len = 216

abbrev pub max_id : ℕ
max_id = 64

abbrev pub max_signature : ℕ
max_signature = 64

-- The writes of `Grant::write`.
abbrev pub grant_parts : Grant → List (List ℕ)
grant_parts g =
    magic
    ∷ le_bytes 1 version
    ∷ le_bytes 1 g.key_use
    ∷ le_bytes 1 g.direction
    ∷ le_bytes 1 g.custody
    ∷ le_bytes 1 g.proven_tier
    ∷ le_bytes 1 0
    ∷ le_bytes 2 g.algorithm
    ∷ le_bytes 4 g.traffic_epoch
    ∷ le_bytes 8 g.target_epoch
    ∷ le_bytes 8 g.issued_ms
    ∷ le_bytes 8 g.expiry_ms
    ∷ le_bytes 8 g.generation
    ∷ g.service
    ∷ g.flow
    ∷ g.session
    ∷ g.source
    ∷ g.destination
    ∷ g.anchor
    ∷ g.nonce
    ∷ g.recipient
    ∷ g.policy
    ∷ []

-- `rd_u16`, `rd_u32`, `rd_u64`, and an octet by its index.
abbrev pub uint_at : List ℕ → ℕ → ℕ → Option ℕ
uint_at b at n = get_range b at n >>= λ part. some (from_le part)

pub read_grant : List ℕ → Option Grant
read_grant b = do
  front ← get_range b 0 4
  byte ← uint_at b 4 1
  reserved ← uint_at b 9 1
  known ←
      if not (bytes_eq front magic) || not (byte == version) || not (reserved == 0)
      then none
      else some (tt {0})
  key_use ← uint_at b 5 1
  direction ← uint_at b 6 1
  custody ← uint_at b 7 1
  proven_tier ← uint_at b 8 1
  algorithm ← uint_at b 10 2
  traffic_epoch ← uint_at b 12 4
  target_epoch ← uint_at b 16 8
  issued_ms ← uint_at b 24 8
  expiry_ms ← uint_at b 32 8
  generation ← uint_at b 40 8
  service ← get_range b 48 16
  flow ← get_range b 64 16
  session ← get_range b 80 16
  source ← get_range b 96 16
  destination ← get_range b 112 16
  anchor ← get_range b 128 8
  nonce ← get_range b 136 16
  recipient ← get_range b 152 32
  policy ← get_range b 184 32
  some (record {
    key_use = key_use;
    direction = direction;
    custody = custody;
    proven_tier = proven_tier;
    algorithm = algorithm;
    traffic_epoch = traffic_epoch;
    target_epoch = target_epoch;
    issued_ms = issued_ms;
    expiry_ms = expiry_ms;
    generation = generation;
    service = service;
    flow = flow;
    session = session;
    source = source;
    destination = destination;
    anchor = anchor;
    nonce = nonce;
    recipient = recipient;
    policy = policy;
  })

pub record Signer : Type 0 where
  pub issuer : List ℕ
  pub kid : List ℕ

abbrev pub names_refused : Signer → Bool
names_refused signer =
    length signer.issuer == 0
    || ltb max_id (length signer.issuer)
    || length signer.kid == 0
    || ltb max_id (length signer.kid)

abbrev pub signature_refused : List ℕ → Bool
signature_refused signature = length signature == 0 || ltb max_signature (length signature)

unfoldable pub write_unsigned : ℕ → Grant → Signer → ℕ → Option (List ℕ)
unfolding put_parts put_field put
write_unsigned out_len g signer signature_suite =
    if names_refused signer
    then none
    else (put_parts out_len [] (grant_parts g) >>= λ fixed.
        put_field 1 out_len fixed signer.issuer >>= λ named.
        put_field 1 out_len named signer.kid >>= λ keyed.
        put out_len keyed (le_bytes 2 signature_suite))

-- The octets that stand in the buffer before the signature are `unsigned`.
unfoldable pub append_signature : ℕ → List ℕ → List ℕ → Option (List ℕ)
unfolding put_field
append_signature out_len unsigned signature =
    if signature_refused signature
    then none
    else if ltb out_len (length unsigned)
    then none
    else put_field 2 out_len unsigned signature

pub record Record : Type 0 where
  pub grant : Grant
  pub signer : Signer
  pub signature_suite : ℕ
  pub signature : List ℕ
  pub signed : List ℕ

unfoldable pub parse : List ℕ → Result Refusal Record
unfolding read_grant read_take read_field read_uint
parse b = Outcome.◌>>=◌ (ok_or (read_grant b) Refusal.malformed) λ grant.
    Outcome.◌>>=◌ (ok_or (read_take fixed_len b) Refusal.malformed) λ (fixed, rest).
      Outcome.◌>>=◌ (ok_or (read_field 1 rest) Refusal.malformed) λ (issuer, rest).
        Outcome.◌>>=◌ (ok_or (read_field 1 rest) Refusal.malformed) λ (kid, rest).
          refuse_if (names_refused (record { issuer = issuer; kid = kid })) Refusal.malformed
          >> Outcome.◌>>=◌ (ok_or (read_uint 2 rest) Refusal.malformed)
              λ (signature_suite, unsigned).
                Outcome.◌>>=◌ (ok_or (read_field 2 unsigned) Refusal.malformed) λ (signature, rest).
                  refuse_if (not (length rest == 0) || signature_refused signature)
                    Refusal.malformed
                  >> ok (record {
                    grant = grant;
                    signer = record { issuer = issuer; kid = kid };
                    signature_suite = signature_suite;
                    signature = signature;
                    signed = take (length b - length unsigned) b;
                  })

abbrev pub Lookup : Type 0
Lookup = List ℕ → List ℕ → Option (ℕ × List ℕ)

abbrev pub VerifyFn : Type 0
VerifyFn = ℕ → List ℕ → List ℕ → List ℕ → Bool

unfoldable pub verify_record : Record → Lookup → VerifyFn → ℕ → Result Refusal (Unit {0})
unfolding check live_at
verify_record r lookup verify now_ms =
    check r.grant
    >> Outcome.◌>>=◌ (ok_or (lookup r.signer.issuer r.signer.kid) Refusal.unknown_key)
        λ (suite, public).
          refuse_if
            (not (r.signature_suite == suite) || not (verify suite public r.signed r.signature))
            Refusal.bad_signature
          >> live_at r.grant now_ms

unfoldable pub authorize_wrap : Record → Lookup → VerifyFn → ℕ → Wrap → Result Refusal (Unit {0})
unfolding verify_record authorizes
authorize_wrap r lookup verify now_ms wrap =
    verify_record r lookup verify now_ms >> authorizes r.grant wrap
