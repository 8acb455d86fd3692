-- ===== src/TransferGrant/Service/Start.antt =====
-- modules/common/transfer_grant_service.rs: the operation that a consume's or an invalidation's request
-- starts. Who a carrier proves, over the exchange's link, is a parameter.
use kagi.Base.{
  ℕ, not, ◌||◌, ◌&&◌, Option, none, some, List, [], ltb, ◌==◌, if◌then◌else◌, length, bytes_eq,
  replicate,
}
use kagi.Base.Outcome.{Result, ok, err, ◌>>=◌, ◌>>◌, refuse_if, ok_or}
use kagi.OperationScope.Cursor.{read_uint, read_field}
use kagi.TransferGrant.{Refusal, Grant}
use kagi.TransferGrant.Record.{Lookup, VerifyFn, parse, verify_record}
use kagi.TransferGrant.Service.{Op, Stage, kid, max_record}

abbrev pub class_host : ℕ
class_host = 4

abbrev pub class_operator : ℕ
class_operator = 5

-- `Grant::empty`, its custody possession-bound and its tier not attested.
abbrev pub empty_grant : Grant
empty_grant = record {
  key_use = 0;
  direction = 0;
  custody = 0;
  proven_tier = 255;
  algorithm = 0;
  traffic_epoch = 0;
  target_epoch = 0;
  issued_ms = 0;
  expiry_ms = 0;
  generation = 0;
  service = replicate 16 0;
  flow = replicate 16 0;
  session = replicate 16 0;
  source = replicate 16 0;
  destination = replicate 16 0;
  anchor = replicate 8 0;
  nonce = replicate 16 0;
  recipient = replicate 32 0;
  policy = replicate 32 0;
}

-- `Op::EMPTY`
abbrev pub empty_op : Op
empty_op = record {
  code = 0;
  stage = Stage.unset;
  grant = empty_grant;
  bytes = [];
  etag = [];
  generation = 0;
  target_generation = 0;
  pending = none;
}

-- The one key that a consume accepts: the issuer's own, of its fixed name.
abbrev pub own_key : List ℕ → ℕ → List ℕ → Lookup
own_key issuer suite public i k =
    if bytes_eq i issuer && bytes_eq k kid then some (suite, public) else none

-- An expired grant goes on to the ledger.
pub or_expired : Result Refusal (Unit {0}) → Result Refusal (Unit {0})
or_expired (ok checked) = ok tt
or_expired (err Refusal.expired) = ok tt
or_expired (err refusal) = err refusal

unfoldable pub start_consume :
    (List ℕ → Option (ℕ × List ℕ)) → List ℕ → ℕ → List ℕ → VerifyFn → ℕ → List ℕ → Result Refusal Op
unfolding parse verify_record or_expired read_field
start_consume authenticate issuer suite public verify now body = do
  (bytes, rest) ← ok_or (read_field 2 body) Refusal.malformed
  (carrier, rest) ← ok_or (read_field 2 rest) Refusal.malformed
  refuse_if (not (length rest == 0) || ltb max_record (length bytes)) Refusal.malformed
  (class, id) ← ok_or (authenticate carrier) Refusal.not_authenticated
  r ← parse bytes
  or_expired (verify_record r (own_key issuer suite public) verify now)
  refuse_if (not (class == class_host) || not (bytes_eq id r.grant.source)) Refusal.not_source
  ok (record empty_op { grant = r.grant; bytes = bytes })

unfoldable pub start_invalidate : (List ℕ → Option (ℕ × List ℕ)) → List ℕ → Result Refusal Op
unfolding read_uint read_field
start_invalidate authenticate body = do
  (generation, rest) ← ok_or (read_uint 8 body) Refusal.malformed
  (carrier, rest) ← ok_or (read_field 2 rest) Refusal.malformed
  refuse_if (not (length rest == 0)) Refusal.malformed
  (class, id) ← ok_or (authenticate carrier) Refusal.not_authenticated
  refuse_if (not (class == class_operator)) Refusal.not_operator
  ok (record empty_op { target_generation = generation })
