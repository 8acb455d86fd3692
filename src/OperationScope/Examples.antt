-- ===== src/OperationScope/Examples.antt =====
-- modules/common/operation_scope.rs at concrete requests and records.
use kagi.Base.{
  ◌++◌, ℕ, ◌+◌, ◌≤◌, ◌<◌, ◌≡◌, ◌↔◌, refl, Option, none, some, List, arith, leb, length, replicate,
  if◌then◌else◌, bytes_eq,
}
use kagi.Base.Text.{codes}
use kagi.Base.Bits.Digit.{Within}
use kagi.Base.Outcome.{ok}
use kagi.OperationScope.{
  Refusal, Scope, check, valid_kind, ceiling, level_permits, live_at, authorizes,
}
use kagi.OperationScope.Privilege.{IsIssuable, Covers, check-IsIssuable}
use kagi.OperationScope.Mint.{MintRequest, decide_mint, scope_for, encode_request, decode_request}
use kagi.OperationScope.Mint.Minted.{ask_of, decide_mint_lem}
use kagi.OperationScope.Mint.RoundTrip.{text_of, decode-encode_request}
use kagi.OperationScope.Reply.{write_reply, read_reply, status_of, record_of, read-write_reply}
use kagi.OperationScope.Record.{Record, Lookup, VerifyFn, verify_record, authorize_record}
use kagi.OperationScope.Record.{Signer, write_unsigned, append_signature, parse}
use kagi.OperationScope.Record.Parsed.{unsigned_of, signature_field}
use kagi.OperationScope.Record.RoundTrip.{parse-write_record}
use kagi.OperationScope.Record.Authorized.{IsSigned, authorize_record_lem}

-- An operator asks to drain a region, for ten minutes.
abbrev drain : MintRequest
drain = record {
  kind = 7;
  level = 3;
  ops = 2;
  region = 4;
  cell = 0;
  locality = 0;
  recovery_generation = 1;
  tenant = replicate 16 1;
  service = replicate 16 2;
  object = replicate 16 3;
  ttl_ms = 600000;
  policy = replicate 32 4;
  carrier = codes "carrier";
}

abbrev operator_id : List ℕ
operator_id = replicate 16 5

abbrev drain_scope : Scope
drain_scope = scope_for drain 5 operator_id 1000000

minted : decide_mint drain (some (5, operator_id)) 1000000 ≡ ok drain_scope
unfolding decide_mint check valid_kind ceiling level_permits
minted = refl

decide_mint_lem_example :
    (◌≡◌ {A = Option (ℕ × List ℕ)}
      (some (5, operator_id))
      (some (drain_scope.actor_class, drain_scope.actor)))
    × IsIssuable drain_scope
    × (drain_scope.issued_ms ≡ 1000000)
    × (drain_scope.expiry_ms ≤ 1000000 + 3600000)
    × (live_at drain_scope 1000000 ≡ ok tt)
    × (authorizes drain_scope (ask_of drain drain_scope.actor_class drain_scope.actor) ≡ ok tt)
decide_mint_lem_example =
    decide_mint_lem drain (some (5, operator_id)) 1000000 drain_scope (omega arith) (omega arith)
      minted

check-IsIssuable_example : (check drain_scope ≡ ok tt) ↔ IsIssuable drain_scope
check-IsIssuable_example = check-IsIssuable drain_scope (omega arith)

decode-encode_request_example :
    (encode_request drain 256
      ≡ (if leb (length (text_of drain)) 256 then some (text_of drain) else none))
    × (decode_request (text_of drain) ≡ ok drain)
decode-encode_request_example = decode-encode_request drain 256 (omega arith)

abbrev drain_record : Record
drain_record = record {
  scope = drain_scope;
  signer = record { issuer = codes "kagi"; kid = codes "k1" };
  signature_suite = 1;
  signature = codes "sig";
  signed = codes "signed";
}

-- One key is known, and one signature is good.
abbrev one_key : Lookup
one_key issuer kid = if bytes_eq kid (codes "k1") then some (1, codes "public") else none

abbrev one_signature : VerifyFn
one_signature suite public signed signature = bytes_eq signature (codes "sig")

authorized :
    authorize_record drain_record one_key one_signature 1000500 (ask_of drain 5 operator_id)
    ≡ ok drain_scope
unfolding authorize_record verify_record check valid_kind ceiling level_permits live_at authorizes
authorized = refl

authorize_record_lem_example :
    (drain_scope ≡ drain_record.scope)
    × IsIssuable drain_scope
    × IsSigned drain_record one_key one_signature
    × (1000500 < drain_scope.expiry_ms)
    × (drain_scope.issued_ms ≤ 1000500 + 60000)
    × Covers drain_scope (ask_of drain 5 operator_id)
    × Within 32 2 (ceiling 7 5)
authorize_record_lem_example =
    authorize_record_lem drain_record one_key one_signature 1000500 (ask_of drain 5 operator_id)
      drain_scope (omega arith) (omega arith) (omega arith) authorized

read-write_reply_example :
    (text : List ℕ) × (write_reply (some Refusal.expired) (codes "record") 16 ≡ some text)
    × (read_reply text
        ≡ some
            (status_of (some Refusal.expired), record_of (some Refusal.expired) (codes "record")))
read-write_reply_example =
    read-write_reply (some Refusal.expired) (codes "record") 16 (omega arith) (omega arith)

abbrev drain_signer : Signer
drain_signer = record { issuer = codes "kagi"; kid = codes "k1" }

parse-write_record_example :
    (write_unsigned 256 drain_scope drain_signer 1 ≡ some (unsigned_of drain_scope drain_signer 1))
    × (append_signature 256 (unsigned_of drain_scope drain_signer 1) (codes "sig")
        ≡ some (unsigned_of drain_scope drain_signer 1 ++ signature_field (codes "sig")))
    × (parse (unsigned_of drain_scope drain_signer 1 ++ signature_field (codes "sig"))
        ≡ ok (record {
          scope = drain_scope;
          signer = drain_signer;
          signature_suite = 1;
          signature = codes "sig";
          signed = unsigned_of drain_scope drain_signer 1;
        }))
parse-write_record_example =
    parse-write_record drain_scope drain_signer 1 256 (codes "sig") (omega arith) (omega arith)
      (omega arith) (omega arith)
