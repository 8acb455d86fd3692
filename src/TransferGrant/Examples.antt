-- ===== src/TransferGrant/Examples.antt =====
-- modules/common/transfer_grant.rs: a wrap that is authorised.
use kagi.Base.{◌+◌, ◌≤◌, ◌<◌, ◌≡◌, refl, true, none, some, [], ◌∷◌, replicate}
use kagi.Base.Text.{codes}
use kagi.Base.Outcome.{err}
use kagi.TransferGrant.{Refusal, Grant, Wrap, valid_direction, transfer_grant_ttl_ms, skew_ms}
use kagi.TransferGrant.Record.{Record, Lookup, VerifyFn, authorize_wrap}
use kagi.TransferGrant.Ledger.{encode_state, decode_state, encode_generation, decode_generation}
use kagi.TransferGrant.Wrapped.{IsSigned, IsThisTransfer, authorize_wrap_lem}

abbrev grant_example : Grant
grant_example = record {
  key_use = 1;
  direction = 3;
  custody = 1;
  proven_tier = 1;
  algorithm = 4865;
  traffic_epoch = 2;
  target_epoch = 3;
  issued_ms = 1000;
  expiry_ms = 31000;
  generation = 0;
  service = replicate 16 5;
  flow = replicate 16 1;
  session = replicate 16 6;
  source = replicate 16 7;
  destination = replicate 16 8;
  anchor = replicate 8 9;
  nonce = replicate 16 2;
  recipient = replicate 32 3;
  policy = replicate 32 4;
}

abbrev wrap_example : Wrap
wrap_example = record {
  service = replicate 16 5;
  flow = replicate 16 1;
  session = replicate 16 6;
  source = replicate 16 7;
  destination = replicate 16 8;
  anchor = replicate 8 9;
  recipient = replicate 32 3;
  target_epoch = 3;
  traffic_epoch = 2;
  algorithm = 4865;
  key_use = 1;
  direction = 1;
}

abbrev record_example : Record
record_example = record {
  grant = grant_example;
  signer = record { issuer = codes "kagi"; kid = codes "k" };
  signature_suite = 1;
  signature = 8 ∷ [];
  signed = 5 ∷ [];
}

-- One key is known, under suite 1.
abbrev lookup_example : Lookup
lookup_example issuer kid = some (1, 4 ∷ [])

abbrev verify_example : VerifyFn
verify_example suite public signed signature = true

authorize_wrap_lem_example :
    (valid_direction record_example.grant.direction ≡ true)
    × (record_example.grant.expiry_ms ≤ record_example.grant.issued_ms + transfer_grant_ttl_ms)
    × IsSigned record_example lookup_example verify_example
    × (2000 < record_example.grant.expiry_ms)
    × (record_example.grant.issued_ms ≤ 2000 + skew_ms)
    × IsThisTransfer record_example.grant wrap_example
unfolding authorize_wrap
authorize_wrap_lem_example =
    authorize_wrap_lem record_example lookup_example verify_example 2000 wrap_example refl

other_flow :
    authorize_wrap record_example lookup_example verify_example 2000
      (record wrap_example { flow = [] })
    ≡ err Refusal.not_this_transfer
unfolding authorize_wrap
other_flow = refl

too_late :
    authorize_wrap record_example lookup_example verify_example 31000 wrap_example
    ≡ err Refusal.expired
unfolding authorize_wrap
too_late = refl

generation_read : decode_generation (encode_generation 513) ≡ some 513
unfolding decode_generation encode_generation
generation_read = refl

unknown_state :
    decode_state
      (encode_state (record { state = 4; generation = 0; expiry_ms = 1; digest = replicate 32 7 }))
    ≡ none
unfolding decode_state encode_state
unknown_state = refl
