-- ===== src/Lib.antt =====
-- kagi is an identity and credential service. Its decisions live in fragments under modules/common,
-- pure functions over byte strings which the modules of the graph, under modules/app, include and call
-- with the runtime's channels around them. This library models the fragments.
--
-- The parts, each a file beside this one with its proofs in the folder of the same name:
--
-- Base             shared helpers: Boolean tests, byte strings and words, binary digits of masks,
--                  bounded buffers (Base/Buffer), and `?` on options (Base/Maybe) and results
--                  (Base/Outcome)
-- TimePolicy       modules/common/time_policy.rs: `Observation::decode` is `decode`, `now_for` keeps
--                  its name
-- Totp             modules/common/totp.rs: `hotp`, `verify_totp` and its loop `sweep`, the printed codes;
--                  Totp/Base32 has `base32_encode` and `base32_decode`
-- B64              modules/common/b64.rs: `encode`, `decode`, `decode_standard`, `encode_standard`
-- Pkce             modules/common/pkce.rs: `ct_eq`, `verify_s256`; uses B64
-- Recovery         modules/common/recovery.rs: the bitmap `RecoveryState`, `derive`, `redeem`; uses the
--                  base32 of Totp
-- KeyCustody       modules/common/key_custody.rs: `required_tier`, `permits`
-- Ids              modules/common/ids.rs: `tenant_id`, `workload_subject`, `device_id_from_canonical`
-- Assurance        modules/common/assurance.rs: `Evidence` and `level`; Assurance/Wire has `encode` and
--                  `decode`, Assurance/Amr has `write_amr`, Assurance/Policy has
--                  `AssurancePolicy::check`
-- OperationScope   modules/common/operation_scope.rs: `Scope::check`, `live_at`, `authorizes`;
--                  OperationScope/Record has the signed record, OperationScope/Mint the request and
--                  `decide_mint`, OperationScope/Reply the reply
-- ObjectRead       modules/common/object_read.rs: `ObjectRead::step` is `step`, over a provider whose six
--                  calls are the record `ObjectReads`; ObjectRead/Recording records the calls of a run
-- Spiffe           modules/common/spiffe.rs: `parse`, `belongs_to` and the writers keep their names
-- CarrierAuth      modules/common/carrier_auth.rs: `Authenticator::replayed` is `replayed` on the list of
--                  slots, `authenticate` keeps its name; uses Spiffe
-- Cbor             modules/common/cbor.rs: `Reader` and its readings; Cbor/Items has the items as trees
--                  and their octets, in every width that a header can have
-- TransferGrant    modules/common/transfer_grant.rs: the grant and its checks; TransferGrant/Record has the
--                  signed record, TransferGrant/Ledger the single-use state and the generation,
--                  TransferGrant/Reply the reply. TransferGrant/Service is
--                  modules/common/transfer_grant_service.rs: `advance`, and in its Start
--                  `start_consume` and `start_invalidate`; TransferGrant/Service/World runs any
--                  number of operations over one entry of the ledger
--
-- Octets and words are natural numbers, with the bounds of their types as hypotheses where a theorem
-- needs them; a byte string or a text is the list of its octets. A function that writes into a caller's
-- buffer takes the buffer's length and answers what it writes. A buffer that the code fills with a copy
-- is the copy. State that the code changes in place is passed and returned: `redeem` answers the state
-- that it leaves behind. Loops recur on the list they walk or on a count of rounds that is the loop's own
-- range; `skip_at_depth` recurs on the depths that are left, which the code bounds itself, so no fuel is
-- chosen anywhere. Positions and lengths of the CBOR reader have 64 bits.
--
-- HMAC, HKDF, SHA-256, the lookup of keys and the check of signatures are arguments, with what the code
-- relies on of them as hypotheses: the lengths of their outputs, and that these are octets. What verifies a
-- carrier and what reads a certificate's leaf are arguments of CarrierAuth, since the files they stand in
-- are not modelled.
--
-- The world of TransferGrant/Service/World has operations in any number, though the service holds four;
-- an operation ends unanswered at any time, as its deadline may pass. The entry that is watched does not
-- lapse while it is watched: it lapses a minute after the grant's own expiry.
--
-- Not modelled: the graph's modules and their channels, whose runtime is not in the repository; of the
-- fragments, the wire records and services beyond the scopes and the transfer grants, JOSE, DER and
-- WebAuthn; of ids.rs the derivation from a key record; of the transfer grants the decision to issue one,
-- the custody check, and the start of an issue from its request.
pub mod Base
pub mod TimePolicy
pub mod Totp
pub mod B64
pub mod Pkce
pub mod Recovery
pub mod KeyCustody
pub mod Ids
pub mod Assurance
pub mod OperationScope
pub mod ObjectRead
pub mod Spiffe
pub mod CarrierAuth
pub mod Cbor
pub mod TransferGrant
