-- ===== src/TransferGrant/Service.antt =====
-- modules/common/transfer_grant_service.rs: one operation of the service, moved on by the ledger's
-- answers. The host's signature and digest and the channel to the ledger are parameters; who asked,
-- the correlation, the deadline and whether a slot is live, which only answering and timing out read,
-- are left out. `Stage.unset` is the stage 0 of an empty slot.
pub mod Start
pub mod World
pub mod Decoded
pub mod Kept
pub mod Heard
pub mod Told
pub mod Consumed
mod Examples
use kagi.Base.{
  ℕ, ◌+◌, ◌/◌, Bool, true, false, not, ◌||◌, Option, none, some, List, [], ◌∷◌, leb, ◌==◌,
  if◌then◌else◌, take, bytes_eq,
}
use kagi.Base.Text.{codes}
use kagi.Base.Maybe
use kagi.Base.Buffer.{put}
use kagi.Base.Outcome.{Result, ok, err, ◌>>=◌, ok_or}
use kagi.Pkce.{Sha256}
use kagi.Spiffe.{hex_into}
use kagi.TransferGrant.{Refusal, Grant}
use kagi.TransferGrant.Record.{Signer, write_unsigned, append_signature}
use kagi.TransferGrant.Ledger.{
  State, issued, consumed, expired_state, encode_state, decode_state, encode_generation,
  decode_generation, generation_key,
}

abbrev pub kid : List ℕ
kid = codes "transfer-grant"

abbrev pub max_key : ℕ
max_key = 80

-- `transfer_grant::MAX_RECORD`
abbrev pub max_record : ℕ
max_record = 414

-- `state_wire::MAX_ETAG`
abbrev pub max_etag : ℕ
max_etag = 64

abbrev pub issue : ℕ
issue = 1

abbrev pub consume : ℕ
consume = 2

abbrev pub invalidate : ℕ
invalidate = 3

-- Statuses of modules/common/auth_wire.rs.
abbrev pub st_ok : ℕ
st_ok = 0

abbrev pub st_not_found : ℕ
st_not_found = 1

abbrev pub st_conflict : ℕ
st_conflict = 8

pub data Stage : Type 0 where
  unset get_generation claim get_state mark set_generation : Stage

pub record Op : Type 0 where
  pub code : ℕ
  pub stage : Stage
  pub grant : Grant
  pub bytes : List ℕ
  pub etag : List ℕ
  pub generation : ℕ
  pub target_generation : ℕ
  pub pending : Option Refusal

-- What is asked of the ledger: a key, and for a write its octets and when they lapse.
pub data Request : Type 0 where
  get : List ℕ → Request
  put_if_absent : List ℕ → List ℕ → ℕ → Request
  compare_and_swap : List ℕ → List ℕ → List ℕ → ℕ → Request

-- The ledger's answer: its status, an etag, and a value.
pub record Answer : Type 0 where
  pub status : ℕ
  pub etag : List ℕ
  pub value : List ℕ

-- An operation waits for the ledger, or ends.
pub data Advanced : Type 0 where
  waiting : Op → Request → Advanced
  ended : Op → Result Refusal (Unit {0}) → Advanced

-- `<flow hex>-<nonce hex>`
unfoldable pub state_key : ℕ → List ℕ → List ℕ → Option (List ℕ)
unfolding put hex_into
state_key out_len flow nonce =
    Maybe.◌>>=◌ (put out_len [] (hex_into flow))
      λ t. Maybe.◌>>=◌ (put out_len t (codes "-")) λ u. put out_len u (hex_into nonce)

abbrev pub key_of : Grant → Option (List ℕ)
key_of g = state_key max_key g.flow g.nonce

abbrev pub refuse : Op → Refusal → Advanced
refuse op r = ended op (err r)

-- `must!`
pub must : Option (List ℕ) → Op → (List ℕ → Advanced) → Advanced
must none op next = refuse op Refusal.malformed
must (some key) op next = next key

abbrev pub lapse : Grant → ℕ
lapse g = g.expiry_ms / 1000 + 60

-- The generation that the answer gives.
abbrev pub current_generation : Answer → Result Refusal ℕ
unfolding decode_generation
current_generation a =
    if a.status == st_ok
    then ok_or (decode_generation a.value) Refusal.malformed
    else if a.status == st_not_found
    then ok 0
    else err Refusal.ledger_unavailable

-- The state that the answer gives.
abbrev pub current_state : Answer → Result Refusal State
unfolding decode_state
current_state a =
    if a.status == st_ok
    then ok_or (decode_state a.value) Refusal.unknown_grant
    else if a.status == st_not_found
    then err Refusal.unknown_grant
    else err Refusal.ledger_unavailable

-- How a write that was answered ends, by what a conflict means.
abbrev pub written : Answer → Op → Result Refusal (Unit {0}) → Refusal → Advanced
written a op done lost =
    if a.status == st_ok
    then ended op done
    else if a.status == st_conflict
    then refuse op lost
    else refuse op Refusal.ledger_unavailable

abbrev pub result_of : Option Refusal → Result Refusal (Unit {0})
result_of none = ok tt
result_of (some r) = err r

pub continue {ℓ} : {A : Type ℓ} → Result Refusal A → Op → (A → Advanced) → Advanced
continue (err r) op next = refuse op r
continue (ok a) op next = next a

module _ (sha256 : Sha256) (suite : ℕ) (sign_bytes : List ℕ → Option (List ℕ))
    (sends : Request → Bool) where
  -- `send`, and what `advance` does if it fails.
  pub ask : Op → Request → Advanced
  ask op request =
      if sends request then waiting op request else refuse op Refusal.ledger_unavailable

  pub sign : Grant → List ℕ → Result Refusal (List ℕ)
  unfolding write_unsigned append_signature
  sign g issuer = do
    unsigned ←
        ok_or (write_unsigned max_record g (record { issuer = issuer; kid = kid }) suite)
          Refusal.malformed
    signature ← ok_or (sign_bytes unsigned) Refusal.no_issuer_key
    ok_or (append_signature max_record unsigned signature) Refusal.malformed

  abbrev pub claim_grant : List ℕ → Op → Advanced
  unfolding sign encode_state state_key continue must ask
  claim_grant issuer op =
      let stamped = record op { grant = record (op.grant) { generation = op.generation } } in
      continue (sign (stamped.grant) issuer) stamped λ signed.
        must (key_of (op.grant)) (record stamped { bytes = signed })
          λ key.
            ask (record stamped { bytes = signed; stage = Stage.claim })
              (Request.put_if_absent key
                (encode_state (record {
                  state = issued;
                  generation = op.generation;
                  expiry_ms = op.grant.expiry_ms;
                  digest = sha256 signed;
                }))
                (lapse op.grant))

  abbrev pub look_up : Op → Advanced
  unfolding state_key must ask
  look_up op =
      if not (op.grant.generation == op.generation)
      then refuse op Refusal.invalidated
      else must (key_of op.grant) op
          λ key. ask (record op { stage = Stage.get_state }) (Request.get key)

  abbrev pub set_request : Answer → Op → Request
  unfolding encode_generation
  set_request a op =
      if a.status == st_ok
      then Request.compare_and_swap generation_key op.etag (encode_generation op.target_generation)
          0
      else Request.put_if_absent generation_key (encode_generation op.target_generation) 0

  abbrev pub advance_generation : Answer → Op → Advanced
  unfolding set_request ask
  advance_generation a op =
      if leb op.target_generation op.generation
      then refuse op Refusal.generation_not_advanced
      else ask (record op { stage = Stage.set_generation }) (set_request a op)

  -- With the generation read, the operation's own request.
  abbrev pub by_code : List ℕ → Answer → Op → Advanced
  unfolding claim_grant look_up advance_generation
  by_code issuer a op =
      if op.code == issue
      then claim_grant issuer op
      else if op.code == consume
      then look_up op
      else if op.code == invalidate
      then advance_generation a op
      else refuse op Refusal.malformed

  -- The state that a consume leaves, and what it reports once its write lands.
  abbrev pub mark_state : Answer → ℕ → Op → State → Advanced
  unfolding encode_state state_key must ask
  mark_state a now op st =
      let expired = leb op.grant.expiry_ms now in
      let next = record st { state = if expired then expired_state else consumed } in
      let op' = record op { pending = if expired then some Refusal.expired else none } in
      must (key_of op.grant) op' λ key.
        ask (record op' { stage = Stage.mark })
          (Request.compare_and_swap key a.etag (encode_state next) (lapse op.grant))

  abbrev pub judge : Answer → ℕ → Op → State → Advanced
  unfolding mark_state
  judge a now op st =
      if not (bytes_eq st.digest (sha256 op.bytes)) || not (st.generation == op.grant.generation)
      then refuse op Refusal.unknown_grant
      else if st.state == consumed
      then refuse op Refusal.replayed
      else if st.state == expired_state
      then refuse op Refusal.expired
      else mark_state a now op st

  pub at_stage : Stage → List ℕ → Answer → ℕ → Op → Advanced
  unfolding by_code judge continue
  at_stage Stage.unset issuer a now op = refuse op Refusal.malformed
  at_stage Stage.get_generation issuer a now op = continue (current_generation a) op λ current.
      by_code issuer a (record op {
        etag = if a.status == st_ok then take max_etag a.etag else [];
        generation = current;
      })
  at_stage Stage.claim issuer a now op = written a op (ok tt) Refusal.conflict
  at_stage Stage.get_state issuer a now op = continue (current_state a) op λ st. judge a now op st
  at_stage Stage.mark issuer a now op = written a op (result_of op.pending) Refusal.replayed
  at_stage Stage.set_generation issuer a now op =
      written a (if a.status == st_ok then record op { generation = op.target_generation } else op)
        (ok tt) Refusal.conflict

  unfoldable pub advance : List ℕ → Answer → ℕ → Op → Advanced
  unfolding at_stage
  advance issuer a now op = at_stage (op.stage) issuer a now op
