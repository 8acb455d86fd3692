-- ===== src/TransferGrant/Service/Decoded.antt =====
-- modules/common/transfer_grant_service.rs: what an answer's octets say of a grant's state.
use kagi.Base.{
  ℕ, ◌+◌, ◌*◌, ◌%◌, ◌<◌, ◌≡◌, refl, sym, ap, ◌∙◌, Bool, true, false, not, ◌||◌, Option, none, some,
  List, [], ◌∷◌, arith, ◌==◌, if◌then◌else◌, bytes_eq, length,
}
use kagi.Base.Bytes.{from_le, get_range}
use kagi.Base.Maybe
use kagi.Base.Outcome.{ok, err, ok_or}
use kagi.TransferGrant.{Refusal}
use kagi.TransferGrant.Record.{uint_at}
use kagi.TransferGrant.Ledger.{
  state_len, state_magic, State, issued, consumed, expired_state, encode_state, decode_state,
}
use kagi.TransferGrant.Service.{Op, consume}

pub still_issued :
    (s : ℕ)
    → (s == issued || s == consumed || s == expired_state) ≡ true
    → (s == consumed) ≡ false
    → (s == expired_state) ≡ false
    → s ≡ issued
still_issued s known live fresh = ground arith

pub known_lem :
    (b : Bool) (s : State) {st : State}
    → (if b then some s else none) ≡ some st
    → (b ≡ true) × (s ≡ st)
known_lem true s e = (refl, cc)
known_lem false s e = absurd (cc)

pub state_read :
    (b c : Bool) (o : Option State) {st : State}
    → (if b
        then ok_or o Refusal.unknown_grant
        else if c
        then err Refusal.unknown_grant
        else err Refusal.ledger_unavailable)
      ≡ ok st
    → (b ≡ true) × (o ≡ some st)
state_read true c none e = absurd (cc)
state_read true c (some st) e = (refl, cc)
state_read false true o e = absurd (cc)
state_read false false o e = absurd (cc)

pub code_kept :
    (b : Bool) (op : Op)
    → (op.code == consume) ≡ false
    → ((if b then record op { generation = op.target_generation } else op).code == consume) ≡ false
code_kept true op h = h
code_kept false op h = h

pub octet_lem :
    (b : Bool) (c v : ℕ)
    → Maybe.◌>>=◌ (if b then some (c ∷ []) else none) (λ part. some (from_le part)) ≡ some v
    → c + 256 * 0 ≡ v
octet_lem true c v e = cc
octet_lem false c v e = absurd (cc)

-- What is decoded is one of the three states, and stood where `encode` puts it.
pub decoded :
    (b : List ℕ) (st : State)
    → decode_state b ≡ some st
    → ((st.state == issued || st.state == consumed || st.state == expired_state) ≡ true)
      × (uint_at b 4 1 ≡ some st.state)
unfolding decode_state
decoded b st e =
    let (front, e0, h1) = Maybe.>>=-eq-some (get_range b 0 4) _ e in
    let (u, e1, h2) =
      Maybe.>>=-eq-some
        (if not (length b == state_len) || not (bytes_eq front state_magic)
          then none
          else some (tt {0}))
        _ h1 in
    let (state, e2, h3) = Maybe.>>=-eq-some (uint_at b 4 1) _ h2 in
    let (generation, e3, h4) = Maybe.>>=-eq-some (uint_at b 5 8) _ h3 in
    let (expiry_ms, e4, h5) = Maybe.>>=-eq-some (uint_at b 13 8) _ h4 in
    let (digest, e5, h6) = Maybe.>>=-eq-some (get_range b 21 32) _ h5 in
    let (known, same) =
      known_lem _
        (record { state = state; generation = generation; expiry_ms = expiry_ms; digest = digest })
        h6 in
    (
      ap (λ (s : State). s.state == issued || s.state == consumed || s.state == expired_state)
            (sym same)
          ∙ known,
      e2 ∙ ap (λ (s : State). some s.state) same,
    )

pub decode_state-known :
    (b : List ℕ) (st : State)
    → decode_state b ≡ some st
    → (st.state == issued || st.state == consumed || st.state == expired_state) ≡ true
decode_state-known b st e = (decoded b st e).0

pub decode-encode_state_state :
    (s : State)
    → s.state < 256
    → (st : State) → decode_state (encode_state s) ≡ some st
    → st.state ≡ s.state
unfolding encode_state
decode-encode_state_state s low st e =
    let read = octet_lem _ (s.state % 256) st.state (decoded (encode_state s) st e).1 in
    omega (arith, read)
