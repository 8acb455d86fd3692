-- ===== src/TransferGrant/Ledger.antt =====
-- modules/common/transfer_grant.rs: a grant's single-use state in the ledger, the recovery
-- generation, and their wire forms.
use kagi.Base.{
  ℕ, not, ◌||◌, Option, none, some, List, [], ◌∷◌, ◌==◌, if◌then◌else◌, length, bytes_eq,
}
use kagi.Base.Bytes.{le_bytes, get_range}
use kagi.Base.Text.{codes}
use kagi.Base.Maybe.{◌>>=◌}
use kagi.Base.Buffer.{joined}
use kagi.TransferGrant.Record.{uint_at}

abbrev pub issued : ℕ
issued = 1

abbrev pub consumed : ℕ
consumed = 2

abbrev pub expired_state : ℕ
expired_state = 3

abbrev pub state_magic : List ℕ
state_magic = codes "KTGS"

abbrev pub state_len : ℕ
state_len = 53

pub record State : Type 0 where
  pub state : ℕ
  pub generation : ℕ
  pub expiry_ms : ℕ
  pub digest : List ℕ

-- The writes into a buffer of `STATE_LEN` octets, which they fill.
abbrev pub state_parts : State → List (List ℕ)
state_parts s =
    state_magic
    ∷ le_bytes 1 s.state
    ∷ le_bytes 8 s.generation
    ∷ le_bytes 8 s.expiry_ms
    ∷ s.digest
    ∷ []

unfoldable pub encode_state : State → List ℕ
encode_state s = joined (state_parts s)

abbrev pub known_state : State → Option State
known_state s =
    if s.state == issued || s.state == consumed || s.state == expired_state then some s else none

unfoldable pub decode_state : List ℕ → Option State
decode_state b = do
  front ← get_range b 0 4
  known ←
      if not (length b == state_len) || not (bytes_eq front state_magic)
      then none
      else some (tt {0})
  state ← uint_at b 4 1
  generation ← uint_at b 5 8
  expiry_ms ← uint_at b 13 8
  digest ← get_range b 21 32
  known_state
      (record { state = state; generation = generation; expiry_ms = expiry_ms; digest = digest })

abbrev pub generation_magic : List ℕ
generation_magic = codes "KTGG"

abbrev pub generation_len : ℕ
generation_len = 12

abbrev pub generation_key : List ℕ
generation_key = codes "generation"

unfoldable pub encode_generation : ℕ → List ℕ
encode_generation g = joined (generation_magic ∷ le_bytes 8 g ∷ [])

unfoldable pub decode_generation : List ℕ → Option ℕ
decode_generation b = do
  front ← get_range b 0 4
  known ←
      if not (length b == generation_len) || not (bytes_eq front generation_magic)
      then none
      else some (tt {0})
  uint_at b 4 8
