-- ===== src/TransferGrant/Reply.antt =====
-- modules/common/transfer_grant.rs: the reply to an operation, and its wire form.
use kagi.Base.{ℕ, not, ◌&&◌, ◌||◌, Option, none, some, List, [], ◌==◌, if◌then◌else◌, length}
use kagi.Base.Bytes.{le_bytes}
use kagi.Base.Maybe.{◌>>=◌}
use kagi.Base.Buffer.{put}
use kagi.OperationScope.Cursor.{read_uint, read_field, put_field}
use kagi.TransferGrant.{Refusal, refusal_code}

abbrev pub status_ok : ℕ
status_ok = 0

-- `refusal.map_or(STATUS_OK, Refusal::code)`
pub status_of : Option Refusal → ℕ
unfolding refusal_code
status_of none = status_ok
status_of (some refusal) = refusal_code refusal

abbrev pub record_of : Option Refusal → List ℕ → List ℕ
record_of none sent = sent
record_of (some refusal) sent = []

unfoldable pub write_reply : ℕ → Option Refusal → List ℕ → ℕ → ℕ → Option (List ℕ)
unfolding status_of put put_field
write_reply code refusal sent generation out_len = put out_len [] (le_bytes 1 code) >>= λ t.
    put out_len t (le_bytes 1 (status_of refusal)) >>= λ u.
    put_field 2 out_len u (record_of refusal sent) >>= λ v. put out_len v (le_bytes 8 generation)

unfoldable pub read_reply : List ℕ → Option (ℕ × ℕ × List ℕ × ℕ)
unfolding read_uint read_field
read_reply b = do
  (code, rest) ← read_uint 1 b
  (status, rest) ← read_uint 1 rest
  (sent, rest) ← read_field 2 rest
  (generation, rest) ← read_uint 8 rest
  if not (length rest == 0) || (not (status == status_ok) && not (length sent == 0))
      then none
      else some (code, status, sent, generation)
