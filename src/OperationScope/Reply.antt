-- ===== src/OperationScope/Reply.antt =====
-- modules/common/operation_scope.rs: the reply to a request for a scope, and its wire form.
use kagi.Base.{
  ℕ, ◌+◌, ◌^◌, ◌≤◌, ◌<◌, ◌≡◌, refl, sym, ap, ◌∙◌, false, not, ◌&&◌, ◌||◌, Option, none, some, List,
  [], ◌++◌, arith, ◌==◌, if◌then◌else◌, length, length-append,
}
use mathlib.Core.List.{append-nil}
use kagi.Base.Bytes.{le_bytes}
use kagi.Base.Maybe.{◌>>=◌}
use kagi.Base.Buffer.{put, put-put, put-fits, after}
use kagi.OperationScope.{Refusal}
use kagi.OperationScope.Cursor.{
  put_field_lem, read_uint, read_field, put_field, read_uint-append, read_field-append,
}

unfoldable pub refusal_code : Refusal → ℕ
refusal_code Refusal.malformed = 1
refusal_code Refusal.not_authenticated = 2
refusal_code Refusal.unknown_kind = 3
refusal_code Refusal.not_permitted = 4
refusal_code Refusal.level_invalid = 5
refusal_code Refusal.window_invalid = 6
refusal_code Refusal.expired = 7
refusal_code Refusal.not_yet_valid = 8
refusal_code Refusal.bad_signature = 9
refusal_code Refusal.unknown_key = 10
refusal_code Refusal.no_issuer_key = 11
refusal_code Refusal.no_clock = 12
refusal_code Refusal.replayed = 13
refusal_code Refusal.out_of_scope = 14

abbrev pub status_ok : ℕ
status_ok = 0

-- `refusal.map_or(STATUS_OK, Refusal::code)`
pub status_of : Option Refusal → ℕ
unfolding refusal_code
status_of none = status_ok
status_of (some refusal) = refusal_code refusal

-- `if refusal.is_none() { record } else { &[] }`
abbrev pub record_of : Option Refusal → List ℕ → List ℕ
record_of none sent = sent
record_of (some refusal) sent = []

pub write_reply : Option Refusal → List ℕ → ℕ → Option (List ℕ)
unfolding status_of put put_field
write_reply refusal sent out_len = put out_len [] (le_bytes 1 (status_of refusal)) >>= λ t.
    put_field 2 out_len t (record_of refusal sent)

pub read_reply : List ℕ → Option (ℕ × List ℕ)
unfolding read_uint read_field
read_reply b = do
  (status, rest) ← read_uint 1 b
  (sent, rest) ← read_field 2 rest
  if not (length rest == 0) || (not (status == status_ok) && not (length sent == 0))
      then none
      else some (status, sent)

code-lt : (refusal : Refusal) → (1 ≤ refusal_code refusal) × (refusal_code refusal < 15)
unfolding refusal_code
code-lt Refusal.malformed = omega arith
code-lt Refusal.not_authenticated = omega arith
code-lt Refusal.unknown_kind = omega arith
code-lt Refusal.not_permitted = omega arith
code-lt Refusal.level_invalid = omega arith
code-lt Refusal.window_invalid = omega arith
code-lt Refusal.expired = omega arith
code-lt Refusal.not_yet_valid = omega arith
code-lt Refusal.bad_signature = omega arith
code-lt Refusal.unknown_key = omega arith
code-lt Refusal.no_issuer_key = omega arith
code-lt Refusal.no_clock = omega arith
code-lt Refusal.replayed = omega arith
code-lt Refusal.out_of_scope = omega arith

status-lt : (refusal : Option Refusal) → status_of refusal < 256
unfolding status_of
status-lt none = omega arith
status-lt (some refusal) = omega (arith, code-lt refusal)

-- A refusal carries no record, and only a record is sent with the status of success.
coherent :
    (refusal : Option Refusal) (sent : List ℕ)
    → (not (status_of refusal == status_ok) && not (length (record_of refusal sent) == 0)) ≡ false
unfolding status_of
coherent none sent = refl
coherent (some refusal) sent = ground arith

length-record_of :
    (refusal : Option Refusal) (sent : List ℕ) → length (record_of refusal sent) ≤ length sent
length-record_of none sent = omega arith
length-record_of (some refusal) sent = omega arith

abbrev text_of : ℕ → List ℕ → List ℕ
text_of status sent = le_bytes 1 status ++ (le_bytes 2 (length sent) ++ sent)

read_lem :
    (status : ℕ) (sent : List ℕ)
    → status < 256
    → length sent < 256 ^ 2
    → (not (status == status_ok) && not (length sent == 0)) ≡ false
    → read_reply (text_of status sent) ≡ some (status, sent)
unfolding read_reply
read_lem status sent low short fits =
    ap (λ t. read_reply (le_bytes 1 status ++ (le_bytes 2 (length sent) ++ t)))
      (sym (append-nil sent))
    ∙ rw
        (
          read_reply,
          read_uint-append 1 status (le_bytes 2 (length sent) ++ (sent ++ [])) low,
          read_field-append 2 sent [] short,
        )
        (ground (arith, fits))

write_lem :
    (status : ℕ) (sent : List ℕ) (out_len : ℕ)
    → length sent < 256 ^ 2
    → length sent + 3 ≤ out_len
    → (put out_len [] (le_bytes 1 status) >>= λ t. put_field 2 out_len t sent)
      ≡ some (text_of status sent)
write_lem status sent out_len short room =
    after out_len [] (le_bytes 1 status) _ (λ t. put out_len t (le_bytes 2 (length sent) ++ sent))
      (λ t _. put_field_lem 2 out_len t sent short)
    ∙ put-put out_len [] (le_bytes 1 status) (le_bytes 2 (length sent) ++ sent)
    ∙ put-fits out_len (text_of status sent) (
        omega (
          arith,
          length-append (le_bytes 1 status) (le_bytes 2 (length sent) ++ sent),
          length-append (le_bytes 2 (length sent)) sent,
        ))

-- With a record of at most 65535 octets, and room for it and three octets more, a reply is written, and
-- reading it gives the status and the record; with a refusal the status is its code, and the record is
-- empty.
pub read-write_reply :
    (refusal : Option Refusal) (sent : List ℕ) (out_len : ℕ)
    → length sent < 256 ^ 2
    → length sent + 3 ≤ out_len
    → (text : List ℕ) × (write_reply refusal sent out_len ≡ some text)
      × (read_reply text ≡ some (status_of refusal, record_of refusal sent))
unfolding write_reply
read-write_reply refusal sent out_len short room = (
  text_of (status_of refusal) (record_of refusal sent),
  write_lem (status_of refusal) (record_of refusal sent) out_len
      (omega (arith, length-record_of refusal sent)) (omega (arith, length-record_of refusal sent)),
  read_lem (status_of refusal) (record_of refusal sent) (status-lt refusal)
      (omega (arith, length-record_of refusal sent)) (coherent refusal sent),
)
