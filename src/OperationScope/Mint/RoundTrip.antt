-- ===== src/OperationScope/Mint/RoundTrip.antt =====
-- modules/common/operation_scope.rs: a request for a scope, written and read back.
use kagi.Base.{
  ℕ, ◌^◌, ◌≤◌, ◌<◌, ◌≡◌, sym, ap, ◌∙◌, not, ◌||◌, ◌==◌, none, some, List, [], ◌++◌, arith, length,
  leb, if◌then◌else◌,
}
use mathlib.Core.List.{append-nil}
use kagi.Base.Bytes.{le_bytes}
use kagi.Base.Maybe
use kagi.Base.Outcome.{ok, ◌>>◌, refuse_if}
use kagi.Base.Buffer.{
  put, put_parts_lem, joined, joined_onto, joined_onto_lem, put_lem, put-put, after,
}
use kagi.OperationScope.{Refusal}
use kagi.OperationScope.Cursor.{
  put_field_lem, put_field, read_take-append, read_uint-append, read_field-append,
}
use kagi.OperationScope.Mint.{MintRequest, request_parts, encode_request, decode_request}

-- The fields are of the widths that their types have, and there is a carrier.
abbrev pub IsTyped : MintRequest → Type 0
IsTyped r =
    (r.kind < 256 ^ 1)
    × (r.level < 256 ^ 1)
    × (r.ops < 256 ^ 4)
    × (r.region < 256 ^ 4)
    × (r.cell < 256 ^ 4)
    × (r.locality < 256 ^ 4)
    × (r.recovery_generation < 256 ^ 8)
    × (length r.tenant ≡ 16)
    × (length r.service ≡ 16)
    × (length r.object ≡ 16)
    × (r.ttl_ms < 256 ^ 4)
    × (length r.policy ≡ 32)
    × (1 ≤ length r.carrier)
    × (length r.carrier < 256 ^ 2)

abbrev wire : MintRequest → List ℕ
wire r = joined_onto (request_parts r) (le_bytes 2 (length r.carrier) ++ (r.carrier ++ []))

last_step :
    (r : MintRequest)
    → 1 ≤ length r.carrier
    → (refuse_if (not (length {A = ℕ} [] == 0) || length r.carrier == 0) Refusal.malformed >> ok r)
      ≡ ok r
last_step r h = ground arith

decode-wire : (r : MintRequest) → IsTyped r → decode_request (wire r) ≡ ok r
unfolding decode_request
decode-wire r (k, l, o, g, c, y, v, t, s, j, u, p, some_carrier, n) =
    let r13 = le_bytes 2 (length r.carrier) ++ (r.carrier ++ []) in
    let r12 = r.policy ++ r13 in
    let r11 = le_bytes 4 r.ttl_ms ++ r12 in
    let r10 = r.object ++ r11 in
    let r9 = r.service ++ r10 in
    let r8 = r.tenant ++ r9 in
    let r7 = le_bytes 8 r.recovery_generation ++ r8 in
    let r6 = le_bytes 4 r.locality ++ r7 in
    let r5 = le_bytes 4 r.cell ++ r6 in
    let r4 = le_bytes 4 r.region ++ r5 in
    let r3 = le_bytes 4 r.ops ++ r4 in
    let r2 = le_bytes 1 r.level ++ r3 in
    rw
      (
        decode_request,
        read_uint-append 1 r.kind r2 k,
        read_uint-append 1 r.level r3 l,
        read_uint-append 4 r.ops r4 o,
        read_uint-append 4 r.region r5 g,
        read_uint-append 4 r.cell r6 c,
        read_uint-append 4 r.locality r7 y,
        read_uint-append 8 r.recovery_generation r8 v,
        read_take-append 16 r.tenant r9 t,
        read_take-append 16 r.service r10 s,
        read_take-append 16 r.object r11 j,
        read_uint-append 4 r.ttl_ms r12 u,
        read_take-append 32 r.policy r13 p,
        read_field-append 2 r.carrier [] n,
      )
      (last_step r some_carrier)

-- The request's octets, its fixed part of 114 and the carrier with its length.
abbrev pub text_of : MintRequest → List ℕ
text_of r = joined (request_parts r) ++ (le_bytes 2 (length r.carrier) ++ r.carrier)

encode_lem :
    (r : MintRequest) (out_len : ℕ)
    → length r.carrier < 256 ^ 2
    → encode_request r out_len
      ≡ (if leb (length (text_of r)) out_len then some (text_of r) else none)
unfolding encode_request
encode_lem r out_len n =
    ap (λ o. Maybe.◌>>=◌ o λ t. put_field 2 out_len t r.carrier)
      (put_parts_lem out_len [] (request_parts r) (omega arith))
    ∙ after out_len [] (joined (request_parts r)) _
        (λ t. put out_len t (le_bytes 2 (length r.carrier) ++ r.carrier))
        (λ t _. put_field_lem 2 out_len t r.carrier n)
    ∙ put-put out_len [] (joined (request_parts r)) (le_bytes 2 (length r.carrier) ++ r.carrier)
    ∙ put_lem out_len (text_of r)

-- A request whose fields have the widths of their types, with a carrier of 1 to 65535 octets, is encoded
-- exactly if it fits the buffer, and decoding its octets gives the request back.
pub decode-encode_request :
    (r : MintRequest) (out_len : ℕ)
    → IsTyped r
    → (encode_request r out_len
        ≡ (if leb (length (text_of r)) out_len then some (text_of r) else none))
      × (decode_request (text_of r) ≡ ok r)
decode-encode_request r out_len typed =
    let (k, l, o, g, c, y, v, t, s, j, u, p, some_carrier, n) = typed in
    (encode_lem r out_len n, ap decode_request (spelt r) ∙ decode-wire r typed)
  where
    spelt : (r : MintRequest) → text_of r ≡ wire r
    spelt r =
        ap (λ t. joined (request_parts r) ++ (le_bytes 2 (length r.carrier) ++ t))
          (sym (append-nil r.carrier))
        ∙ joined_onto_lem (request_parts r) (le_bytes 2 (length r.carrier) ++ (r.carrier ++ []))
