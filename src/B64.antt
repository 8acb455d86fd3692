-- ===== src/B64.antt =====
-- modules/common/b64.rs: base64url without padding, and standard base64. An output buffer is its
-- length, and a result the octets written to its front.
pub mod Alphabet
pub mod Encoded
pub mod RoundTrip
pub mod Canonical
pub mod Standard
pub mod Digest
mod Examples
use kagi.Base.{
  ℕ, ◌+◌, ◌-◌, ◌*◌, ◌/◌, ◌%◌, ◌^◌, Bool, not, ◌&&◌, Option, none, some, List, [], ◌∷◌, ◌++◌, map,
  bit_and, bit_or, ltb, leb, ◌==◌, if◌then◌else◌, length, replicate, get_elem?,
}
use kagi.Base.Maybe.{◌>>=◌, ◌>>◌, require}
use kagi.Base.Text.{codes}

abbrev pub alphabet : List ℕ
alphabet = codes "ABCDEFGHIJKLMNOPQRSTUVWXYZabcdefghijklmnopqrstuvwxyz0123456789-_"

-- `ALPHABET[sextet]`, for a sextet in range.
pub symbol_at : ℕ → ℕ
symbol_at sextet = elim (get_elem? alphabet sextet) [ some c ↦ c | none ↦ 0 ]

-- `ALPHABET[i & 63]`
pub symbol : ℕ → ℕ
symbol i = symbol_at (bit_and i 63)

pub encoded_len : ℕ → ℕ
encoded_len n = (n * 4 + 2) / 3

abbrev tail_octets : ℕ → ℕ
tail_octets r = if r == 2 then 1 else if r == 3 then 2 else 0

pub decoded_len : ℕ → Option ℕ
decoded_len n = if n % 4 == 1 then none else some (n / 4 * 3 + tail_octets (n % 4))

-- The octets of a chunk as one number.
abbrev pub chunk3 : ℕ → ℕ → ℕ → ℕ
chunk3 a b c = bit_or (bit_or (a * 2 ^ 16) (b * 2 ^ 8)) c

abbrev pub chunk2 : ℕ → ℕ → ℕ
chunk2 a b = bit_or (a * 2 ^ 16) (b * 2 ^ 8)

-- The loop over `chunks_exact(3)`, and its remainder.
pub encode_chunks : List ℕ → List ℕ
unfolding symbol symbol_at
encode_chunks (a ∷ b ∷ c ∷ rest) =
    let n = chunk3 a b c in
    symbol (n / 2 ^ 18) ∷ symbol (n / 2 ^ 12) ∷ symbol (n / 2 ^ 6) ∷ symbol n ∷ encode_chunks rest
encode_chunks (a ∷ b ∷ []) =
    let n = chunk2 a b in symbol (n / 2 ^ 18) ∷ symbol (n / 2 ^ 12) ∷ symbol (n / 2 ^ 6) ∷ []
encode_chunks (a ∷ []) = let n = a * 2 ^ 16 in symbol (n / 2 ^ 18) ∷ symbol (n / 2 ^ 12) ∷ []
encode_chunks [] = []

pub encode : List ℕ → ℕ → Option (List ℕ)
unfolding encoded_len encode_chunks
encode input out_len =
    if ltb out_len (encoded_len (length input)) then none else some (encode_chunks input)

pub decode_char : ℕ → Option ℕ
decode_char c =
    if leb b'A' c && leb c b'Z'
    then some (c - b'A')
    else if leb b'a' c && leb c b'z'
    then some (c - b'a' + 26)
    else if leb b'0' c && leb c b'9'
    then some (c - b'0' + 52)
    else if c == b'-'
    then some 62
    else if c == b'_'
    then some 63
    else none

-- `(acc << 6) | v` in a `u32`.
abbrev pub push_char : ℕ → ℕ → ℕ
push_char acc v = bit_or (acc * 2 ^ 6 % 2 ^ 32) v

-- The check of the bits left at the end.
pub trailing : ℕ → ℕ → Option (List ℕ)
trailing acc bits = if ltb 0 bits && not (bit_and acc (2 ^ bits - 1) == 0) then none else some []

pub decode_loop : List ℕ → ℕ → ℕ → Option (List ℕ)
unfolding trailing decode_char
decode_loop [] acc bits = trailing acc bits
decode_loop (c ∷ input) acc bits = decode_char c >>= λ v.
    let acc' = push_char acc v in
    let kept = decode_loop input acc' (bits + 6) in
    let emitted = decode_loop input acc' (bits + 6 - 8) >>= λ rest.
    some (acc' / 2 ^ (bits + 6 - 8) % 256 ∷ rest) in
    if leb 8 (bits + 6) then emitted else kept

pub decode : List ℕ → ℕ → Option (List ℕ)
unfolding decoded_len decode_loop
decode input out_len = do
  need ← decoded_len (length input)
  require (leb need out_len)
  decode_loop input 0 0

abbrev pub standard_value : ℕ → Option ℕ
standard_value c =
    if leb b'A' c && leb c b'Z'
    then some (c - b'A')
    else if leb b'a' c && leb c b'z'
    then some (c - b'a' + 26)
    else if leb b'0' c && leb c b'9'
    then some (c - b'0' + 52)
    else if c == b'+'
    then some 62
    else if c == b'/'
    then some 63
    else none

-- `o` counts the octets written, out of `out_len`.
pub decode_standard_loop : ℕ → ℕ → List ℕ → ℕ → ℕ → Option (List ℕ)
decode_standard_loop out_len o [] acc bits = some []
decode_standard_loop out_len o (c ∷ input) acc bits =
    let skipped = decode_standard_loop out_len o input acc bits in
    if c == b'='
    then skipped
    else standard_value c >>= λ v.
        let acc' = push_char acc v in
        let kept = decode_standard_loop out_len o input acc' (bits + 6) in
        let emitted = decode_standard_loop out_len (o + 1) input acc' (bits + 6 - 8) >>= λ rest.
        some (acc' / 2 ^ (bits + 6 - 8) % 256 ∷ rest) in
        if leb 8 (bits + 6) then (if leb out_len o then none else emitted) else kept

pub decode_standard : List ℕ → ℕ → Option (List ℕ)
unfolding decode_standard_loop
decode_standard input out_len = decode_standard_loop out_len 0 input 0 0

-- The 43-character form of a digest of 32 octets; the buffer stays zero if `encode` refuses.
unfoldable pub encode_digest32 : List ℕ → List ℕ
unfolding encode
encode_digest32 digest = elim (encode digest 43) [ some text ↦ text | none ↦ replicate 43 0 ]

abbrev pub to_standard : ℕ → ℕ
to_standard c = if c == b'-' then b'+' else if c == b'_' then b'/' else c

pub encode_standard : List ℕ → ℕ → Option (List ℕ)
unfolding encode
encode_standard input out_len = do
  text ← encode input out_len
  let padded = (length text + 3) / 4 * 4
  require (leb padded out_len)
  some (map to_standard text ++ replicate (padded - length text) b'=')
