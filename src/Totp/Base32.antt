-- ===== src/Totp/Base32.antt =====
-- modules/common/totp.rs: unpadded base32 (RFC 4648). An output buffer is its length, and a result
-- the octets written to its front.
pub mod Value
pub mod Encoded
pub mod RoundTrip
use kagi.Base.{
  ℕ, suc, ◌+◌, ◌-◌, ◌*◌, ◌/◌, ◌%◌, ◌^◌, Bool, not, ◌&&◌, ◌||◌, Option, none, some, List, [], ◌∷◌,
  ◌++◌, bit_and, bit_or, ltb, leb, ◌==◌, if◌then◌else◌, length,
}
use kagi.Base.Outcome.{Result, ok, err, ok_or, ◌>>=◌}
use kagi.Totp.Errors.{TotpError, buffer_too_small, bad_base32}

abbrev tail_saving : ℕ → ℕ
tail_saving r =
    if r == 1 then 6 else if r == 2 then 4 else if r == 3 then 3 else if r == 4 then 1 else 0

unfoldable pub base32_encoded_len : ℕ → ℕ
base32_encoded_len n = (n + 4) / 5 * 8 - tail_saving (n % 5)

pub base32_symbol : ℕ → ℕ
base32_symbol index = if ltb index 26 then b'A' + index else b'2' + (index - 26)

pub base32_value : ℕ → Option ℕ
base32_value symbol =
    if leb b'A' symbol && leb symbol b'Z'
    then some (symbol - b'A')
    else if leb b'a' symbol && leb symbol b'z'
    then some (symbol - b'a')
    else if leb b'2' symbol && leb symbol b'7'
    then some (symbol - b'2' + 26)
    else none

-- `while bits >= 5`: the symbols written, and the bits left in the buffer.
pub drain : ℕ → ℕ → List ℕ × ℕ
unfolding base32_symbol
drain buffer (suc (suc (suc (suc (suc bits))))) =
    let (symbols, left) = drain buffer bits in
    (base32_symbol (bit_and (buffer / 2 ^ bits) 0x1f) ∷ symbols, left)
drain buffer bits = ([], bits)

-- `(buffer << 8) | byte` and `(buffer << 5) | value` in a `u16`.
abbrev pub push_byte : ℕ → ℕ → ℕ
push_byte buffer byte = bit_or (buffer * 2 ^ 8 % 2 ^ 16) byte

abbrev pub push_value : ℕ → ℕ → ℕ
push_value buffer value = bit_or (buffer * 2 ^ 5 % 2 ^ 16) value

pub encode_loop : List ℕ → ℕ → ℕ → List ℕ
unfolding drain base32_symbol
encode_loop [] buffer bits =
    if ltb 0 bits then base32_symbol (bit_and (buffer * 2 ^ (5 - bits) % 2 ^ 16) 0x1f) ∷ [] else []
encode_loop (byte ∷ data_) buffer bits =
    let buffer' = push_byte buffer byte in
    let (symbols, left) = drain buffer' (bits + 8) in symbols ++ encode_loop data_ buffer' left

pub base32_encode : List ℕ → ℕ → Result TotpError (List ℕ)
unfolding encode_loop base32_encoded_len
base32_encode data_ out_len =
    if ltb out_len (base32_encoded_len (length data_))
    then err buffer_too_small
    else ok (encode_loop data_ 0 0)

abbrev pub is_ascii_whitespace : ℕ → Bool
is_ascii_whitespace c = c == 0x20 || c == 0x09 || c == 0x0a || c == 0x0c || c == 0x0d

-- The check of the leftover bits at the end of the text.
pub leftover : ℕ → ℕ → Result TotpError (List ℕ)
leftover buffer bits =
    if ltb 0 bits && not (bit_and buffer (2 ^ bits - 1) == 0) then err bad_base32 else ok []

pub decode_loop : ℕ → ℕ → List ℕ → ℕ → ℕ → Result TotpError (List ℕ)
unfolding leftover base32_value
decode_loop out_len written [] buffer bits = leftover buffer bits
decode_loop out_len written (byte ∷ text) buffer bits =
    let skipped = decode_loop out_len written text buffer bits in
    if is_ascii_whitespace byte || byte == b'='
    then skipped
    else ok_or (base32_value byte) bad_base32 >>= λ value.
        let buffer' = push_value buffer value in
        let kept = decode_loop out_len written text buffer' (bits + 5) in
        let emitted = decode_loop out_len (written + 1) text buffer' (bits + 5 - 8) >>= λ rest.
        ok (bit_and (buffer' / 2 ^ (bits + 5 - 8)) 0xff ∷ rest) in
        if leb 8 (bits + 5)
        then if leb out_len written then err buffer_too_small else emitted
        else kept

pub base32_decode : List ℕ → ℕ → Result TotpError (List ℕ)
unfolding decode_loop
base32_decode text out_len = decode_loop out_len 0 text 0 0
