-- ===== src/Cbor.antt =====
-- modules/common/cbor.rs: the reader of CBOR. A reader is its octets and its position; a `usize` has
-- 64 bits. A reading that fails keeps no position, since what the code leaves then is not read on.
pub mod Header
pub mod Items
pub mod Skipped
pub mod Sought
pub mod Bounds
mod Examples
use kagi.Base.{
  ℕ, zero, suc, ◌+◌, ◌*◌, ◌/◌, ◌^◌, Bool, true, false, ◌&&◌, Option, none, some, List, [], ◌∷◌, ltb,
  leb, ◌==◌, bit_and, if◌then◌else◌, length, take, drop, bytes_eq,
}
use kagi.Base.Bytes.{from_be}
use kagi.Base.Int.{ℤ, pos, negsuc}
use kagi.Base.Outcome.{Result, ok, err, ◌>>=◌, ◌>>◌, refuse_if}

abbrev pub max_depth : ℕ
max_depth = 16

pub data CborError : Type 0 where
  truncated unsupported type_mismatch overflow too_deep : CborError

abbrev pub major_unsigned : ℕ
major_unsigned = 0

abbrev pub major_negative : ℕ
major_negative = 1

abbrev pub major_bytes : ℕ
major_bytes = 2

abbrev pub major_text : ℕ
major_text = 3

abbrev pub major_array : ℕ
major_array = 4

abbrev pub major_map : ℕ
major_map = 5

pub record Reader : Type 0 where
  pub octets : List ℕ
  pub at : ℕ

abbrev pub new_reader : List ℕ → Reader
new_reader octets = record { octets = octets; at = 0 }

abbrev pub is_empty : Reader → Bool
is_empty r = leb (length (r.octets)) (r.at)

pub take_octets : ℕ → Reader → Result CborError (List ℕ × Reader)
take_octets n r =
    if leb (2 ^ 64) (r.at + n)
    then err CborError.overflow
    else if ltb (length (r.octets)) (r.at + n)
    then err CborError.truncated
    else ok (take n (drop (r.at) (r.octets)), record { octets = r.octets; at = r.at + n })

abbrev pub first_of : List ℕ → Result CborError ℕ
first_of [] = err CborError.truncated
first_of (first ∷ octets) = ok first

-- An argument of `n` octets.
abbrev pub read_word : ℕ → Reader → Result CborError (ℕ × Reader)
unfolding take_octets
read_word n r = do (part, later) ← take_octets n r; ok (from_be part, later)

pub read_argument : ℕ → Reader → Result CborError (ℕ × Reader)
unfolding take_octets
read_argument info r =
    if ltb info 24
    then ok (info, r)
    else if info == 24
    then read_word 1 r
    else if info == 25
    then read_word 2 r
    else if info == 26
    then read_word 4 r
    else if info == 27
    then read_word 8 r
    else err CborError.unsupported

pub header : Reader → Result CborError (ℕ × ℕ × Reader)
unfolding take_octets read_argument
header r = do
  (part, r) ← take_octets 1 r
  first ← first_of part
  refuse_if (ltb major_map (first / 32)) CborError.unsupported
  (argument, r) ← read_argument (bit_and first 0x1f) r
  ok (first / 32, argument, r)

pub peek_major : Reader → Result CborError ℕ
unfolding header
peek_major r = do (major, argument, r) ← header r; ok major

-- What a reading of an item of type `wanted` begins with: `array_len` and `map_len` too.
pub expect : ℕ → Reader → Result CborError (ℕ × Reader)
unfolding header
expect wanted r = do
  (major, argument, r) ← header r
  if major == wanted then ok (argument, r) else err CborError.type_mismatch

pub unsigned : Reader → Result CborError (ℕ × Reader)
unfolding expect
unsigned r = expect major_unsigned r

-- `i64::try_from`, and what it makes of the value.
abbrev pub to_int : (ℕ → ℤ) → ℕ → Reader → Result CborError (ℤ × Reader)
to_int sign value r = if ltb value (2 ^ 63) then ok (sign value, r) else err CborError.overflow

abbrev pub signed_value : ℕ → ℕ → Reader → Result CborError (ℤ × Reader)
signed_value major value r =
    if major == major_unsigned
    then to_int pos value r
    else if major == major_negative
    then to_int negsuc value r
    else err CborError.type_mismatch

pub integer : Reader → Result CborError (ℤ × Reader)
unfolding header
integer r = do (major, value, r) ← header r; signed_value major value r

pub bytes : Reader → Result CborError (List ℕ × Reader)
unfolding expect take_octets
bytes r = do (len, r) ← expect major_bytes r; take_octets len r

pub text : Reader → Result CborError (List ℕ × Reader)
unfolding expect take_octets
text r = do (len, r) ← expect major_text r; take_octets len r

pub array_len : Reader → Result CborError (ℕ × Reader)
unfolding expect
array_len r = expect major_array r

pub map_len : Reader → Result CborError (ℕ × Reader)
unfolding expect
map_len r = expect major_map r

-- The loop that skips `n` items.
pub skip_each : (Reader → Result CborError Reader) → ℕ → Reader → Result CborError Reader
skip_each skip zero r = ok r
skip_each skip (suc n) r = skip r >>= skip_each skip n

abbrev pub skip_body : (Reader → Result CborError Reader) → ℕ → ℕ → Reader → Result CborError Reader
unfolding take_octets skip_each
skip_body skip major argument r =
    if major == major_unsigned
    then ok r
    else if major == major_negative
    then ok r
    else if major == major_bytes
    then (take_octets argument r >>= λ (part, later). ok later)
    else if major == major_text
    then (take_octets argument r >>= λ (part, later). ok later)
    else if major == major_array
    then skip_each skip argument r
    else skip_each (λ r. skip r >>= skip) argument r

-- `left` more depths may be entered: `MAX_DEPTH + 1 - depth`.
pub skip_at_depth : ℕ → Reader → Result CborError Reader
unfolding header take_octets skip_each
skip_at_depth zero r = err CborError.too_deep
skip_at_depth (suc left) r =
    header r >>= λ (major, argument, r). skip_body (skip_at_depth left) major argument r

pub skip_value : Reader → Result CborError Reader
unfolding skip_at_depth
skip_value r = skip_at_depth (suc max_depth) r

-- The loop over the entries of a map: none if no key passes the test.
pub seek_entries {ℓ} :
    {K : Type ℓ}
    → (Reader → Result CborError (K × Reader))
    → (K → Bool)
    → ℕ
    → Reader
    → Result CborError (Option Reader)
unfolding skip_value
seek_entries read_key is_key zero r = ok none
seek_entries read_key is_key (suc n) r = do
  (found, r) ← read_key r
  if is_key found then ok (some r) else (skip_value r >>= seek_entries read_key is_key n)

-- A reader is left at the value, or where it was.
abbrev pub sought : Reader → Option Reader → Bool × Reader
sought start none = (false, start)
sought start (some r) = (true, r)

pub seek_text_key : List ℕ → Reader → Result CborError (Bool × Reader)
unfolding map_len text seek_entries
seek_text_key key r = do
  (entries, inside) ← map_len r
  found ← seek_entries text (λ found. bytes_eq found key) entries inside
  ok (sought r found)

abbrev pub int_eq : ℤ → ℤ → Bool
int_eq (pos a) (pos b) = a == b
int_eq (pos a) (negsuc b) = false
int_eq (negsuc a) (pos b) = false
int_eq (negsuc a) (negsuc b) = a == b

pub seek_int_key : ℤ → Reader → Result CborError (Bool × Reader)
unfolding map_len integer seek_entries
seek_int_key key r = do
  (entries, inside) ← map_len r
  found ← seek_entries integer (λ found. int_eq found key) entries inside
  ok (sought r found)
