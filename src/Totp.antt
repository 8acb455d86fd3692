-- ===== src/Totp.antt =====
-- modules/common/totp.rs: one-time codes (RFC 4226, RFC 6238). The injected HMAC is a parameter: it
-- answers what it left in the 64-octet buffer, and the length that it returned.
pub mod Errors
pub mod Base32
pub mod Codes
pub mod Hotp
pub mod Sweep
mod Examples
use kagi.Base.{
  ℕ, zero, suc, ◌+◌, ◌-◌, ◌*◌, ◌/◌, ◌%◌, ◌^◌, Bool, true, not, ◌&&◌, ◌||◌, Option, none, some, List,
  [], ◌∷◌, ◌++◌, bit_and, bit_or, ltb, leb, ◌==◌, if◌then◌else◌, length, min,
}
use kagi.Base.Bytes.{be_bytes}
use kagi.Base.Outcome.{Result, ok, err, refuse_if, ◌>>=◌, ◌>>◌}
use kagi.Totp.Errors.{TotpError, bad_secret, bad_digits, bad_period, bad_mac, buffer_too_small}

abbrev pub max_mac : ℕ
max_mac = 64

abbrev pub max_secret : ℕ
max_secret = 64

abbrev pub min_digits : ℕ
min_digits = 6

abbrev pub max_digits : ℕ
max_digits = 8

abbrev pub u64_max : ℕ
u64_max = 2 ^ 64 - 1

abbrev pub Hmac : Type 0
Hmac = List ℕ → List ℕ → List ℕ × ℕ

-- `buffer[at]`; the theorems below show that every read is in range.
abbrev pub octet_at : List ℕ → ℕ → ℕ
octet_at [] at = 0
octet_at (x ∷ xs) zero = x
octet_at (x ∷ xs) (suc at) = octet_at xs at

pub pow10 : ℕ → ℕ
pow10 digits = if digits == 6 then 1000000 else if digits == 7 then 10000000 else 100000000

abbrev digits_out_of_range : ℕ → Bool
digits_out_of_range digits = not (leb min_digits digits && leb digits max_digits)

-- The four octets from `offset` on, the top bit masked off.
pub truncated : List ℕ → ℕ → ℕ
truncated mac offset =
    bit_or
      (bit_or
        (bit_or (bit_and (octet_at mac offset) 0x7f * 2 ^ 24) (octet_at mac (offset + 1) * 2 ^ 16))
        (octet_at mac (offset + 2) * 2 ^ 8))
      (octet_at mac (offset + 3))

pub hotp : Hmac → List ℕ → ℕ → ℕ → Result TotpError ℕ
unfolding truncated pow10
hotp hmac secret counter digits = do
  refuse_if (length secret == 0 || ltb max_secret (length secret)) bad_secret
  refuse_if (digits_out_of_range digits) bad_digits
  let answer = hmac secret (be_bytes 8 counter)
  refuse_if (not (leb 4 answer.1 && leb answer.1 max_mac)) bad_mac
  let offset = bit_and (octet_at answer.0 (answer.1 - 1)) 0x0f
  ok (truncated answer.0 offset % pow10 digits)

pub counter_at : ℕ → ℕ → ℕ → Result TotpError ℕ
counter_at unix_seconds t0 period =
    if period == 0 then err bad_period else ok ((unix_seconds - t0) / period)

pub totp : Hmac → List ℕ → ℕ → ℕ → ℕ → ℕ → Result TotpError ℕ
unfolding hotp counter_at
totp hmac secret unix_seconds t0 period digits = do
  counter ← counter_at unix_seconds t0 period
  hotp hmac secret counter digits

-- `last_counter.is_none_or(|seen| counter > seen)`
abbrev pub is_fresh : Option ℕ → ℕ → Bool
is_fresh none counter = true
is_fresh (some seen) counter = ltb seen counter

abbrev pub keep_first : Option ℕ → Bool → ℕ → Option ℕ
keep_first none hit counter = if hit then some counter else none
keep_first (some c) hit counter = some c

-- One round of the sweep at `counter`.
abbrev pub sweep_step :
    Hmac → List ℕ → ℕ → ℕ → Option ℕ → ℕ → Option ℕ → Result TotpError (Option ℕ)
sweep_step hmac secret code digits last_counter counter found = do
  expected ← hotp hmac secret counter digits
  ok (keep_first found (expected == code && is_fresh last_counter counter) counter)

-- The loop from `counter` on, with the number of rounds after this one: it ends at `counter == last`.
pub sweep : Hmac → List ℕ → ℕ → ℕ → Option ℕ → ℕ → ℕ → Option ℕ → Result TotpError (Option ℕ)
unfolding hotp
sweep hmac secret code digits last_counter zero counter found =
    sweep_step hmac secret code digits last_counter counter found
sweep hmac secret code digits last_counter (suc rounds) counter found =
    sweep_step hmac secret code digits last_counter counter found >>= λ found'.
    sweep hmac secret code digits last_counter rounds (counter + 1) found'

pub verify_totp : Hmac → List ℕ → ℕ → ℕ → ℕ → ℕ → ℕ → ℕ → Option ℕ → Result TotpError (Option ℕ)
unfolding sweep counter_at
verify_totp hmac secret code unix_seconds t0 period digits skew last_counter = do
  centre ← counter_at unix_seconds t0 period
  let first = centre - skew
  let last = min (centre + skew) u64_max
  sweep hmac secret code digits last_counter (last - first) first none

-- The loop over `out[..n]` from its end.
pub decimal : ℕ → ℕ → List ℕ
decimal zero value = []
decimal (suc n) value = decimal n (value / 10) ++ (b'0' + value % 10) ∷ []

pub format_code : ℕ → ℕ → ℕ → Result TotpError (List ℕ)
unfolding decimal pow10
format_code code digits out_len = do
  refuse_if (digits_out_of_range digits) bad_digits
  refuse_if (ltb out_len digits) buffer_too_small
  ok (decimal digits (code % pow10 digits))

pub parse_digits : List ℕ → ℕ → Result TotpError ℕ
parse_digits [] value = ok value
parse_digits (byte ∷ text) value =
    let rest = parse_digits text ((value * 10 + (byte - b'0')) % 2 ^ 32) in
    if not (leb b'0' byte && leb byte b'9') then err bad_digits else rest

pub parse_code : List ℕ → Result TotpError ℕ
unfolding parse_digits
parse_code text =
    if ltb (length text) min_digits || ltb max_digits (length text)
    then err bad_digits
    else parse_digits text 0
