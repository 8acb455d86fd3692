-- ===== src/Totp/Examples.antt =====
-- modules/common/totp.rs at concrete inputs, with an HMAC of constant octets.
use kagi.Base.{
  ℕ, ◌+◌, ◌-◌, ◌%◌, ◌/◌, ◌^◌, ◌≤◌, ◌<◌, ◌≡◌, refl, Option, some, List, arith, length, replicate,
  min,
}
use kagi.Base.Text.{codes}
use kagi.Base.Outcome.{ok, err}
use kagi.Totp.{
  Hmac, hotp, pow10, verify_totp, format_code, parse_code, parse_digits, decimal, u64_max,
}
use kagi.Totp.Errors.{TotpError}
use kagi.Totp.Base32.{base32_encode, base32_decode, base32_encoded_len}
use kagi.Totp.Base32.RoundTrip.{base32_round_trip}
use kagi.Totp.Hotp.{FillsBuffer, hotp_lem, window, offset_of, answer_of}
use kagi.Totp.Sweep.{IsAnswer, verify_totp_lem}
use kagi.Totp.Codes.{parse-format_code}

abbrev sevens : Hmac
sevens key message = (replicate 64 7, 20)

sevens-FillsBuffer : FillsBuffer sevens
sevens-FillsBuffer key message = (refl, omega arith, omega arith, omega arith)

abbrev secret : List ℕ
secret = codes "12345678901234567890"

hotp_lem_example :
    (20 - 1 < length (replicate {A = ℕ} 64 7))
    × (offset_of (answer_of sevens secret 5) + 3 < length (replicate {A = ℕ} 64 7))
    × (hotp sevens secret 5 6
        ≡ ok (window (replicate 64 7) (offset_of (answer_of sevens secret 5)) % 10 ^ 6))
    × (window (replicate 64 7) (offset_of (answer_of sevens secret 5)) % 10 ^ 6 < 10 ^ 6)
hotp_lem_example =
    hotp_lem sevens secret 5 6 sevens-FillsBuffer (omega arith) (omega arith) (omega arith)
      (omega arith)

verify_totp_lem_example :
    (m : Option ℕ) × (verify_totp sevens secret 901703 1000000 0 30 6 1 (some 33332) ≡ ok m)
    × IsAnswer sevens secret 901703 6
        (some 33332)
        ((1000000 - 0) / 30 - 1)
        (min ((1000000 - 0) / 30 + 1) u64_max)
        m
verify_totp_lem_example =
    verify_totp_lem sevens secret 901703 1000000 0 30 6 1 (some 33332) sevens-FillsBuffer
      (omega arith) (omega arith) (omega arith) (omega arith) (omega arith) (omega arith)

base32_round_trip_example :
    (text : List ℕ) × (base32_encode (codes "kagi") 8 ≡ ok text)
    × (length text ≡ base32_encoded_len (length (codes "kagi")))
    × (base32_decode text 4 ≡ ok (codes "kagi"))
base32_round_trip_example = base32_round_trip (codes "kagi") 8 4 (omega arith) room (omega arith)
  where
    room : base32_encoded_len (length (codes "kagi")) ≤ 8
    room = unfold base32_encoded_len in omega arith

parse-format_code_example :
    (text : List ℕ) × (format_code 81804 6 8 ≡ ok text)
    × (length text ≡ 6)
    × (parse_code text ≡ ok (81804 % 10 ^ 6))
parse-format_code_example = parse-format_code 81804 6 8 (omega arith) (omega arith) (omega arith)

printed : format_code 81804 6 6 ≡ ok (codes "081804")
unfolding format_code pow10 decimal
printed = refl

refused : parse_code (codes "12a456") ≡ err TotpError.bad_digits
unfolding parse_code parse_digits
refused = refl
