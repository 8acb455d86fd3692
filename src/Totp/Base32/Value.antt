-- ===== src/Totp/Base32/Value.antt =====
-- The base32 alphabet: a symbol's value is the index that it was written for.
use kagi.Base.{ℕ, ◌<◌, ◌≡◌, false, ◌||◌, some, arith, ◌==◌}
use kagi.Totp.Base32.{base32_symbol, base32_value, is_ascii_whitespace}

pub value-symbol : (i : ℕ) → i < 32 → base32_value (base32_symbol i) ≡ some i
unfolding base32_symbol base32_value
value-symbol i h = ground arith

pub symbol_is_data :
    (i : ℕ) → i < 32 → (is_ascii_whitespace (base32_symbol i) || base32_symbol i == b'=') ≡ false
unfolding base32_symbol
symbol_is_data i h = ground arith
