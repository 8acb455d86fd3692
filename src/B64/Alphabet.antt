-- ===== src/B64/Alphabet.antt =====
-- The base64url alphabet of modules/common/b64.rs: its symbols and the sextets they stand for.
use kagi.Base.{ℕ, ◌%◌, ◌<◌, ◌≡◌, refl, ap, Bool, true, false, some, none, ◌==◌, arith}
use kagi.Base.Bits.Masks.{bit_and-ones}
use kagi.Base.Text.{all_below, all_below_lem}
use kagi.B64.{symbol_at, symbol, decode_char}

abbrev decodes : ℕ → Bool
decodes i = elim (decode_char (symbol i)) [ some v ↦ v == i | none ↦ false ]

table : all_below 64 decodes ≡ true
unfolding all_below symbol symbol_at decode_char
table = refl

pub decode_char-symbol : (i : ℕ) → i < 64 → decode_char (symbol i) ≡ some i
decode_char-symbol i h = ground (arith, all_below_lem 64 decodes i table h)

pub symbol-mod : (n : ℕ) → symbol n ≡ symbol (n % 64)
unfolding symbol
symbol-mod n = ap symbol_at (omega (arith, bit_and-ones 6 n, bit_and-ones 6 (n % 64)))
