-- ===== src/Spiffe/Hex.antt =====
-- modules/common/spiffe.rs: a fixed identity and its hexadecimal digits.
use kagi.Base.{
  ℕ, ◌+◌, ◌*◌, ◌/◌, ◌%◌, ◌<◌, ◌≡◌, refl, sym, ap, ◌∙◌, Bool, true, false, not, ◌==◌, ==_iff,
  if◌then◌else◌, Option, none, some, List, [], ◌∷◌, arith, bit_and, bit_or, length,
}
use kagi.Base.Bytes.{AreBytes}
use kagi.Base.Maybe.{>>=-eq-some}
use kagi.Base.Bits.Masks.{bit_and-ones, bit_or-field}
use kagi.Spiffe.{hex_digit, hex_value, hex_into, from_pairs, fixed_id, id_hex_len}

value-digit : (i : ℕ) → i < 16 → hex_value (hex_digit i) ≡ some i
unfolding hex_value hex_digit
value-digit i h = ground arith

digit-value : (c v : ℕ) → hex_value c ≡ some v → (hex_digit v ≡ c) × (v < 16)
unfolding hex_value hex_digit
digit-value c v h = (ground arith, ground arith)

octet_of : (h l : ℕ) → l < 16 → bit_or (h * 16) l ≡ h * 16 + l
octet_of h l low = bit_or-field 4 h l low

low_half : (b : ℕ) → bit_and b 0x0F ≡ b % 16
low_half b = bit_and-ones 4 b

pub from_pairs-hex_into : (id : List ℕ) → AreBytes id → from_pairs (hex_into id) ≡ some id
unfolding from_pairs hex_into
from_pairs-hex_into [] h = refl
from_pairs-hex_into (b ∷ id) (byte, h) = rw (low_half b) (
    rw
      (
        value-digit (b / 16) (omega arith),
        value-digit (b % 16) (omega arith),
        from_pairs-hex_into id h,
      )
      (λ i. some (whole i ∷ id)))
  where
    whole : bit_or (b / 16 * 16) (b % 16) ≡ b
    whole = octet_of (b / 16) (b % 16) (omega arith) ∙ omega arith

pub length-hex_into : (id : List ℕ) → length (hex_into id) ≡ length id + length id
unfolding hex_into
length-hex_into [] = refl
length-hex_into (b ∷ id) = omega (arith, length-hex_into id)

-- Pairs of digits that are read were written for what was read.
pub hex_into-from_pairs :
    (path id : List ℕ)
    → from_pairs path ≡ some id
    → length path % 2 ≡ 0
    → (hex_into id ≡ path) × AreBytes id
unfolding from_pairs hex_into
hex_into-from_pairs [] id e h = let same : [] ≡ id = cc in rw (← same) (refl, tt)
hex_into-from_pairs (high ∷ []) id e h = absurd (omega arith)
hex_into-from_pairs (high ∷ (low ∷ path)) id e even =
    let (h, eh, e1) = >>=-eq-some (hex_value high) _ e in
    let (l, el, e2) = >>=-eq-some (hex_value low) _ e1 in
    let (rest, er, e3) = >>=-eq-some (from_pairs path) _ e2 in
    let (dh, sh) = digit-value high h eh in
    let (dl, sl) = digit-value low l el in
    let (tail, bytes) = hex_into-from_pairs path rest er (omega arith) in
    let same : bit_or (h * 16) l ∷ rest ≡ id = cc in
    let value = octet_of h l sl in
    rw (← same, value, low_half (h * 16 + l))
      (
        λ i. (ap hex_digit (first h l sl) ∙ dh) i ∷ (ap hex_digit (second h l sl) ∙ dl) i ∷ tail i,
        (omega arith, bytes),
      )
  where
    first : (h l : ℕ) → l < 16 → (h * 16 + l) / 16 ≡ h
    first h l low = omega arith

    second : (h l : ℕ) → l < 16 → (h * 16 + l) % 16 ≡ l
    second h l low = omega arith

not_refused :
    (b : Bool) (m : Option (List ℕ)) {id : List ℕ}
    → (if not b then none else m) ≡ some id
    → (b ≡ true) × (m ≡ some id)
not_refused true m e = (refl, e)
not_refused false m e = cc

-- A path of 32 characters names an identity exactly if it is the identity's digits.
pub fixed_id_digits :
    (path id : List ℕ)
    → fixed_id path ≡ some id
    → (length id ≡ 16) × AreBytes id × (path ≡ hex_into id)
unfolding fixed_id
fixed_id_digits path id e =
    let (sized, read) = not_refused (length path == id_hex_len) (from_pairs path) e in
    let sized' : length path ≡ 32 = (==_iff (length path) 32).0 sized in
    let (same, bytes) = hex_into-from_pairs path id read (omega arith) in
    (omega (arith, length-hex_into id, ap length same), bytes, sym same)

whole_length : (path : List ℕ) → length path ≡ 32 → fixed_id path ≡ from_pairs path
unfolding fixed_id
whole_length path sized = rw sized refl

pub fixed_id-hex_into :
    (id : List ℕ) → length id ≡ 16 → AreBytes id → fixed_id (hex_into id) ≡ some id
fixed_id-hex_into id sized bytes =
    let sized' : length (hex_into id) ≡ 32 = omega (arith, length-hex_into id) in
    whole_length (hex_into id) sized' ∙ from_pairs-hex_into id bytes
