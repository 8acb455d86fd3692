-- ===== src/Totp/Hotp.antt =====
-- modules/common/totp.rs: what `hotp` reads of its buffer, and what it answers.
use kagi.Base.{
  ℕ, zero, suc, ◌+◌, ◌-◌, ◌*◌, ◌%◌, ◌^◌, ◌≤◌, ◌<◌, ◌≡◌, ap, ◌∙◌, List, [], ◌∷◌, arith, bit_and,
  bit_or, length,
}
use native.Mathlib.Decide.{ℕ_discrete}
use native.Mathlib.Nat.{one-le-pow}
use kagi.Base.Bits.Masks.{bit_and-ones, bit_or-field}
use kagi.Base.Bytes.{AreBytes, be_bytes}
use kagi.Base.Outcome.{ok}
use kagi.Totp.{Hmac, octet_at, pow10, truncated, hotp}

-- What the code relies on of an HMAC: it leaves octets in the 64-octet buffer, and returns how many.
abbrev pub FillsBuffer : Hmac → Type 0
FillsBuffer hmac =
    (key message : List ℕ)
    → (length (hmac key message).0 ≡ 64)
      × AreBytes (hmac key message).0
      × (4 ≤ (hmac key message).1)
      × ((hmac key message).1 ≤ 64)

pub octet_at-lt : (bs : List ℕ) (at : ℕ) → AreBytes bs → octet_at bs at < 256
octet_at-lt [] at h = omega arith
octet_at-lt (b ∷ bs) zero h = h.0
octet_at-lt (b ∷ bs) (suc at) h = octet_at-lt bs at h.1

pub pow10_lem : (digits : ℕ) → 6 ≤ digits → digits ≤ 8 → pow10 digits ≡ 10 ^ digits
unfolding pow10
pow10_lem digits h k = elim (ℕ_discrete digits 6) [
  | yes six ↦ rw six
  | no other ↦ elim (ℕ_discrete digits 7) [
    | yes seven ↦ rw seven
    | no neither ↦ let eight : digits ≡ 8 = omega arith in rw eight
  ]
]

-- The 31-bit number that the four octets from `at` on stand for, their top bit dropped.
abbrev pub window : List ℕ → ℕ → ℕ
window mac at =
    octet_at mac at % 128 * 2 ^ 24
    + octet_at mac (at + 1) * 2 ^ 16
    + octet_at mac (at + 2) * 2 ^ 8
    + octet_at mac (at + 3)

fields :
    (a b c d : ℕ)
    → b < 256
    → c < 256
    → d < 256
    → bit_or (bit_or (bit_or (a * 2 ^ 24) (b * 2 ^ 16)) (c * 2 ^ 8)) d
      ≡ a * 2 ^ 24 + b * 2 ^ 16 + c * 2 ^ 8 + d
fields a b c d hb hc hd =
    ap (λ (t : ℕ). bit_or (bit_or t (c * 2 ^ 8)) d)
      (bit_or-field 24 a (b * 2 ^ 16) (omega arith) ∙ high)
    ∙ ap (λ (t : ℕ). bit_or t d)
        (bit_or-field 16 (a * 2 ^ 8 + b) (c * 2 ^ 8) (omega arith) ∙ middle)
    ∙ bit_or-field 8 (a * 2 ^ 16 + b * 2 ^ 8 + c) d hd
    ∙ omega arith
  where
    high : a * 2 ^ 24 + b * 2 ^ 16 ≡ (a * 2 ^ 8 + b) * 2 ^ 16
    high = omega arith

    middle : (a * 2 ^ 8 + b) * 2 ^ 16 + c * 2 ^ 8 ≡ (a * 2 ^ 16 + b * 2 ^ 8 + c) * 2 ^ 8
    middle = omega arith

truncated_lem : (mac : List ℕ) (at : ℕ) → AreBytes mac → truncated mac at ≡ window mac at
unfolding truncated
truncated_lem mac at h =
    fields (bit_and (octet_at mac at) 0x7f) _ _ _ (octet_at-lt mac (at + 1) h)
      (octet_at-lt mac (at + 2) h) (octet_at-lt mac (at + 3) h)
    ∙ omega (arith, bit_and-ones 7 (octet_at mac at))

abbrev pub answer_of : Hmac → List ℕ → ℕ → List ℕ × ℕ
answer_of hmac secret counter = hmac secret (be_bytes 8 counter)

-- The window's offset: the low digit of the last octet of the digest.
abbrev pub offset_of : List ℕ × ℕ → ℕ
offset_of answer = octet_at answer.0 (answer.1 - 1) % 16

-- With a secret of 1 to 64 octets and 6 to 8 digits, and an HMAC that fills its buffer, `hotp` succeeds. Every octet that it reads is in
-- the buffer, and the code is RFC 4226's: the window's number, modulo a power of ten that bounds it.
pub hotp_lem :
    (hmac : Hmac) (secret : List ℕ) (counter digits : ℕ)
    → FillsBuffer hmac
    → 1 ≤ length secret
    → length secret ≤ 64
    → 6 ≤ digits
    → digits ≤ 8
    → let answer = answer_of hmac secret counter in
      (answer.1 - 1 < length answer.0)
      × (offset_of answer + 3 < length answer.0)
      × (hotp hmac secret counter digits ≡ ok (window answer.0 (offset_of answer) % 10 ^ digits))
      × (window answer.0 (offset_of answer) % 10 ^ digits < 10 ^ digits)
unfolding hotp
hotp_lem hmac secret counter digits fills some_secret fits lo hi =
    let (full, octets, least, most) = fills secret (be_bytes 8 counter) in
    let answer = answer_of hmac secret counter in
    let nibble : bit_and (octet_at answer.0 (answer.1 - 1)) 0x0f ≡ offset_of answer =
      bit_and-ones 4 (octet_at answer.0 (answer.1 - 1)) in
    (
      omega arith,
      omega arith,
      rw (← pow10_lem digits lo hi, ← truncated_lem answer.0 (offset_of answer) octets, ← nibble)
          (ground arith),
      omega (arith, one-le-pow digits 10),
    )
