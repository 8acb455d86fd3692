-- ===== src/Totp/Codes.antt =====
-- modules/common/totp.rs: codes printed and read back.
use kagi.Base.{
  ℕ, zero, suc, ◌+◌, ◌*◌, ◌/◌, ◌%◌, ◌^◌, ◌≤◌, ◌<◌, ◌≡◌, refl, sym, ap, ◌∙◌, List, [], ◌∷◌, ◌++◌,
  arith, length, length-append,
}
use mathlib.Core.List.{append_assoc, append-nil}
use native.Mathlib.Nat.{pow-succ', one-le-pow, pow-le-pow_right}
use kagi.Base.Outcome.{ok}
use kagi.Totp.{decimal, format_code, parse_digits, parse_code}
use kagi.Totp.Hotp.{pow10_lem}

length-decimal : (n value : ℕ) → length (decimal n value) ≡ n
unfolding decimal
length-decimal zero value = refl
length-decimal (suc n) value = omega (
  arith,
  length-append (decimal n (value / 10)) ((b'0' + value % 10) ∷ []),
  length-decimal n (value / 10),
)

one_digit :
    (v acc : ℕ) (rest : List ℕ)
    → acc * 10 + v % 10 < 2 ^ 32
    → parse_digits ((b'0' + v % 10) ∷ rest) acc ≡ parse_digits rest (acc * 10 + v % 10)
unfolding parse_digits
one_digit v acc rest h = ground arith

-- The digits are read after whatever number is already there.
parse_digits-decimal :
    (n value acc : ℕ) (rest : List ℕ)
    → value < 10 ^ n
    → acc * 10 ^ n + value < 2 ^ 32
    → parse_digits (decimal n value ++ rest) acc ≡ parse_digits rest (acc * 10 ^ n + value)
unfolding decimal
parse_digits-decimal zero value acc rest h fits = ap (parse_digits rest) (omega arith)
parse_digits-decimal (suc n) value acc rest h fits =
    ap (λ t. parse_digits t acc)
      (append_assoc (decimal n (value / 10)) ((b'0' + value % 10) ∷ []) rest)
    ∙ parse_digits-decimal n (value / 10) acc _ (omega (arith, pow-succ' 10 n))
        (omega (arith, scaled))
    ∙ one_digit value (acc * 10 ^ n + value / 10) rest (omega (arith, scaled))
    ∙ ap (parse_digits rest) (omega (arith, scaled))
  where
    scaled : acc * 10 ^ suc n ≡ acc * 10 ^ n * 10
    scaled = ap (λ (t : ℕ). acc * t) (pow-succ' 10 n) ∙ omega arith

digits_read :
    (n value : ℕ) → value < 10 ^ n → value < 2 ^ 32 → parse_digits (decimal n value) 0 ≡ ok value
digits_read n value h small =
    ap (λ t. parse_digits t 0) (sym (append-nil (decimal n value)))
    ∙ parse_digits-decimal n value 0 [] h (omega arith)
    ∙ unfold parse_digits in ap ok (omega arith)

-- With 6 to 8 digits and room for them, a code is printed with exactly that many characters, and
-- reading them gives the code modulo that power of ten.
pub parse-format_code :
    (code digits out_len : ℕ)
    → 6 ≤ digits
    → digits ≤ 8
    → digits ≤ out_len
    → (text : List ℕ) × (format_code code digits out_len ≡ ok text)
      × (length text ≡ digits)
      × (parse_code text ≡ ok (code % 10 ^ digits))
unfolding format_code parse_code
parse-format_code code digits out_len lo hi room =
    let value = code % 10 ^ digits in
    (
      decimal digits value,
      rw (← pow10_lem digits lo hi) (ground arith),
      length-decimal digits value,
      ground (arith, length-decimal digits value, digits_read digits value below small),
    )
  where
    below : code % 10 ^ digits < 10 ^ digits
    below = omega (arith, one-le-pow digits 10)

    small : code % 10 ^ digits < 2 ^ 32
    small = omega (arith, below, pow-le-pow_right {n = 10} (omega arith) hi)
