-- ===== src/Recovery.antt =====
-- modules/common/recovery.rs: derived recovery codes, and the bitmap of those that are spent. HKDF is
-- a parameter that answers its 32-octet output.
pub mod Bitmap
pub mod Redeeming
mod Examples
use kagi.Base.{
  ℕ, zero, suc, ◌+◌, ◌-◌, ◌*◌, ◌/◌, ◌%◌, ◌^◌, Bool, true, false, not, ◌&&◌, ◌||◌, Option, none,
  some, List, [], ◌∷◌, ◌++◌, bit_and, bit_or, bit_xor, ltb, leb, ◌==◌, if◌then◌else◌, length, take,
}
use kagi.Base.Text.{codes}
use kagi.Base.Outcome.{Result, ok, err}
use kagi.Base.Maybe.{◌>>=◌}
use kagi.Totp.Base32.{base32_encode, base32_encoded_len, is_ascii_whitespace}

abbrev pub recovery_info : List ℕ
recovery_info = codes "kagi-recovery-code"

abbrev pub code_bytes : ℕ
code_bytes = 10

abbrev pub code_length : ℕ
code_length = 16

abbrev pub code_count : ℕ
code_count = 10

pub data RecoveryError : Type 0 where
  empty_root index_out_of_range encoding : RecoveryError

pub record RecoveryState : Type 0 where
  pub spent : ℕ

abbrev pub Hkdf : Type 0
Hkdf = List ℕ → List ℕ → List ℕ → List ℕ

pub new_state : RecoveryState
new_state = record { spent = 0 }

pub is_spent : RecoveryState → ℕ → Bool
is_spent state index = ltb index code_count && bit_and (state.spent / 2 ^ index) 1 == 1

-- The indices `0..n` that are not spent, counted.
pub count_unspent : RecoveryState → ℕ → ℕ
unfolding is_spent
count_unspent state zero = 0
count_unspent state (suc n) = count_unspent state n + (if is_spent state n then 0 else 1)

pub remaining : RecoveryState → ℕ
unfolding count_unspent
remaining state = count_unspent state code_count

pub spend : RecoveryState → ℕ → RecoveryState
spend state index =
    if ltb index code_count then record { spent = bit_or state.spent (2 ^ index) } else state

pub derive : Hkdf → List ℕ → List ℕ → ℕ → Result RecoveryError (List ℕ)
derive hkdf recovery_root tenant_id index =
    if length recovery_root == 0
    then err RecoveryError.empty_root
    else if leb code_count index
    then err RecoveryError.index_out_of_range
    else let okm = hkdf tenant_id recovery_root (recovery_info ++ index ∷ []) in
      elim (base32_encode (take code_bytes okm) 32) [
        | err e ↦ err RecoveryError.encoding
        | ok text ↦
            if not (length text == base32_encoded_len code_bytes)
              || not (length text == code_length)
            then err RecoveryError.encoding
            else ok (take code_length text)
      ]

abbrev to_ascii_uppercase : ℕ → ℕ
to_ascii_uppercase c = if leb b'a' c && leb c b'z' then c - 32 else c

-- The walk over the characters presented, with `at` of them kept.
pub normalise_loop : List ℕ → ℕ → Option (List ℕ)
normalise_loop [] at = if at == code_length then some [] else none
normalise_loop (byte ∷ presented) at =
    let skipped = normalise_loop presented at in
    let kept = normalise_loop presented (at + 1) >>= λ out. some (to_ascii_uppercase byte ∷ out) in
    if is_ascii_whitespace byte || byte == b'-'
    then skipped
    else if leb code_length at
    then none
    else kept

pub normalise : List ℕ → Option (List ℕ)
unfolding normalise_loop
normalise presented = normalise_loop presented 0

pub difference : ℕ → List ℕ → List ℕ → ℕ
difference acc (a ∷ left) (b ∷ right) = difference (bit_or acc (bit_xor a b)) left right
difference acc _ _ = acc

pub fixed_time_eq : List ℕ → List ℕ → Bool
unfolding difference
fixed_time_eq left right =
    if not (length left == length right) then false else difference 0 left right == 0

abbrev pub keep_first : Option ℕ → Bool → ℕ → Option ℕ
keep_first none hit index = if hit then some index else none
keep_first (some i) hit index = some i

-- The loop over `index..index + rounds`.
pub search_codes :
    Hkdf
    → List ℕ
    → List ℕ
    → List ℕ
    → RecoveryState
    → ℕ
    → ℕ
    → Option ℕ
    → Result RecoveryError (Option ℕ)
unfolding derive fixed_time_eq is_spent
search_codes hkdf root tenant normalised state zero index matched = ok matched
search_codes hkdf root tenant normalised state (suc rounds) index matched =
    elim (derive hkdf root tenant index) [
      | err e ↦ err e
      | ok expected ↦ search_codes hkdf root tenant normalised state rounds (index + 1) (
          keep_first matched (fixed_time_eq expected normalised && not (is_spent state index))
            index)
    ]

abbrev spend_matched : Option ℕ → RecoveryState → RecoveryState
spend_matched none state = state
spend_matched (some index) state = spend state index

-- The answer, and the state that it leaves behind.
pub redeem :
    Hkdf
    → List ℕ
    → List ℕ
    → List ℕ
    → RecoveryState
    → Result RecoveryError (Option ℕ) × RecoveryState
unfolding search_codes normalise spend
redeem hkdf root tenant presented state = elim (normalise presented) [
  | none ↦ (ok none, state)
  | some normalised ↦ elim (search_codes hkdf root tenant normalised state code_count 0 none) [
    | err e ↦ (err e, state)
    | ok matched ↦ (ok matched, spend_matched matched state)
  ]
]
