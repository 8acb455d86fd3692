-- ===== src/Recovery/Redeeming.antt =====
-- modules/common/recovery.rs: what `redeem` answers, and the state that it leaves behind.
use kagi.Base.{
  ℕ, zero, suc, ◌+◌, ◌≤◌, ◌<◌, ◌≡◌, refl, sym, ap, ◌∙◌, ◌↔◌, inl, inr, true, false, not, ◌&&◌, ◌||◌,
  ◌==◌, Option, none, some, List, [], ◌∷◌, ◌++◌, arith, bit_or, bit_xor, length, take, Bool-cases,
  Option-cases, length-take_le,
}
use mathlib.Core.Path.{subst}
use native.Mathlib.Decide.{ℕ_discrete}
use kagi.Base.Bytes.{AreBytes, AreBytes-take}
use kagi.Base.Outcome.{ok}
use kagi.Totp.Base32.{base32_encoded_len}
use kagi.Totp.Base32.RoundTrip.{base32_round_trip}
use kagi.Pkce.{differences, ct_eq}
use kagi.Pkce.Equality.{ct_eq_iff}
use kagi.Recovery.Bitmap.{is_spent-spend}
use kagi.Recovery.{
  Hkdf, RecoveryState, is_spent, derive, normalise, difference, fixed_time_eq, search_codes,
  spend_matched, redeem, recovery_info,
}

difference_lem : (acc : ℕ) (a b : List ℕ) → difference acc a b ≡ differences acc a b
unfolding difference differences
difference_lem acc [] b = refl
difference_lem acc (x ∷ a) [] = refl
difference_lem acc (x ∷ a) (y ∷ b) = difference_lem (bit_or acc (bit_xor x y)) a b

-- The two comparisons without an early exit, of recovery codes and of challenges, are one function.
fixed_time_eq-ct_eq : (a b : List ℕ) → fixed_time_eq a b ≡ ct_eq a b
unfolding fixed_time_eq ct_eq
fixed_time_eq-ct_eq a b = rw (difference_lem 0 a b) refl

fixed_time_eq_iff : (a b : List ℕ) → (fixed_time_eq a b ≡ true) ↔ (a ≡ b)
fixed_time_eq_iff a b = rw (fixed_time_eq-ct_eq a b) (ct_eq_iff a b)

-- What the code relies on of HKDF: it fills the 32 octets it is handed.
abbrev pub Fills : Hkdf → Type 0
Fills hkdf =
    (salt ikm info : List ℕ) → (length (hkdf salt ikm info) ≡ 32) × AreBytes (hkdf salt ikm info)

module _ (hkdf : Hkdf) (root tenant : List ℕ) where
  derive_total :
      (index : ℕ)
      → Fills hkdf
      → 1 ≤ length root
      → index < 10
      → (text : List ℕ) × (derive hkdf root tenant index ≡ ok text)
  unfolding derive base32_encoded_len
  derive_total index fills nonempty small =
      let (size, octets) = fills tenant root (recovery_info ++ index ∷ []) in
      let okm : List ℕ = hkdf tenant root (recovery_info ++ index ∷ []) in
      let ten : length (take 10 okm) ≡ 10 = length-take_le 10 okm (omega arith) in
      let fits : base32_encoded_len 10 ≡ 16 = sixteen in
      let (text, e, n, back) =
        base32_round_trip (take 10 okm) 32 10 (AreBytes-take 10 okm octets)
          (rw (ten, fits) (omega arith)) (omega arith) in
      (take 16 text, ground (arith, ap base32_encoded_len ten))
    where
      sixteen : base32_encoded_len 10 ≡ 16
      sixteen = refl

module _ (hkdf : Hkdf) (root tenant normalised : List ℕ) (state : RecoveryState) where
  -- The code of index `i` is the one presented, and it is not spent.
  abbrev pub Redeems : ℕ → Type 0
  Redeems i = (derive hkdf root tenant i ≡ ok normalised) × (is_spent state i ≡ false)

  -- The answer over the indices from `lo` up to `hi`: the first that redeems, if any.
  abbrev pub IsFirst : ℕ → ℕ → Option ℕ → Type 0
  IsFirst lo hi none = (i : ℕ) → lo ≤ i → i < hi → ¬ Redeems i
  IsFirst lo hi (some i) =
      (lo ≤ i) × (i < hi) × Redeems i × ((e : ℕ) → lo ≤ e → e < i → ¬ Redeems e)

  test_iff :
      (i : ℕ) (expected : List ℕ)
      → derive hkdf root tenant i ≡ ok expected
      → ((fixed_time_eq expected normalised && not (is_spent state i)) ≡ true) ↔ Redeems i
  test_iff i expected e =
      let (equal, unequal) = fixed_time_eq_iff expected normalised in
      (
        λ t. (e ∙ ap ok (equal (ground arith)), ground arith),
        λ (d, fresh). ground (arith, unequal (cc)),
      )

  miss-IsFirst : (c hi : ℕ) (m : Option ℕ) → ¬ Redeems c → IsFirst (c + 1) hi m → IsFirst c hi m
  miss-IsFirst c hi none miss later = λ e low high redeems. elim (ℕ_discrete e c) [
    | yes same ↦ miss (rw same at redeems)
    | no other ↦ later e (omega arith) high redeems
  ]
  miss-IsFirst c hi (some f) miss (low, high, redeems, first) = (
    omega arith,
    high,
    redeems,
    λ e low' below redeems'. elim (ℕ_discrete e c) [
      | yes same ↦ miss (rw same at redeems')
      | no other ↦ first e (omega arith) below redeems'
    ],
  )

  search_keeps :
      ((i : ℕ) → i < 10 → (text : List ℕ) × (derive hkdf root tenant i ≡ ok text))
      → (rounds index f : ℕ) → index + rounds ≤ 10
      → search_codes hkdf root tenant normalised state rounds index (some f) ≡ ok (some f)
  unfolding search_codes
  search_keeps total zero index f h = refl
  search_keeps total (suc rounds) index f h =
      let (text, e) = total index (omega arith) in
      rw (e, search_codes) (search_keeps total rounds (index + 1) f (omega arith))

  search_lem :
      ((i : ℕ) → i < 10 → (text : List ℕ) × (derive hkdf root tenant i ≡ ok text))
      → (rounds index : ℕ) → index + rounds ≤ 10
      → (m : Option ℕ) × (search_codes hkdf root tenant normalised state rounds index none ≡ ok m)
        × IsFirst index (index + rounds) m
  unfolding search_codes
  search_lem total zero index h = (none, refl, λ e low high _. absurd (omega arith))
  search_lem total (suc rounds) index h =
      let (text, e) = total index (omega arith) in
      let (hits, misses) = test_iff index text e in
      elim (Bool-cases (fixed_time_eq text normalised && not (is_spent state index))) [
        | inl hit ↦ (
          some index,
          rw (e, hit, search_codes) (search_keeps total rounds (index + 1) index (omega arith)),
          (omega arith, omega arith, hits hit, λ c low below _. absurd (omega arith)),
        )
        | inr miss ↦
            let (m, run, first) = search_lem total rounds (index + 1) (omega arith) in
            (
              m,
              rw (e, miss, search_codes) run,
              miss-IsFirst index (index + suc rounds) m (λ r. let t = misses r in cc)
                  (subst (λ hi. IsFirst (index + 1) hi m) (omega arith) first),
            )
      ]

-- What is presented is a code that redeems, or is no code at all.
abbrev pub Answers : Hkdf → List ℕ → List ℕ → RecoveryState → Option (List ℕ) → Option ℕ → Type 0
Answers hkdf root tenant state none m = m ≡ none
Answers hkdf root tenant state (some normalised) m =
    IsFirst hkdf root tenant normalised state 0 10 m

-- The state left behind: as it was if nothing is redeemed, and otherwise an index is spent in it exactly
-- if it was before or is the one redeemed.
abbrev pub Leaves : RecoveryState → Option ℕ → RecoveryState → Type 0
Leaves state none after = after ≡ state
Leaves state (some i) after = (j : ℕ) → is_spent after j ≡ (is_spent state j || i == j)

first-Leaves :
    (hkdf : Hkdf) (root tenant normalised : List ℕ) (state : RecoveryState) (m : Option ℕ)
    → IsFirst hkdf root tenant normalised state 0 10 m
    → Leaves state m (spend_matched m state)
first-Leaves hkdf root tenant normalised state none first = refl
first-Leaves hkdf root tenant normalised state (some i) (low, high, redeems, first) =
    λ j. is_spent-spend state i j ∙ ground arith

-- With a root, and an HKDF that fills its 32 octets, redeeming never fails. It answers the first of the
-- ten indices that is not spent and whose code is the text presented, once that is normalised, and none
-- if there is none or if the text does not normalise. The state left behind is the one before with that
-- index spent: an index is spent in it exactly if it was before or is the one answered.
pub redeem_lem :
    (hkdf : Hkdf) (root tenant presented : List ℕ) (state : RecoveryState)
    → Fills hkdf
    → 1 ≤ length root
    → (m : Option ℕ) × (redeem hkdf root tenant presented state ≡ (ok m, spend_matched m state))
      × Answers hkdf root tenant state (normalise presented) m
      × Leaves state m (spend_matched m state)
unfolding redeem
redeem_lem hkdf root tenant presented state fills nonempty =
    elim (Option-cases (normalise presented)) [
      | inl e ↦ (
        none,
        rw (e, redeem) refl,
        subst (λ t. Answers hkdf root tenant state t none) (sym e) refl,
        refl,
      )
      | inr (normalised, e) ↦
          let (m, run, first) =
            search_lem hkdf root tenant normalised state
              (λ i small. derive_total hkdf root tenant i fills nonempty small) 10 0
              (omega arith) in
          (
            m,
            rw (e, run, redeem) refl,
            subst (λ t. Answers hkdf root tenant state t m) (sym e) first,
            first-Leaves hkdf root tenant normalised state m first,
          )
    ]
