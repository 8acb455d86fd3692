-- ===== src/Totp/Sweep.antt =====
-- modules/common/totp.rs: what `verify_totp` answers, over the whole skew window.
use kagi.Base.{
  ℕ, zero, suc, ◌+◌, ◌-◌, ◌/◌, ◌^◌, ◌≤◌, ◌<◌, ◌≡◌, ◌⊎◌, inl, inr, true, ◌&&◌, Option, none, some,
  List, arith, length, min, ◌==◌, Bool-cases,
}
use mathlib.Core.Path.{subst}
use native.Mathlib.Nat.{div-le_self}
use native.Mathlib.Decide.{ℕ_discrete}
use kagi.Base.Outcome.{ok, >>=-eq-ok}
use kagi.Totp.{
  Hmac, hotp, counter_at, is_fresh, keep_first, sweep_step, sweep, verify_totp, u64_max,
}
use kagi.Totp.Hotp.{FillsBuffer, hotp_lem}

module _ (hmac : Hmac) (secret : List ℕ) (code digits : ℕ) (last_counter : Option ℕ) where
  -- The code presented is the code of step `c`, and no earlier use has reached that step.
  abbrev pub Accepts : ℕ → Type 0
  Accepts c = (hotp hmac secret c digits ≡ ok code) × (is_fresh last_counter c ≡ true)

  -- What the sweep of the steps from `lo` to `hi` must answer: the first step that accepts, if any.
  abbrev pub IsAnswer : ℕ → ℕ → Option ℕ → Type 0
  IsAnswer lo hi none = (c : ℕ) → lo ≤ c → c ≤ hi → ¬ Accepts c
  IsAnswer lo hi (some c) =
      (lo ≤ c) × (c ≤ hi) × Accepts c × ((e : ℕ) → lo ≤ e → e < c → ¬ Accepts e)

  -- One round with nothing found yet.
  step_answers :
      (c : ℕ) (m : Option ℕ)
      → sweep_step hmac secret code digits last_counter c none ≡ ok m
      → ((m ≡ none) × ¬ Accepts c) ⊎ ((m ≡ some c) × Accepts c)
  step_answers c m e =
      let (expected, h, k) = >>=-eq-ok (hotp hmac secret c digits) _ e in
      elim (Bool-cases (expected == code && is_fresh last_counter c)) [
        | inl hit ↦ inr (ground arith, (ground arith, ground arith))
        | inr miss ↦ inl (ground arith, λ (p, q). ground arith)
      ]

  step_keeps :
      (c f : ℕ) (m : Option ℕ)
      → sweep_step hmac secret code digits last_counter c (some f) ≡ ok m
      → m ≡ some f
  step_keeps c f m e = let (expected, h, k) = >>=-eq-ok (hotp hmac secret c digits) _ e in cc

  sweep_keeps :
      (rounds c f : ℕ) (m : Option ℕ)
      → sweep hmac secret code digits last_counter rounds c (some f) ≡ ok m
      → m ≡ some f
  unfolding sweep
  sweep_keeps zero c f m e = step_keeps c f m e
  sweep_keeps (suc rounds) c f m e =
      let (found, h, k) =
        >>=-eq-ok (sweep_step hmac secret code digits last_counter c (some f)) _ e in
      sweep_keeps rounds (c + 1) f m (rw (step_keeps c f found h) at k)

  miss_first : (c hi : ℕ) (m : Option ℕ) → ¬ Accepts c → IsAnswer (c + 1) hi m → IsAnswer c hi m
  miss_first c hi none miss later = λ e low high accepts. elim (ℕ_discrete e c) [
    | yes same ↦ miss (rw same at accepts)
    | no other ↦ later e (omega arith) high accepts
  ]
  miss_first c hi (some f) miss (low, high, accepts, first) = (
    omega arith,
    high,
    accepts,
    λ e low' below accepts'. elim (ℕ_discrete e c) [
      | yes same ↦ miss (rw same at accepts')
      | no other ↦ first e (omega arith) below accepts'
    ],
  )

  hit_first : (c hi : ℕ) → c ≤ hi → Accepts c → IsAnswer c hi (some c)
  hit_first c hi h accepts = (omega arith, h, accepts, λ e low below _. absurd (omega arith))

  miss_only : (c : ℕ) → ¬ Accepts c → IsAnswer c (c + 0) none
  miss_only c miss = λ e low high accepts. miss (subst Accepts (omega arith) accepts)

  sweep_answers :
      (rounds c : ℕ) (m : Option ℕ)
      → sweep hmac secret code digits last_counter rounds c none ≡ ok m
      → IsAnswer c (c + rounds) m
  unfolding sweep
  sweep_answers zero c m e = elim (step_answers c m e) [
    | inl (none_found, miss) ↦ rw none_found (miss_only c miss)
    | inr (found, accepts) ↦ rw found (hit_first c (c + 0) (omega arith) accepts)
  ]
  sweep_answers (suc rounds) c m e =
      let (found, h, k) = >>=-eq-ok (sweep_step hmac secret code digits last_counter c none) _ e in
      elim (step_answers c found h) [
        | inl (none_found, miss) ↦
            subst (λ hi. IsAnswer c hi m) (omega arith)
              (miss_first c (c + 1 + rounds) m miss
                (sweep_answers rounds (c + 1) m (rw none_found at k)))
        | inr (some_found, accepts) ↦
            rw (sweep_keeps rounds (c + 1) c m (rw some_found at k))
              (hit_first c (c + suc rounds) (omega arith) accepts)
      ]

  sweep_total :
      ((c : ℕ) → (value : ℕ) × (hotp hmac secret c digits ≡ ok value))
      → (rounds c : ℕ) (found : Option ℕ)
      → (m : Option ℕ) × (sweep hmac secret code digits last_counter rounds c found ≡ ok m)
  unfolding sweep
  sweep_total total zero c found =
      let (value, e) = total c in
      (keep_first found (value == code && is_fresh last_counter c) c, rw e)
  sweep_total total (suc rounds) c found =
      let (value, e) = total c in
      let (m, rest) =
        sweep_total total rounds (c + 1)
          (keep_first found (value == code && is_fresh last_counter c) c) in
      (m, rw e rest)

-- With a secret of 1 to 64 octets, 6 to 8 digits, a period and a time of a `u64`, and an HMAC that
-- fills its buffer, the verification succeeds. Over the
-- steps from `centre - skew` to `centre + skew`, at most the largest counter, it answers the first whose
-- code is the one presented and which is later than the last one used, and none if there is none.
pub verify_totp_lem :
    (hmac : Hmac) (secret : List ℕ) (code unix_seconds t0 period digits skew : ℕ)
    (last_counter : Option ℕ)
    → FillsBuffer hmac
    → 1 ≤ length secret
    → length secret ≤ 64
    → 6 ≤ digits
    → digits ≤ 8
    → 0 < period
    → unix_seconds < 2 ^ 64
    → let centre = (unix_seconds - t0) / period in
      (m : Option ℕ) × (verify_totp hmac secret code unix_seconds t0 period digits skew last_counter
        ≡ ok m)
      × IsAnswer hmac secret code digits last_counter
          (centre - skew)
          (min (centre + skew) u64_max)
          m
unfolding verify_totp counter_at
verify_totp_lem hmac secret code unix_seconds t0 period digits skew last_counter fills one most lo
      hi positive fits =
    let centre = (unix_seconds - t0) / period in
    let first : ℕ = centre - skew in
    let last : ℕ = min (centre + skew) u64_max in
    let total : (c : ℕ) → (value : ℕ) × (hotp hmac secret c digits ≡ ok value) =
      λ c. (_, (hotp_lem hmac secret c digits fills one most lo hi).2) in
    let (m, e) = sweep_total hmac secret code digits last_counter total (last - first) first none in
    (
      m,
      ground arith,
      subst (λ top. IsAnswer hmac secret code digits last_counter first top m)
          (omega (arith, small))
          (sweep_answers hmac secret code digits last_counter (last - first) first m e),
    )
  where
    small : (unix_seconds - t0) / period ≤ u64_max
    small = omega (arith, div-le_self (unix_seconds - t0) period)
