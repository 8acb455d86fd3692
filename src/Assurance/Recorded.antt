-- ===== src/Assurance/Recorded.antt =====
-- modules/common/assurance.rs: what a list of `amr` names leaves in the evidence.
use kagi.Base.{
  ℕ, ◌^◌, ◌≤◌, ◌≡◌, ◌⊎◌, inl, inr, refl, ap, ◌∙◌, Bool, true, false, ◌||◌, Option, none, some, List,
  [], ◌∷◌, arith, bit_or, ◌==◌, bytes_eq, bytes_eq→eq, bytes_eq_refl, Bool-cases,
}
use kagi.Base.Bits.Digit.{bit, bit-lt, bit-bit_or, bit-pow_self, bit_and-pow}
use kagi.Base.Text.{codes}
use kagi.Assurance.{
  AuthMethod, Evidence, KeyBinding, all_methods, method_text, ordinal, named, parse_bytes,
  with_method, with_parsed, with_amr_name, evidence_at, is_recorded, level, AssuranceLevel,
  is_hardware, rank,
}

-- The names, taken one after another.
unfoldable pub gather : Evidence → List (List ℕ) → Evidence
gather e [] = e
gather e (name ∷ amr) = gather (with_amr_name e name) amr

-- `amr.iter().any(|m| *m == name)`
unfoldable pub contains : List (List ℕ) → List ℕ → Bool
contains [] name = false
contains (m ∷ amr) name = bytes_eq m name || contains amr name

named-text :
    (text : List ℕ) (ms : List AuthMethod) (m : AuthMethod)
    → named text ms ≡ some m
    → text ≡ method_text m
unfolding named
named-text text [] m h = absurd (cc)
named-text text (x ∷ ms) m h = elim (Bool-cases (bytes_eq text (method_text x))) [
  | inl hit ↦
      let same : some x ≡ some m = rw hit at h in
      bytes_eq→eq text (method_text x) hit ∙ ap method_text (cc)
  | inr miss ↦ named-text text ms m (rw miss at h)
]

has : ℕ → AuthMethod → Bool
has methods m = bit methods (ordinal m) == 1

one : (a k i : ℕ) → bit a i ≤ bit (bit_or a (2 ^ k)) i
one a k i = omega (arith, bit-bit_or a (2 ^ k) i)

-- A bit that is set stays set.
kept :
    (e : Evidence) (m : Option AuthMethod) (i : ℕ)
    → bit e.methods i ≤ bit (with_parsed e m).methods i
unfolding with_parsed with_method
kept e none i = omega arith
kept e (some AuthMethod.email) i = one e.methods 0 i
kept e (some AuthMethod.bootstrap) i = one e.methods 1 i
kept e (some AuthMethod.pop) i = one e.methods 2 i
kept e (some AuthMethod.swk) i = one e.methods 3 i
kept e (some AuthMethod.hwk) i = one e.methods 4 i
kept e (some AuthMethod.otp) i = one e.methods 5 i
kept e (some AuthMethod.user) i =
    omega (arith, one e.methods 6 i, one (bit_or e.methods (2 ^ 6)) 6 i)
kept e (some AuthMethod.webauthn) i = one e.methods 7 i
kept e (some AuthMethod.recovery) i = one e.methods 8 i
kept e (some AuthMethod.mfa) i = omega arith

kept_all :
    (e : Evidence) (amr : List (List ℕ)) (i : ℕ) → bit e.methods i ≤ bit (gather e amr).methods i
unfolding gather with_amr_name
kept_all e [] i = omega arith
kept_all e (name ∷ amr) i =
    omega (arith, kept e (parse_bytes name) i, kept_all (with_parsed e (parse_bytes name)) amr i)

-- A recovery code that is named is recorded, whatever else is named.
pub recovery_recorded :
    (e : Evidence) (amr : List (List ℕ))
    → contains amr (codes "recovery") ≡ true
    → bit (gather e amr).methods 8 ≡ 1
unfolding gather contains with_amr_name
recovery_recorded e [] h = absurd (cc)
recovery_recorded e (name ∷ amr) h = elim (Bool-cases (bytes_eq name (codes "recovery"))) [
  | inl here ↦
      let is : parse_bytes name ≡ some AuthMethod.recovery =
        ap parse_bytes (bytes_eq→eq name (codes "recovery") here) ∙ parse_recovery in
      omega (
        arith,
        ap (λ (o : Option AuthMethod). bit (with_parsed e o).methods 8) is,
        set_now e,
        kept_all (with_parsed e (parse_bytes name)) amr 8,
        bit-lt (gather (with_parsed e (parse_bytes name)) amr).methods 8,
      )
  | inr elsewhere ↦ recovery_recorded (with_amr_name e name) amr (rw elsewhere at h)
]
  where
    parse_recovery : parse_bytes (codes "recovery") ≡ some AuthMethod.recovery
    parse_recovery = refl

    set_now : (e : Evidence) → bit (with_parsed e (some AuthMethod.recovery)).methods 8 ≡ 1
    set_now e = omega (arith, bit-bit_or e.methods (2 ^ 8) 8, bit-pow_self 8, bit-lt e.methods 8)

-- What the three flags of the evidence come from.
hardware_step :
    (e : Evidence) (m : Option AuthMethod)
    → (with_parsed e m).key_binding ≡ KeyBinding.hardware
    → (e.key_binding ≡ KeyBinding.hardware) ⊎ (m ≡ some AuthMethod.hwk)
unfolding with_parsed with_method
hardware_step e none h = inl h
hardware_step e (some AuthMethod.hwk) h = inr refl
hardware_step e (some AuthMethod.swk) h = absurd (cc)
hardware_step e (some AuthMethod.email) h = inl h
hardware_step e (some AuthMethod.bootstrap) h = inl h
hardware_step e (some AuthMethod.pop) h = inl h
hardware_step e (some AuthMethod.otp) h = inl h
hardware_step e (some AuthMethod.user) h = inl h
hardware_step e (some AuthMethod.webauthn) h = inl h
hardware_step e (some AuthMethod.recovery) h = inl h
hardware_step e (some AuthMethod.mfa) h = inl h

bound_step :
    (e : Evidence) (m : Option AuthMethod)
    → (with_parsed e m).phishing_resistant ≡ true
    → (e.phishing_resistant ≡ true) ⊎ (m ≡ some AuthMethod.webauthn)
unfolding with_parsed with_method
bound_step e none h = inl h
bound_step e (some AuthMethod.webauthn) h = inr refl
bound_step e (some AuthMethod.hwk) h = inl h
bound_step e (some AuthMethod.swk) h = inl h
bound_step e (some AuthMethod.email) h = inl h
bound_step e (some AuthMethod.bootstrap) h = inl h
bound_step e (some AuthMethod.pop) h = inl h
bound_step e (some AuthMethod.otp) h = inl h
bound_step e (some AuthMethod.user) h = inl h
bound_step e (some AuthMethod.recovery) h = inl h
bound_step e (some AuthMethod.mfa) h = inl h

verified_step :
    (e : Evidence) (m : Option AuthMethod)
    → (with_parsed e m).user_verified ≡ true
    → (e.user_verified ≡ true) ⊎ (m ≡ some AuthMethod.user)
unfolding with_parsed with_method
verified_step e none h = inl h
verified_step e (some AuthMethod.user) h = inr refl
verified_step e (some AuthMethod.hwk) h = inl h
verified_step e (some AuthMethod.swk) h = inl h
verified_step e (some AuthMethod.email) h = inl h
verified_step e (some AuthMethod.bootstrap) h = inl h
verified_step e (some AuthMethod.pop) h = inl h
verified_step e (some AuthMethod.otp) h = inl h
verified_step e (some AuthMethod.webauthn) h = inl h
verified_step e (some AuthMethod.recovery) h = inl h
verified_step e (some AuthMethod.mfa) h = inl h

module _ (P : Evidence → Type 0) (m : AuthMethod)
    (step : (e : Evidence) (o : Option AuthMethod) → P (with_parsed e o) → P e ⊎ (o ≡ some m)) where
  -- What a name brings about, and no other, comes from that name.
  origin :
      (e : Evidence) (amr : List (List ℕ))
      → P (gather e amr)
      → P e ⊎ (contains amr (method_text m) ≡ true)
  unfolding gather contains with_amr_name parse_bytes
  origin e [] h = inl h
  origin e (name ∷ amr) h = elim (origin (with_amr_name e name) amr h) [
    | inr later ↦ inr (ground arith)
    | inl sooner ↦ elim (step e (parse_bytes name) sooner) [
      | inl before ↦ inl before
      | inr here ↦ inr (
          ground (
            arith,
            ap (λ t. bytes_eq t (method_text m)) (named-text name all_methods m here),
            bytes_eq_refl (method_text m),
          ))
    ]
  ]

hardware_lem : (k : KeyBinding) → is_hardware k ≡ true → k ≡ KeyBinding.hardware
hardware_lem KeyBinding.hardware h = refl
hardware_lem KeyBinding.software h = absurd (cc)
hardware_lem KeyBinding.unbound h = absurd (cc)

aal3_parts :
    (e : Evidence)
    → level e ≡ AssuranceLevel.aal3
    → (is_recorded e AuthMethod.recovery ≡ false)
      × (is_hardware e.key_binding ≡ true)
      × (e.phishing_resistant ≡ true)
      × (e.user_verified ≡ true)
unfolding level
aal3_parts e h = (ground arith, ground arith, ground arith, ground arith)

above_parts : (e : Evidence) → 2 ≤ rank (level e) → is_recorded e AuthMethod.recovery ≡ false
unfolding level
above_parts e h = ground arith

module _ (auth_time : ℕ) (amr : List (List ℕ)) where
  -- Names with a recovery code among them reach no level above `aal1`.
  pub recovery_caps :
      2 ≤ rank (level (gather (evidence_at auth_time) amr))
      → contains amr (codes "recovery") ≡ false
  recovery_caps h =
      let unset = above_parts (gather (evidence_at auth_time) amr) h in
      elim (Bool-cases (contains amr (codes "recovery"))) [
        | inr absent ↦ absent
        | inl present ↦
            let set = recovery_recorded (evidence_at auth_time) amr present in
            absurd (ground (arith, bit_and-pow (gather (evidence_at auth_time) amr).methods 8))
      ]

  -- Names that reach `aal3` report a hardware key, the binding to the relying party and the
  -- verification of the user, and no recovery code.
  pub aal3_names :
      level (gather (evidence_at auth_time) amr) ≡ AssuranceLevel.aal3
      → (contains amr (codes "hwk") ≡ true)
        × (contains amr (codes "webauthn") ≡ true)
        × (contains amr (codes "user") ≡ true)
        × (contains amr (codes "recovery") ≡ false)
  aal3_names h =
      let (unset, hard, bound, verified) = aal3_parts (gather (evidence_at auth_time) amr) h in
      (
        new
            (origin (λ e. e.key_binding ≡ KeyBinding.hardware) AuthMethod.hwk hardware_step
              (evidence_at auth_time) amr (hardware_lem _ hard))
            (λ e. cc),
        new
            (origin (λ e. e.phishing_resistant ≡ true) AuthMethod.webauthn bound_step
              (evidence_at auth_time) amr bound)
            (λ e. cc),
        new
            (origin (λ e. e.user_verified ≡ true) AuthMethod.user verified_step
              (evidence_at auth_time) amr verified)
            (λ e. cc),
        recovery_caps (omega (arith, ap rank h)),
      )
    where
      new : {A : Type 0} {B : Type 0} → A ⊎ B → ¬ A → B
      new (inl a) not_a = absurd (not_a a)
      new (inr b) not_a = b
