-- ===== src/Base/Outcome.antt =====
-- `Result` and its `?`.
use mathlib.Core.Path.{◌≡◌, refl}
use mathlib.Core.Option.{Option, none, some}
use mathlib.Core.Bool.{Bool, true, false}

pub data Result {ℓ κ} (E : Type κ) (A : Type ℓ) : Type (ℓ ⊔ κ) where
  ok : A → Result E A
  err : E → Result E A

infixl 5 ◌>>=◌ ◌>>◌
abbrev pub ◌>>=◌ {ℓ κ λ'} :
    {E : Type λ'} {A : Type ℓ} {B : Type κ} → Result E A → (A → Result E B) → Result E B
err refusal >>= next = err refusal
ok answer >>= next = next answer

-- `option.ok_or(refusal)`
abbrev pub ok_or {ℓ λ'} : {E : Type λ'} {A : Type ℓ} → Option A → E → Result E A
ok_or none refusal = err refusal
ok_or (some answer) refusal = ok answer

abbrev pub ◌>>◌ {ℓ λ'} : {E : Type λ'} {B : Type ℓ} → Result E (Unit {0}) → Result E B → Result E B
checked >> rest = checked >>= λ _. rest

-- `if test { return Err(e) }`
abbrev pub refuse_if {λ'} : {E : Type λ'} → Bool → E → Result E (Unit {0})
refuse_if true e = err e
refuse_if false e = ok tt

-- What stood before a `?` that went on.
pub >>=-eq-ok {ℓ κ λ'} :
    {E : Type λ'} {A : Type ℓ} {B : Type κ} (first : Result E A) (next : A → Result E B) {final : B}
    → (first >>= next) ≡ ok final
    → (answer : A) × (first ≡ ok answer) × (next answer ≡ ok final)
>>=-eq-ok (err refusal) next went_on = cc
>>=-eq-ok (ok answer) next went_on = (answer, refl, went_on)

pub refuse_if-eq-ok {λ'} : {E : Type λ'} (b : Bool) (e : E) → refuse_if b e ≡ ok tt → b ≡ false
refuse_if-eq-ok true e h = cc
refuse_if-eq-ok false e h = refl
