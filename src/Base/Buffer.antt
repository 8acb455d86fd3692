-- ===== src/Base/Buffer.antt =====
-- A bounded writer over a caller's buffer: what is written so far, and the buffer's length.
use Prim.Native.Nat.{ℕ, ◌+◌, ◌≤◌}
use mathlib.Core.Path.{◌≡◌, refl, sym, ap, ◌∙◌}
use mathlib.Core.Logic.{inl, inr, ◌↔◌}
use mathlib.Core.Option.{Option, none, some}
use mathlib.Core.List.{List, [], ◌∷◌, ◌++◌, append_assoc, append-nil}
use native.Mathlib.Omega.{arith}
use mathlib.Core.Bool.{Bool, true, false}
use kagi.Base.Tests.{ltb, leb, if◌then◌else◌, Bool-cases}
use kagi.Base.Lists.{length, length-append}
use kagi.Base.Maybe.{◌>>=◌}

-- The octets are appended if they fit into `out_len`.
unfoldable pub put : ℕ → List ℕ → List ℕ → Option (List ℕ)
put out_len written bytes =
    if ltb out_len (length written + length bytes) then none else some (written ++ bytes)

-- Writes one after another, the first that does not fit ending them.
unfoldable pub put_parts : ℕ → List ℕ → List (List ℕ) → Option (List ℕ)
unfolding put
put_parts out_len written [] = some written
put_parts out_len written (part ∷ parts) =
    put out_len written part >>= λ t. put_parts out_len t parts

abbrev pub joined : List (List ℕ) → List ℕ
joined [] = []
joined (part ∷ parts) = part ++ joined parts

pub put-put : (n : ℕ) (w a b : List ℕ) → (put n w a >>= λ t. put n t b) ≡ put n w (a ++ b)
unfolding put
put-put n w a b = ground (arith, length-append w a, length-append a b, append_assoc w a b)

-- After a write that fits, a step may be replaced by one that agrees with it there.
pub after {ℓ} :
    {B : Type ℓ} (n : ℕ) (w a : List ℕ) (f g : List ℕ → Option B)
    → ((t : List ℕ) → length t ≤ n → f t ≡ g t)
    → (put n w a >>= f) ≡ (put n w a >>= g)
unfolding put
after n w a f g agree = elim (Bool-cases (ltb n (length w + length a))) [
  | inl over ↦ rw over refl
  | inr fits ↦ rw fits (agree (w ++ a) (ground (arith, length-append w a)))
]

pub put-put-put :
    (n : ℕ) (w a b c : List ℕ)
    → (put n w a >>= λ t. put n t b >>= λ u. put n u c) ≡ put n w (a ++ (b ++ c))
put-put-put n w a b c =
    after n w a (λ t. put n t b >>= λ u. put n u c) (λ t. put n t (b ++ c)) (λ t _. put-put n t b c)
    ∙ put-put n w a (b ++ c)

pub put-nil : (n : ℕ) (w : List ℕ) → length w ≤ n → put n w [] ≡ some w
unfolding put
put-nil n w h = ground (arith, append-nil w)

pub put_lem : (n : ℕ) (a : List ℕ) → put n [] a ≡ (if leb (length a) n then some a else none)
unfolding put
put_lem n a = ground arith

pub put_parts_lem :
    (n : ℕ) (w : List ℕ) (parts : List (List ℕ))
    → length w ≤ n
    → put_parts n w parts ≡ put n w (joined parts)
unfolding put_parts
put_parts_lem n w [] h = sym (put-nil n w h)
put_parts_lem n w (part ∷ parts) h =
    after n w part _ (λ t. put n t (joined parts)) (λ t fits. put_parts_lem n t parts fits)
    ∙ put-put n w part (joined parts)

-- The parts, and after them `back`.
abbrev pub joined_onto : List (List ℕ) → List ℕ → List ℕ
joined_onto [] back = back
joined_onto (part ∷ parts) back = part ++ joined_onto parts back

pub joined_onto_lem :
    (parts : List (List ℕ)) (back : List ℕ) → joined parts ++ back ≡ joined_onto parts back
joined_onto_lem [] back = refl
joined_onto_lem (part ∷ parts) back =
    append_assoc part (joined parts) back ∙ ap (λ t. part ++ t) (joined_onto_lem parts back)

-- A write that fits is made.
pub put-fits : (n : ℕ) (a : List ℕ) → length a ≤ n → put n [] a ≡ some a
put-fits n a h = ground (arith, put_lem n a)

if_some : (b : Bool) (x : List ℕ) {y : List ℕ} → (if b then some x else none) ≡ some y → x ≡ y
if_some true x e = cc
if_some false x e = cc

-- Parts are written into a long enough buffer exactly as what they make joined.
pub put_parts_iff :
    (n : ℕ) (parts : List (List ℕ)) (all : List ℕ)
    → length all ≤ n
    → (put_parts n [] parts ≡ some all) ↔ (all ≡ joined parts)
put_parts_iff n parts all fits =
    let whole = put_parts_lem n [] parts (omega arith) in
    (
      λ e. sym (
          if_some (leb (length (joined parts)) n) (joined parts)
            (sym (whole ∙ put_lem n (joined parts)) ∙ e)),
      λ same. whole ∙ ap (put n []) (sym same) ∙ put-fits n all fits,
    )
