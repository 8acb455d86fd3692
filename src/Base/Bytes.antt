-- ===== src/Base/Bytes.antt =====
-- Unsigned words as byte strings, little and big endian, and the parts of a byte string.
use Prim.Native.Nat.{ℕ, zero, suc, ◌+◌, ◌*◌, ◌/◌, ◌%◌, ◌^◌, ◌<◌}
use mathlib.Core.Path.{◌≡◌, refl, ap, ◌∙◌}
use mathlib.Core.List.{List, [], ◌∷◌, ◌++◌}
use mathlib.Core.Bool.{true}
use mathlib.Core.Option.{Option, none, some}
use native.Mathlib.Nat.{pow-succ'}
use native.Mathlib.Omega.{arith}
use kagi.Base.Tests.{leb, if◌then◌else◌}
use kagi.Base.Lists.{length, take, drop, All, take-append_length, drop-append_length, length-append}

abbrev pub IsByte : ℕ → Type 0
IsByte b = b < 256

abbrev pub AreBytes : List ℕ → Type 0
AreBytes = All IsByte

-- The low `n` bytes of `v`, least significant first: `to_le_bytes`.
abbrev pub le_bytes : ℕ → ℕ → List ℕ
le_bytes zero v = []
le_bytes (suc n) v = (v % 256) ∷ le_bytes n (v / 256)

abbrev pub from_le : List ℕ → ℕ
from_le [] = 0
from_le (b ∷ bs) = b + 256 * from_le bs

abbrev pub from_be_onto : ℕ → List ℕ → ℕ
from_be_onto acc [] = acc
from_be_onto acc (b ∷ bs) = from_be_onto (acc * 256 + b) bs

-- `from_be_bytes`
abbrev pub from_be : List ℕ → ℕ
from_be = from_be_onto 0

-- `to_be_bytes`
abbrev pub be_bytes : ℕ → ℕ → List ℕ
be_bytes zero v = []
be_bytes (suc n) v = be_bytes n (v / 256) ++ (v % 256) ∷ []

pub length-le_bytes : (n v : ℕ) → length (le_bytes n v) ≡ n
length-le_bytes zero v = refl
length-le_bytes (suc n) v = ap suc (length-le_bytes n (v / 256))

pub le_bytes-AreBytes : (n v : ℕ) → AreBytes (le_bytes n v)
le_bytes-AreBytes zero v = tt
le_bytes-AreBytes (suc n) v = (omega arith, le_bytes-AreBytes n (v / 256))

pub from_le-le_bytes : (n v : ℕ) → v < 256 ^ n → from_le (le_bytes n v) ≡ v
from_le-le_bytes zero v h = omega arith
from_le-le_bytes (suc n) v h =
    omega (arith, from_le-le_bytes n (v / 256) (omega (arith, pow-succ' 256 n)))

pub from_le-lt : (bs : List ℕ) → AreBytes bs → from_le bs < 256 ^ length bs
from_le-lt [] h = omega arith
from_le-lt (b ∷ bs) (hb, h) = omega (arith, from_le-lt bs h, pow-succ' 256 (length bs))

pub le_bytes-from_le : (bs : List ℕ) → AreBytes bs → le_bytes (length bs) (from_le bs) ≡ bs
le_bytes-from_le [] h = refl
le_bytes-from_le (b ∷ bs) (hb, h) =
    λ i. head i ∷ (ap (le_bytes (length bs)) rest ∙ le_bytes-from_le bs h) i
  where
    head : (b + 256 * from_le bs) % 256 ≡ b
    head = omega arith

    rest : (b + 256 * from_le bs) / 256 ≡ from_le bs
    rest = omega arith

pub length-be_bytes : (n v : ℕ) → length (be_bytes n v) ≡ n
length-be_bytes zero v = refl
length-be_bytes (suc n) v =
    omega
      (arith, length-append (be_bytes n (v / 256)) ((v % 256) ∷ []), length-be_bytes n (v / 256))

from_be_onto-append :
    (acc : ℕ) (xs ys : List ℕ) → from_be_onto acc (xs ++ ys) ≡ from_be_onto (from_be_onto acc xs) ys
from_be_onto-append acc [] ys = refl
from_be_onto-append acc (x ∷ xs) ys = from_be_onto-append (acc * 256 + x) xs ys

pub from_be-be_bytes : (n v : ℕ) → v < 256 ^ n → from_be (be_bytes n v) ≡ v
from_be-be_bytes zero v h = omega arith
from_be-be_bytes (suc n) v h = omega (
  arith,
  from_be_onto-append 0 (be_bytes n (v / 256)) ((v % 256) ∷ []),
  from_be-be_bytes n (v / 256) (omega (arith, pow-succ' 256 n)),
)

-- `b.get(at..at + n)`
abbrev pub get_range : List ℕ → ℕ → ℕ → Option (List ℕ)
get_range b at n = if leb (at + n) (length b) then some (take n (drop at b)) else none

-- A part of a byte string is found where it stands.
pub get_range-append :
    (front part back : List ℕ) (at n : ℕ)
    → length front ≡ at
    → length part ≡ n
    → get_range (front ++ (part ++ back)) at n ≡ some part
get_range-append front part back at n hf hp =
    rw fits (ap some (ap (take n) rest ∙ take-append_length n part back hp))
  where
    fits : leb (at + n) (length (front ++ (part ++ back))) ≡ true
    fits = ground (arith, length-append front (part ++ back), length-append part back)

    rest : drop at (front ++ (part ++ back)) ≡ part ++ back
    rest = drop-append_length at front (part ++ back) hf

pub AreBytes-take : (n : ℕ) (bs : List ℕ) → AreBytes bs → AreBytes (take n bs)
AreBytes-take zero bs h = tt
AreBytes-take (suc n) [] h = tt
AreBytes-take (suc n) (b ∷ bs) (hb, h) = (hb, AreBytes-take n bs h)
