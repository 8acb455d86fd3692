-- ===== src/OperationScope/Record/Layout.antt =====
-- modules/common/operation_scope.rs: the fixed part of a record and its offsets.
use kagi.Base.{
  zero, suc, ℕ, ◌+◌, ◌^◌, ◌<◌, ◌≡◌, refl, ap, ◌∙◌, true, Option, some, List, [], ◌∷◌, ◌++◌, arith,
  length, leb, drop, length-append, take-append_length,
}
use mathlib.Core.List.{append_assoc}
use kagi.Base.Bytes.{le_bytes, from_le, get_range, length-le_bytes, from_le-le_bytes}
use kagi.Base.Maybe.{◌>>=◌}
use kagi.Base.Buffer.{joined}
use kagi.OperationScope.{Scope}
use kagi.OperationScope.Record.{scope_parts, uint_at, read_scope}

-- The fields are of the widths that their types have.
abbrev pub IsTypedScope : Scope → Type 0
IsTypedScope s =
    (s.kind < 256 ^ 1)
    × (s.level < 256 ^ 1)
    × (s.actor_class < 256 ^ 1)
    × (s.ops < 256 ^ 4)
    × (s.region < 256 ^ 4)
    × (s.cell < 256 ^ 4)
    × (s.locality < 256 ^ 4)
    × (s.recovery_generation < 256 ^ 8)
    × (s.issued_ms < 256 ^ 8)
    × (s.expiry_ms < 256 ^ 8)
    × (length s.actor ≡ 16)
    × (length s.tenant ≡ 16)
    × (length s.service ≡ 16)
    × (length s.object ≡ 16)
    × (length s.policy ≡ 32)

leb-skip : (k at n m : ℕ) → leb (k + at + n) (k + m) ≡ leb (at + n) m
leb-skip k at n m = ground arith

-- Reading past a part of `k` octets is reading what follows it.
drop-skip :
    (front back : List ℕ) (k at : ℕ)
    → length front ≡ k
    → drop (k + at) (front ++ back) ≡ drop at back
drop-skip [] back k at h = let e : k + at ≡ at = omega arith in rw e refl
drop-skip (x ∷ front) back zero at h = absurd (omega arith)
drop-skip (x ∷ front) back (suc k) at h =
    let e : suc k + at ≡ suc (k + at) = omega arith in
    rw e (drop-skip front back k at (omega arith))

range-skip :
    (front back : List ℕ) (k at n : ℕ)
    → length front ≡ k
    → get_range (front ++ back) (k + at) n ≡ get_range back at n
range-skip front back k at n h = rw (drop-skip front back k at h) (rw fits refl)
  where
    fits : leb (k + at + n) (length (front ++ back)) ≡ leb (at + n) (length back)
    fits = ground (arith, length-append front back)

range-here :
    (part back : List ℕ) (n : ℕ) → length part ≡ n → get_range (part ++ back) 0 n ≡ some part
range-here part back n h =
    let fits : leb (0 + n) (length (part ++ back)) ≡ true =
      ground (arith, length-append part back) in
    rw (fits, take-append_length n part back h) refl

-- The parts of a layout, by number, and where each begins.
abbrev nth : List (List ℕ) → ℕ → List ℕ
nth [] i = []
nth (part ∷ parts) zero = part
nth (part ∷ parts) (suc i) = nth parts i

abbrev offset : List (List ℕ) → ℕ → ℕ
offset [] i = 0
offset (part ∷ parts) zero = 0
offset (part ∷ parts) (suc i) = length part + offset parts i

range-part :
    (parts : List (List ℕ)) (back : List ℕ) (i at n : ℕ)
    → i < length parts
    → at ≡ offset parts i
    → length (nth parts i) ≡ n
    → get_range (joined parts ++ back) at n ≡ some (nth parts i)
range-part [] back i at n low h k = absurd (omega arith)
range-part (part ∷ parts) back zero at n low h k =
    rw (h, append_assoc part (joined parts) back) (range-here part (joined parts ++ back) n k)
range-part (part ∷ parts) back (suc i) at n low h k =
    rw (h, append_assoc part (joined parts) back)
      (range-skip part (joined parts ++ back) (length part) (offset parts i) n refl
        ∙ range-part parts back i (offset parts i) n (omega arith) refl k)

uint-part :
    (parts : List (List ℕ)) (back : List ℕ) (i at n v : ℕ)
    → v < 256 ^ n
    → i < length parts
    → at ≡ offset parts i
    → nth parts i ≡ le_bytes n v
    → uint_at (joined parts ++ back) at n ≡ some v
uint-part parts back i at n v fits low h e =
    ap (λ (o : Option (List ℕ)). o >>= λ part. some (from_le part))
      (range-part parts back i at n low h (ap length e ∙ length-le_bytes n v))
    ∙ ap (λ t. some (from_le t)) e
    ∙ ap some (from_le-le_bytes n v fits)

-- The fixed part that `Scope::write` writes is read back as the same scope, whatever follows it.
pub read_scope-joined :
    (s : Scope) (back : List ℕ)
    → IsTypedScope s
    → read_scope (joined (scope_parts s) ++ back) ≡ some s
unfolding read_scope
read_scope-joined s back (k, l, c, o, g, e, y, v, i, x, a, t, w, j, p) =
    let parts = scope_parts s in
    rw
      (
        read_scope,
        range-part parts back 0 0 4 (omega arith) (omega arith) refl,
        uint-part parts back 1 4 1 1 (omega arith) (omega arith) (omega arith) refl,
        uint-part parts back 2 5 1 s.kind k (omega arith) (omega arith) refl,
        uint-part parts back 3 6 1 s.level l (omega arith) (omega arith) refl,
        uint-part parts back 4 7 1 s.actor_class c (omega arith) (omega arith) refl,
        uint-part parts back 5 8 4 s.ops o (omega arith) (omega arith) refl,
        uint-part parts back 6 12 4 s.region g (omega arith) (omega arith) refl,
        uint-part parts back 7 16 4 s.cell e (omega arith) (omega arith) refl,
        uint-part parts back 8 20 4 s.locality y (omega arith) (omega arith) refl,
        uint-part parts back 9 24 8 s.recovery_generation v (omega arith) (omega arith) refl,
        uint-part parts back 10 32 8 s.issued_ms i (omega arith) (omega arith) refl,
        uint-part parts back 11 40 8 s.expiry_ms x (omega arith) (omega arith) refl,
        range-part parts back 12 48 16 (omega arith) (omega arith) a,
        range-part parts back 13 64 16 (omega arith) (omega arith) t,
        range-part parts back 14 80 16 (omega arith) (omega arith) w,
        range-part parts back 15 96 16 (omega arith) (omega arith) j,
        range-part parts back 16 112 32 (omega arith) (omega arith) p,
      )
      refl
