-- ===== src/OperationScope/Cursor.antt =====
-- modules/common/operation_scope.rs: `Reader` and the length-prefixed writes of `Writer`. A reader is
-- the octets from its position on; positions stay far below the width of a `usize`.
use kagi.Base.{
  ℕ, ◌^◌, ◌<◌, ◌≡◌, refl, ap, ◌∙◌, Option, none, some, true, List, ◌++◌, arith, ltb, if◌then◌else◌,
  length, take, drop, length-append, take-append_length, drop-append_length,
}
use kagi.Base.Bytes.{le_bytes, from_le, length-le_bytes, from_le-le_bytes}
use kagi.Base.Maybe.{◌>>=◌}
use kagi.Base.Buffer.{put, put-put}

unfoldable pub read_take : ℕ → List ℕ → Option (List ℕ × List ℕ)
read_take n rest = if ltb (length rest) n then none else some (take n rest, drop n rest)

-- `u8`, `u16`, `u32` and `u64`, by their number of octets.
unfoldable pub read_uint : ℕ → List ℕ → Option (ℕ × List ℕ)
unfolding read_take
read_uint n rest = do (part, later) ← read_take n rest; some (from_le part, later)

-- `f8` and `f16`: a length of that many octets, and so many octets after it.
unfoldable pub read_field : ℕ → List ℕ → Option (List ℕ × List ℕ)
unfolding read_uint
read_field n rest = do (size, later) ← read_uint n rest; read_take size later

-- The writers `f8` and `f16`, whose length must fit its octets.
unfoldable pub put_field : ℕ → ℕ → List ℕ → List ℕ → Option (List ℕ)
unfolding put
put_field n out_len written bytes =
    if ltb (length bytes) (256 ^ n)
    then (put out_len written (le_bytes n (length bytes)) >>= λ t. put out_len t bytes)
    else none

pub read_take-append :
    (n : ℕ) (part later : List ℕ)
    → length part ≡ n
    → read_take n (part ++ later) ≡ some (part, later)
unfolding read_take
read_take-append n part later h =
    rw (take-append_length n part later h, drop-append_length n part later h)
      (ground (arith, length-append part later))

pub read_uint-append :
    (n v : ℕ) (later : List ℕ) → v < 256 ^ n → read_uint n (le_bytes n v ++ later) ≡ some (v, later)
unfolding read_uint
read_uint-append n v later h =
    ap (λ (o : Option (List ℕ × List ℕ)). o >>= λ (part, rest). some (from_le part, rest))
      (read_take-append n (le_bytes n v) later (length-le_bytes n v))
    ∙ ap (λ (k : ℕ). some (k, later)) (from_le-le_bytes n v h)

pub read_field-append :
    (n : ℕ) (part later : List ℕ)
    → length part < 256 ^ n
    → read_field n (le_bytes n (length part) ++ (part ++ later)) ≡ some (part, later)
unfolding read_field
read_field-append n part later h =
    ap (λ (o : Option (ℕ × List ℕ)). o >>= λ (size, rest). read_take size rest)
      (read_uint-append n (length part) (part ++ later) h)
    ∙ read_take-append (length part) part later refl

pub put_field_lem :
    (n out_len : ℕ) (written bytes : List ℕ)
    → length bytes < 256 ^ n
    → put_field n out_len written bytes ≡ put out_len written (le_bytes n (length bytes) ++ bytes)
unfolding put_field
put_field_lem n out_len written bytes h =
    rw (within (length bytes) (256 ^ n) h)
      (put-put out_len written (le_bytes n (length bytes)) bytes)
  where
    within : (a b : ℕ) → a < b → ltb a b ≡ true
    within a b h = ground arith
