-- ===== src/Cbor/Bounds.antt =====
-- modules/common/cbor.rs: how far the reader moves, whatever the octets are.
use kagi.Base.{
  ℕ, zero, suc, ◌+◌, ◌*◌, ◌/◌, ◌≤◌, ◌^◌, ◌≡◌, refl, sym, ap, ◌∙◌, Bool, true, false, List, arith,
  ltb, leb, ◌==◌, bit_and, if◌then◌else◌, length,
}
use mathlib.Core.Path.{subst}
use kagi.Base.Outcome.{Result, ok, err, ◌>>=◌, refuse_if}
use kagi.Cbor.{
  CborError, Reader, take_octets, first_of, read_word, read_argument, header, skip_each, skip_body,
  skip_at_depth, skip_value, max_depth, major_unsigned, major_negative, major_bytes, major_text,
  major_array, major_map,
}

-- `k` octets further on at least, in the same octets and within them.
pub Past : ℕ → Reader → Reader → Type 0
Past k r s = (s.octets ≡ r.octets) × (r.at + k ≤ s.at) × (s.at ≤ length (s.octets))

further_on : (j k l : ℕ) (r s t : Reader) → l ≤ j + k → Past j r s → Past k s t → Past l r t
unfolding Past
further_on j k l r s t le (same, on, in_s) (same', on', in_t) = (same' ∙ same, omega arith, in_t)

module _ {ℓ} {A : Type ℓ} where
  -- Whatever the reading answers, it ends so much further on.
  abbrev Ends : (A → Type 0) → Result CborError A → Type ℓ
  Ends P m = (a : A) → m ≡ ok a → P a

  if_bound :
      (P : A → Type 0) (b : Bool) (x y : Result CborError A)
      → (b ≡ true → Ends P x)
      → (b ≡ false → Ends P y)
      → Ends P (if b then x else y)
  if_bound P true x y f g = f refl
  if_bound P false x y f g = g refl

  err_bound : (P : A → Type 0) (e : CborError) → Ends P (err e)
  err_bound P e a h = cc

  ok_bound : (P : A → Type 0) (x : A) → P x → Ends P (ok x)
  ok_bound P x h a e = let same : x ≡ a = cc in subst P same h

then_bound {ℓ κ} :
    {A : Type ℓ} {B : Type κ} (P : A → Type 0) (Q : B → Type 0) (m : Result CborError A)
    (next : A → Result CborError B)
    → Ends P m
    → ((a : A) → P a → Ends Q (next a))
    → Ends Q (m >>= next)
then_bound P Q (err e) next f g b h = cc
then_bound P Q (ok a) next f g b h = g a (f a refl) b h

abbrev PastTo : ℕ → Reader → List ℕ × Reader → Type 0
PastTo k r (part, s) = Past k r s

abbrev PastArgument : ℕ → Reader → ℕ × Reader → Type 0
PastArgument k r (n, s) = Past k r s

take_octets-Past : (n : ℕ) (r : Reader) → Ends (PastTo n r) (take_octets n r)
unfolding take_octets Past
take_octets-Past n r =
    if_bound (PastTo n r) (leb (2 ^ 64) (r.at + n)) _ _
      (λ b. err_bound (PastTo n r) CborError.overflow)
      (λ b.
        if_bound (PastTo n r) (ltb (length (r.octets)) (r.at + n)) _ _
          (λ b. err_bound (PastTo n r) CborError.truncated)
          (λ fits. ok_bound (PastTo n r) _ (refl, omega arith, ground arith)))

read_word-Past : (n : ℕ) (r : Reader) → Ends (PastArgument 0 r) (read_word n r)
unfolding read_word Past
read_word-Past n r =
    then_bound (PastTo n r) (PastArgument 0 r) (take_octets n r) _ (take_octets-Past n r)
      (λ (part, s) past.
        ok_bound (PastArgument 0 r) _ (further_on n 0 0 r s s (omega arith) past (here n r s past)))
  where
    here : (n : ℕ) (r s : Reader) → Past n r s → Past 0 s s
    here n r s (same, on, within) = (refl, omega arith, within)

read_argument-Past :
    (i : ℕ) (r : Reader) → r.at ≤ length (r.octets) → Ends (PastArgument 0 r) (read_argument i r)
unfolding read_argument Past
read_argument-Past i r inside =
    split _ _ _ (ok_bound (PastArgument 0 r) (i, r) (refl, omega arith, inside)) (
      split _ _ _ (read_word-Past 1 r) (
        split _ _ _ (read_word-Past 2 r) (
          split _ _ _ (read_word-Past 4 r) (
            split _ _ _ (read_word-Past 8 r)
              (err_bound (PastArgument 0 r) CborError.unsupported)))))
  where
    split :
        (b : Bool) (x y : Result CborError (ℕ × Reader))
        → Ends (PastArgument 0 r) x
        → Ends (PastArgument 0 r) y
        → Ends (PastArgument 0 r) (if b then x else y)
    split b x y f g = if_bound (PastArgument 0 r) b x y (λ e. f) (λ e. g)

abbrev PastHeader : Reader → ℕ × ℕ × Reader → Type 0
PastHeader r (major, n, s) = Past 1 r s

header-Past : (r : Reader) → Ends (PastHeader r) (header r)
unfolding header Past
header-Past r =
    then_bound (PastTo 1 r) (PastHeader r) (take_octets 1 r) _ (take_octets-Past 1 r)
      (λ (part, s) (same, on, within).
        then_bound (λ first. Unit) (PastHeader r) (first_of part) _ (λ a h. tt)
          (λ first _.
            then_bound (λ checked. Unit) (PastHeader r)
              (refuse_if (ltb major_map (first / 32)) CborError.unsupported) _ (λ a h. tt)
              (λ checked _.
                then_bound (PastArgument 0 s) (PastHeader r) (read_argument (bit_and first 0x1f) s)
                  _ (read_argument-Past (bit_and first 0x1f) s (omega (arith, within)))
                  (λ (n, t) past.
                    ok_bound (PastHeader r) (first / 32, n, t)
                      (further_on 1 0 1 r s t (omega arith) (same, on, within) past)))))

-- A loop of `n` skips moves on by `n * k` octets at least, where each moves on by `k`.
skip_each-Past :
    (k : ℕ) (skip : Reader → Result CborError Reader)
    → ((r : Reader) → Ends (Past k r) (skip r))
    → (n : ℕ) (r : Reader) → r.at ≤ length (r.octets)
    → Ends (Past (n * k) r) (skip_each skip n r)
unfolding skip_each Past
skip_each-Past k skip step zero r inside = ok_bound (Past (0 * k) r) r (refl, omega arith, inside)
skip_each-Past k skip step (suc n) r inside =
    then_bound (Past k r) (Past (suc n * k) r) (skip r) (skip_each skip n) (step r) (λ s past.
      λ t e.
        further_on k (n * k) (suc n * k) r s t (omega arith) past
          (skip_each-Past k skip step n s (past.2) t e))

skip_twice-Past :
    (skip : Reader → Result CborError Reader)
    → ((r : Reader) → Ends (Past 1 r) (skip r))
    → (r : Reader) → Ends (Past 2 r) (skip r >>= skip)
skip_twice-Past skip step r =
    then_bound (Past 1 r) (Past 2 r) (skip r) skip (step r)
      (λ s past t e. further_on 1 1 2 r s t (omega arith) past (step s t e))

-- How many octets an item's header promises after it, at least.
pub promised : ℕ → ℕ → ℕ
promised major n =
    if major == major_unsigned
    then 0
    else if major == major_negative
    then 0
    else if major == major_bytes
    then n * 1
    else if major == major_text
    then n * 1
    else if major == major_array
    then n * 1
    else n * 2

choose_bound :
    (s : Reader) (b : Bool) (j k : ℕ) (x y : Result CborError Reader)
    → Ends (Past j s) x
    → Ends (Past k s) y
    → Ends (Past (if b then j else k) s) (if b then x else y)
choose_bound s true j k x y f g = f
choose_bound s false j k x y f g = g

skip_body-Past :
    (skip : Reader → Result CborError Reader)
    → ((r : Reader) → Ends (Past 1 r) (skip r))
    → (major n : ℕ) (s : Reader) → s.at ≤ length (s.octets)
    → Ends (Past (promised major n) s) (skip_body skip major n s)
unfolding promised skip_body Past
skip_body-Past skip step major n s inside = choose_bound s (major == major_unsigned) _ _ _ _ stay (
    choose_bound s (major == major_negative) _ _ _ _ stay (
      choose_bound s (major == major_bytes) _ _ _ _ string (
        choose_bound s (major == major_text) _ _ _ _ string (
          choose_bound s (major == major_array) _ _ _ _ (skip_each-Past 1 skip step n s inside)
            (skip_each-Past 2 (λ r. skip r >>= skip) (skip_twice-Past skip step) n s inside)))))
  where
    stay : Ends (Past 0 s) (ok s)
    stay = ok_bound (Past 0 s) s (refl, omega arith, inside)

    string : Ends (Past (n * 1) s) (take_octets n s >>= λ (part, later). ok later)
    string =
        then_bound (PastTo n s) (Past (n * 1) s) (take_octets n s) _ (take_octets-Past n s)
          (λ (part, t) (same, on, within). ok_bound (Past (n * 1) s) t (same, omega arith, within))

skip_at_depth-Past : (left : ℕ) (r : Reader) → Ends (Past 1 r) (skip_at_depth left r)
unfolding skip_at_depth Past
skip_at_depth-Past zero r = err_bound (Past 1 r) CborError.too_deep
skip_at_depth-Past (suc left) r =
    then_bound (PastHeader r) (Past 1 r) (header r) _ (header-Past r) (λ (major, n, s) past t e.
      further_on 1 (promised major n) 1 r s t (omega arith) past
        (skip_body-Past (skip_at_depth left) (skip_at_depth-Past left) major n s (past.2) t e))

-- An item that is skipped stays within the octets, and has at least the octets that its header
-- promises: its length for a string, one for an element of an array, two for an entry of a map.
pub skip_value-Past :
    (r s t : Reader) (major n : ℕ)
    → skip_value r ≡ ok t
    → header r ≡ ok (major, n, s)
    → (t.octets ≡ r.octets) × (r.at + 1 + promised major n ≤ t.at) × (t.at ≤ length (r.octets))
unfolding skip_value skip_at_depth Past
skip_value-Past r s t major n e at =
    let past = header-Past r (major, n, s) at in
    let body =
      sym (ap (λ m. m >>= λ (major, n, s). skip_body (skip_at_depth max_depth) major n s) at) ∙ e in
    let (same, on, within) =
      further_on 1 (promised major n) (1 + promised major n) r s t (omega arith) past (
        skip_body-Past (skip_at_depth max_depth) (skip_at_depth-Past max_depth) major n s (past.2) t
          body) in
    (same, omega (arith, on), rw (← same) within)
