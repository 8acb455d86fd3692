-- ===== src/Cbor/Skipped.antt =====
-- modules/common/cbor.rs: skipping what was written.
use kagi.Base.{
  ℕ, zero, suc, ◌≤◌, ◌≡◌, refl, sym, ap, ◌∙◌, Bool, true, false, ◌&&◌, List, [], ◌++◌, arith, ltb,
  leb, max, if◌then◌else◌, length,
}
use mathlib.Core.List.{append_assoc, append-nil}
use kagi.Base.Outcome.{Result, ok, err, ◌>>=◌}
use kagi.Cbor.{
  CborError, Reader, take_octets, skip_each, skip_body, skip_at_depth, skip_value, max_depth,
  major_unsigned, major_negative, major_bytes, major_text, major_array, major_map,
}
use kagi.Cbor.Header.{
  between, IsAddressed, regrouped, ungrouped, Width, IsWidth, encode_header, header-between,
  take_octets-between,
}
use kagi.Cbor.Items.{
  Item, natural, negative, octets, string, array, table, Items, end, item, Entries, none_left,
  entry, count, count_entries, encode, encode_items, encode_entries, depth, depth_items,
  depth_entries, IsItem, AreItems, AreEntries,
}

abbrev pub skipped_to : Bool → Reader → Result CborError Reader
skipped_to shallow r = if shallow then ok r else err CborError.too_deep

skipped_to-and :
    (a b : Bool) (r s : Reader) (next : Reader → Result CborError Reader)
    → next r ≡ skipped_to b s
    → (skipped_to a r >>= next) ≡ skipped_to (a && b) s
skipped_to-and true b r s next e = e
skipped_to-and false b r s next e = refl

module _ (w : Width) (major n : ℕ) (fits : IsWidth w n) (known : major ≤ major_map) (left : ℕ)
    (front : List ℕ) where
  -- A header is read, and what it heads is skipped.
  skip_at_depth-header :
      (tail back : List ℕ)
      → IsAddressed (front ++ ((encode_header w major n ++ tail) ++ back))
      → skip_at_depth (suc left) (between front ((encode_header w major n ++ tail) ++ back))
        ≡ skip_body
            (skip_at_depth left)
            major
            n
            (between (front ++ encode_header w major n) (tail ++ back))
  unfolding skip_at_depth
  skip_at_depth-header tail back small =
      ap (λ t. skip_at_depth (suc left) (between front t))
        (append_assoc (encode_header w major n) tail back)
      ∙ ap (λ m. m >>= λ (major, argument, r). skip_body (skip_at_depth left) major argument r)
          (header-between w major n front (tail ++ back) known fits
            (ungrouped front (encode_header w major n) tail back small))

  behind_header :
      (tail back : List ℕ)
      → IsAddressed (front ++ ((encode_header w major n ++ tail) ++ back))
      → IsAddressed ((front ++ encode_header w major n) ++ (tail ++ back))
  behind_header tail back small =
      regrouped front (encode_header w major n) (tail ++ back)
        (ungrouped front (encode_header w major n) tail back small)

  -- What is skipped after a header is skipped with it.
  skip_headed :
      (shallow : Bool) (tail back : List ℕ)
      → IsAddressed (front ++ ((encode_header w major n ++ tail) ++ back))
      → skip_body
          (skip_at_depth left)
          major
          n
          (between (front ++ encode_header w major n) (tail ++ back))
        ≡ skipped_to shallow (between ((front ++ encode_header w major n) ++ tail) back)
      → skip_at_depth (suc left) (between front ((encode_header w major n ++ tail) ++ back))
        ≡ skipped_to shallow (between (front ++ (encode_header w major n ++ tail)) back)
  skip_headed shallow tail back small e =
      skip_at_depth-header tail back small
      ∙ e
      ∙ ap (λ f. skipped_to shallow (between f back))
          (append_assoc front (encode_header w major n) tail)

  skip_bare :
      (back : List ℕ)
      → IsAddressed (front ++ (encode_header w major n ++ back))
      → skip_at_depth (suc left) (between front (encode_header w major n ++ back))
        ≡ skip_body (skip_at_depth left) major n (between (front ++ encode_header w major n) back)
  unfolding skip_at_depth
  skip_bare back small =
      ap (λ m. m >>= λ (major, argument, r). skip_body (skip_at_depth left) major argument r)
        (header-between w major n front back known fits small)

skip_string :
    (front bytes back : List ℕ)
    → IsAddressed (front ++ (bytes ++ back))
    → (take_octets (length bytes) (between front (bytes ++ back)) >>= λ (part, later). ok later)
      ≡ ok (between (front ++ bytes) back)
skip_string front bytes back small =
    ap (λ m. m >>= λ (part, later). ok later) (take_octets-between front bytes back small)

-- Two items, one after the other.
skip_both :
    (a b : Bool) (first second front back : List ℕ) (skip next : Reader → Result CborError Reader)
    → skip (between front (first ++ (second ++ back)))
      ≡ skipped_to a (between (front ++ first) (second ++ back))
    → next (between (front ++ first) (second ++ back))
      ≡ skipped_to b (between ((front ++ first) ++ second) back)
    → (skip (between front ((first ++ second) ++ back)) >>= next)
      ≡ skipped_to (a && b) (between (front ++ (first ++ second)) back)
skip_both a b first second front back skip next e f =
    ap (λ t. skip (between front t) >>= next) (append_assoc first second back)
    ∙ ap (λ m. m >>= next) e
    ∙ skipped_to-and a b _ _ next f
    ∙ ap (λ t. skipped_to (a && b) (between t back)) (append_assoc front first second)

both_shallow : (d e left : ℕ) → (ltb d left && leb e left) ≡ leb (max (suc d) e) left
both_shallow d e left = ground arith

all_shallow :
    (c d e left : ℕ)
    → ((ltb c left && ltb d left) && leb e left) ≡ leb (max (suc c) (max (suc d) e)) left
all_shallow c d e left = ground arith

zero_shallow : (left : ℕ) → true ≡ leb 0 left
zero_shallow left = ground arith

-- An item of a header and what follows it, of depth `d`.
skip_composite :
    (w : Width) (major n : ℕ) (front tail back : List ℕ) (d left : ℕ)
    → IsWidth w n
    → major ≤ major_map
    → IsAddressed (front ++ ((encode_header w major n ++ tail) ++ back))
    → ((l : ℕ)
        → skip_body
            (skip_at_depth l)
            major
            n
            (between (front ++ encode_header w major n) (tail ++ back))
          ≡ skipped_to (leb d l) (between ((front ++ encode_header w major n) ++ tail) back))
    → skip_at_depth left (between front ((encode_header w major n ++ tail) ++ back))
      ≡ skipped_to (ltb d left) (between (front ++ (encode_header w major n ++ tail)) back)
unfolding skip_at_depth
skip_composite w major n front tail back d zero fits known small inside =
    let deep : ltb d 0 ≡ false = ground arith in rw deep refl
skip_composite w major n front tail back d (suc left) fits known small inside =
    let next : leb d left ≡ ltb d (suc left) = ground arith in
    skip_headed w major n fits known left front (leb d left) tail back small (inside left)
    ∙ ap (λ b. skipped_to b (between (front ++ (encode_header w major n ++ tail)) back)) next

skip_scalar :
    (w : Width) (major n : ℕ) (front back : List ℕ) (left : ℕ)
    → IsWidth w n
    → major ≤ major_map
    → IsAddressed (front ++ (encode_header w major n ++ back))
    → ((l : ℕ) (r : Reader) → skip_body (skip_at_depth l) major n r ≡ ok r)
    → skip_at_depth left (between front (encode_header w major n ++ back))
      ≡ skipped_to (ltb 0 left) (between (front ++ encode_header w major n) back)
unfolding skip_at_depth
skip_scalar w major n front back zero fits known small inside = refl
skip_scalar w major n front back (suc left) fits known small inside =
    let next : true ≡ ltb 0 (suc left) = ground arith in
    skip_bare w major n fits known left front back small
    ∙ inside left (between (front ++ encode_header w major n) back)
    ∙ ap (λ b. skipped_to b (between (front ++ encode_header w major n) back)) next

mutual
  unfolding encode depth IsItem count count_entries skip_each skip_body

  skip_item :
      (x : Item) (left : ℕ) (front back : List ℕ)
      → IsItem x
      → IsAddressed (front ++ (encode x ++ back))
      → skip_at_depth left (between front (encode x ++ back))
        ≡ skipped_to (ltb (depth x) left) (between (front ++ encode x) back)
  skip_item (natural w n) left front back fits small =
      skip_scalar w major_unsigned n front back left fits (omega arith) small (λ l r. refl)
  skip_item (negative w n) left front back fits small =
      skip_scalar w major_negative n front back left fits (omega arith) small (λ l r. refl)
  skip_item (octets w bytes) left front back fits small =
      skip_composite w major_bytes (length bytes) front bytes back 0 left fits (omega arith) small
        (λ l.
          skip_string (front ++ encode_header w major_bytes (length bytes)) bytes back (
            behind_header w major_bytes (length bytes) fits (omega arith) left front bytes back
              small)
          ∙ ap
              (λ b.
                skipped_to b
                  (between ((front ++ encode_header w major_bytes (length bytes)) ++ bytes) back))
              (zero_shallow l))
  skip_item (string w bytes) left front back fits small =
      skip_composite w major_text (length bytes) front bytes back 0 left fits (omega arith) small
        (λ l.
          skip_string (front ++ encode_header w major_text (length bytes)) bytes back (
            behind_header w major_text (length bytes) fits (omega arith) left front bytes back
              small)
          ∙ ap
              (λ b.
                skipped_to b
                  (between ((front ++ encode_header w major_text (length bytes)) ++ bytes) back))
              (zero_shallow l))
  skip_item (array w xs) left front back (fits, items_fit) small =
      skip_composite w major_array (count xs) front (encode_items xs) back (depth_items xs) left
        fits (omega arith) small
        (λ l. skip_items xs l (front ++ encode_header w major_array (count xs)) back items_fit (
          behind_header w major_array (count xs) fits (omega arith) left front (encode_items xs)
            back small))
  skip_item (table w es) left front back (fits, entries_fit) small =
      skip_composite w major_map (count_entries es) front (encode_entries es) back
        (depth_entries es) left fits (omega arith) small
        (λ l.
          skip_entries es l (front ++ encode_header w major_map (count_entries es)) back entries_fit
            (behind_header w major_map (count_entries es) fits (omega arith) left front
              (encode_entries es) back small))

  skip_items :
      (xs : Items) (left : ℕ) (front back : List ℕ)
      → AreItems xs
      → IsAddressed (front ++ (encode_items xs ++ back))
      → skip_each (skip_at_depth left) (count xs) (between front (encode_items xs ++ back))
        ≡ skipped_to (leb (depth_items xs) left) (between (front ++ encode_items xs) back)
  skip_items end left front back fits small =
      ap (λ f. ok (between f back)) (sym (append-nil front))
      ∙ ap (λ b. skipped_to b (between (front ++ []) back)) (zero_shallow left)
  skip_items (item x xs) left front back (fits, later) small =
      let here = ungrouped front (encode x) (encode_items xs) back small in
      skip_both (ltb (depth x) left) (leb (depth_items xs) left) (encode x) (encode_items xs) front
        back (skip_at_depth left) (skip_each (skip_at_depth left) (count xs))
        (skip_item x left front (encode_items xs ++ back) fits here)
        (skip_items xs left (front ++ encode x) back later
          (regrouped front (encode x) (encode_items xs ++ back) here))
      ∙ ap (λ b. skipped_to b (between (front ++ (encode x ++ encode_items xs)) back))
          (both_shallow (depth x) (depth_items xs) left)

  skip_entries :
      (es : Entries) (left : ℕ) (front back : List ℕ)
      → AreEntries es
      → IsAddressed (front ++ (encode_entries es ++ back))
      → skip_each
          (λ r. skip_at_depth left r >>= skip_at_depth left)
          (count_entries es)
          (between front (encode_entries es ++ back))
        ≡ skipped_to (leb (depth_entries es) left) (between (front ++ encode_entries es) back)
  skip_entries none_left left front back fits small =
      ap (λ f. ok (between f back)) (sym (append-nil front))
      ∙ ap (λ b. skipped_to b (between (front ++ []) back)) (zero_shallow left)
  skip_entries (entry k v es) left front back (fits, fits_v, later) small =
      let here = ungrouped front (encode k ++ encode v) (encode_entries es) back small in
      let keyed = ungrouped front (encode k) (encode v) (encode_entries es ++ back) here in
      skip_both (ltb (depth k) left && ltb (depth v) left) (leb (depth_entries es) left)
        (encode k ++ encode v) (encode_entries es) front back
        (λ r. skip_at_depth left r >>= skip_at_depth left)
        (skip_each (λ r. skip_at_depth left r >>= skip_at_depth left) (count_entries es))
        (skip_both (ltb (depth k) left) (ltb (depth v) left) (encode k) (encode v) front
          (encode_entries es ++ back) (skip_at_depth left) (skip_at_depth left)
          (skip_item k left front (encode v ++ (encode_entries es ++ back)) fits keyed)
          (skip_item v left (front ++ encode k) (encode_entries es ++ back) fits_v
            (regrouped front (encode k) (encode v ++ (encode_entries es ++ back)) keyed)))
        (skip_entries es left (front ++ (encode k ++ encode v)) back later
          (regrouped front (encode k ++ encode v) (encode_entries es ++ back) here))
      ∙ ap
          (λ b.
            skipped_to b (between (front ++ ((encode k ++ encode v) ++ encode_entries es)) back))
          (all_shallow (depth k) (depth v) (depth_entries es) left)

-- A written item between any octets, fewer than 2^64 in all, is skipped whole if it is nested no deeper
-- than `MAX_DEPTH`, and is refused as too deep otherwise.
pub skip_value-encode :
    (x : Item) (front back : List ℕ)
    → IsItem x
    → IsAddressed (front ++ (encode x ++ back))
    → skip_value (between front (encode x ++ back)) ≡ (
        if leb (depth x) max_depth
        then ok (between (front ++ encode x) back)
        else err CborError.too_deep)
unfolding skip_value
skip_value-encode x front back fits small =
    let within : ltb (depth x) (suc max_depth) ≡ leb (depth x) max_depth = ground arith in
    skip_item x (suc max_depth) front back fits small
    ∙ ap (λ b. skipped_to b (between (front ++ encode x) back)) within
