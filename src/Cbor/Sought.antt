-- ===== src/Cbor/Sought.antt =====
-- modules/common/cbor.rs: the search for a text key in a written map.
use kagi.Base.{
  ℕ, suc, ◌≤◌, ◌≡◌, refl, sym, ap, ◌∙◌, Bool, true, false, Option, none, some, List, [], ◌∷◌, ◌++◌,
  arith, leb, ◌==◌, if◌then◌else◌, length, All, bytes_eq,
}
use mathlib.Core.List.{append_assoc}
use kagi.Base.Outcome.{Result, ok, err, ◌>>=◌}
use kagi.Cbor.{
  CborError, Reader, take_octets, expect, text, map_len, skip_value, seek_entries, sought,
  seek_text_key, max_depth, major_text, major_map,
}
use kagi.Cbor.Header.{
  between, IsAddressed, regrouped, ungrouped, Width, IsWidth, encode_header, header-between,
  take_octets-between,
}
use kagi.Cbor.Items.{Item, encode, depth, IsItem}
use kagi.Cbor.Skipped.{skip_value-encode}

-- An entry of a map whose keys are texts.
pub record Field : Type 0 where
  pub width : Width
  pub key : List ℕ
  pub value : Item

abbrev pub encode_key : Field → List ℕ
encode_key f = encode_header (f.width) major_text (length (f.key)) ++ f.key

abbrev pub encode_fields : List Field → List ℕ
encode_fields [] = []
encode_fields (f ∷ fs) = (encode_key f ++ encode (f.value)) ++ encode_fields fs

abbrev pub encode_map : Width → List Field → List ℕ
encode_map w fs = encode_header w major_map (length fs) ++ encode_fields fs

-- The widths fit, and the value is not nested too deeply to be skipped.
abbrev pub IsField : Field → Type 0
IsField f = IsWidth (f.width) (length (f.key)) × IsItem (f.value) × (depth (f.value) ≤ max_depth)

abbrev behind :
    Field → Option (List Field × Field × List Field) → Option (List Field × Field × List Field)
behind f none = none
behind f (some (before, g, after)) = some (f ∷ before, g, after)

-- The first field of a key, with the fields before it and after it.
unfoldable pub locate : List ℕ → List Field → Option (List Field × Field × List Field)
locate key [] = none
locate key (f ∷ fs) = if bytes_eq (f.key) key then some ([], f, fs) else behind f (locate key fs)

pub expect-between :
    (w : Width) (wanted n : ℕ) (front back : List ℕ)
    → wanted ≤ major_map
    → IsWidth w n
    → IsAddressed (front ++ (encode_header w wanted n ++ back))
    → expect wanted (between front (encode_header w wanted n ++ back))
      ≡ ok (n, between (front ++ encode_header w wanted n) back)
unfolding expect
expect-between w wanted n front back known fits small =
    let same : (wanted == wanted) ≡ true = ground arith in
    ap
      (λ m. m >>= λ (major, argument, r).
        if major == wanted then ok (argument, r) else err CborError.type_mismatch)
      (header-between w wanted n front back known fits small)
    ∙ ap
        (λ b.
          if b
          then ok (n, between (front ++ encode_header w wanted n) back)
          else err CborError.type_mismatch)
        same

-- A key that was written is read.
text-encode_key :
    (f : Field) (front back : List ℕ)
    → IsField f
    → IsAddressed (front ++ (encode_key f ++ back))
    → text (between front (encode_key f ++ back)) ≡ ok (f.key, between (front ++ encode_key f) back)
unfolding text
text-encode_key f front back (fits, written, shallow) small =
    ap (λ t. text (between front t)) (append_assoc head (f.key) back)
    ∙ ap (λ m. m >>= λ (len, r). take_octets len r)
        (expect-between (f.width) major_text (length (f.key)) front (f.key ++ back) (omega arith)
          fits small')
    ∙ take_octets-between (front ++ head) (f.key) back (regrouped front head (f.key ++ back) small')
    ∙ ap (λ t. ok (f.key, between t back)) (append_assoc front head (f.key))
  where
    head : List ℕ
    head = encode_header (f.width) major_text (length (f.key))

    small' : IsAddressed (front ++ (head ++ (f.key ++ back)))
    small' = ungrouped front head (f.key) back small

skip_value-field :
    (f : Field) (front back : List ℕ)
    → IsField f
    → IsAddressed (front ++ (encode (f.value) ++ back))
    → skip_value (between front (encode (f.value) ++ back))
      ≡ ok (between (front ++ encode (f.value)) back)
skip_value-field f front back (fits, written, shallow) small =
    let within : leb (depth (f.value)) max_depth ≡ true = ground arith in
    skip_value-encode (f.value) front back written small
    ∙ ap (λ b. if b then ok (between (front ++ encode (f.value)) back) else err CborError.too_deep)
        within

-- Where the search in the fields `fs` ends, by what `locate` says.
unfoldable pub landing : List ℕ → List ℕ → Option (List Field × Field × List Field) → Option Reader
landing front back none = none
landing front back (some (before, f, after)) = some (
    between (front ++ (encode_fields before ++ encode_key f))
      (encode (f.value) ++ (encode_fields after ++ back)))

seek_next :
    (b : Bool) (key : List ℕ) (f : Field) (fs : List Field) (front back : List ℕ)
    (rest : Result CborError (Option Reader))
    → rest ≡ ok (landing (front ++ (encode_key f ++ encode (f.value))) back (locate key fs))
    → (if b
        then ok (
            some (between (front ++ encode_key f) (encode (f.value) ++ (encode_fields fs ++ back))))
        else rest)
      ≡ ok (landing front back (if b then some ([], f, fs) else behind f (locate key fs)))
unfolding landing
seek_next true key f fs front back rest e = refl
seek_next false key f fs front back rest e = e ∙ ap ok (moved (locate key fs))
  where
    moved :
        (found : Option (List Field × Field × List Field))
        → landing (front ++ (encode_key f ++ encode (f.value))) back found
          ≡ landing front back (behind f found)
    moved none = refl
    moved (some (before, g, after)) =
        ap (λ t. some (between t (encode (g.value) ++ (encode_fields after ++ back))))
          (append_assoc front (encode_key f ++ encode (f.value))
              (encode_fields before ++ encode_key g)
            ∙ ap (λ t. front ++ t)
                (sym (
                  append_assoc (encode_key f ++ encode (f.value)) (encode_fields before)
                    (encode_key g))))

seek_fields :
    (key : List ℕ) (fs : List Field) (front back : List ℕ)
    → All IsField fs
    → IsAddressed (front ++ (encode_fields fs ++ back))
    → seek_entries text
        (λ found. bytes_eq found key)
        (length fs)
        (between front (encode_fields fs ++ back))
      ≡ ok (landing front back (locate key fs))
unfolding seek_entries locate landing
seek_fields key [] front back fit small = refl
seek_fields key (f ∷ fs) front back (fits, later) small =
    ap (λ t. seek_entries text (λ found. bytes_eq found key) (suc (length fs)) (between front t))
      (append_assoc (encode_key f ++ encode (f.value)) (encode_fields fs) back
        ∙ append_assoc (encode_key f) (encode (f.value)) (encode_fields fs ++ back))
    ∙ ap
        (λ m. m >>= λ (found, r).
          if bytes_eq found key
          then ok (some r)
          else (skip_value r >>= seek_entries text (λ found. bytes_eq found key) (length fs)))
        (text-encode_key f front (encode (f.value) ++ (encode_fields fs ++ back)) fits keyed)
    ∙ seek_next (bytes_eq (f.key) key) key f fs front back _ (
        ap (λ m. m >>= seek_entries text (λ found. bytes_eq found key) (length fs))
          (skip_value-field f (front ++ encode_key f) (encode_fields fs ++ back) fits
            (regrouped front (encode_key f) _ keyed))
        ∙ ap
            (λ t.
              seek_entries text (λ found. bytes_eq found key) (length fs)
                (between t (encode_fields fs ++ back)))
            (append_assoc front (encode_key f) (encode (f.value)))
        ∙ seek_fields key fs (front ++ (encode_key f ++ encode (f.value))) back later
            (regrouped front (encode_key f ++ encode (f.value)) (encode_fields fs ++ back) here))
  where
    here : IsAddressed (front ++ ((encode_key f ++ encode (f.value)) ++ (encode_fields fs ++ back)))
    here = ungrouped front (encode_key f ++ encode (f.value)) (encode_fields fs) back small

    keyed :
        IsAddressed (front ++ (encode_key f ++ (encode (f.value) ++ (encode_fields fs ++ back))))
    keyed = ungrouped front (encode_key f) (encode (f.value)) (encode_fields fs ++ back) here

-- In a written map with text keys, its widths fitting, its values nested no deeper than `MAX_DEPTH`
-- and fewer than 2^64 octets in all, the search ends at the value of the first field of the key, or
-- with the reader where it was if no field has it.
pub seek_text_key-encode_map :
    (key : List ℕ) (w : Width) (fs : List Field) (front back : List ℕ)
    → IsWidth w (length fs)
    → All IsField fs
    → IsAddressed (front ++ (encode_map w fs ++ back))
    → seek_text_key key (between front (encode_map w fs ++ back))
      ≡ ok (
          sought
            (between front (encode_map w fs ++ back))
            (landing (front ++ encode_header w major_map (length fs)) back (locate key fs)))
unfolding seek_text_key map_len
seek_text_key-encode_map key w fs front back fits fields small =
    ap (λ t. map_len (between front t) >>= inside) (append_assoc head (encode_fields fs) back)
    ∙ ap (λ m. m >>= inside)
        (expect-between w major_map (length fs) front (encode_fields fs ++ back) (omega arith) fits
          small')
    ∙ ap (λ m. m >>= λ found. ok (sought start found))
        (seek_fields key fs (front ++ head) back fields
          (regrouped front head (encode_fields fs ++ back) small'))
  where
    start : Reader
    start = between front (encode_map w fs ++ back)

    head : List ℕ
    head = encode_header w major_map (length fs)

    small' : IsAddressed (front ++ (head ++ (encode_fields fs ++ back)))
    small' = ungrouped front head (encode_fields fs) back small

    inside : ℕ × Reader → Result CborError (Bool × Reader)
    inside (entries, r) = seek_entries text (λ found. bytes_eq found key) entries r >>= λ found.
        ok (sought start found)
