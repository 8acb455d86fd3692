-- ===== src/Cbor/Header.antt =====
-- modules/common/cbor.rs: headers, in each of their widths, written and read.
use kagi.Base.{
  ℕ, ◌+◌, ◌*◌, ◌/◌, ◌^◌, ◌≤◌, ◌<◌, ◌≡◌, refl, sym, ap, ◌∙◌, true, false, List, [], ◌∷◌, ◌++◌, arith,
  ltb, leb, bit_and, length, take, drop, length-append, take-append_length, drop-append_length,
}
use mathlib.Core.List.{append_assoc, append-nil}
use kagi.Base.Bytes.{be_bytes, from_be, length-be_bytes, from_be-be_bytes}
use kagi.Base.Bits.Masks.{bit_and-ones}
use kagi.Base.Outcome.{Result, ok, refuse_if, ◌>>=◌, ◌>>◌}
use kagi.Cbor.{
  CborError, Reader, take_octets, first_of, read_word, read_argument, header, major_map,
}

-- The reader between what it has read and what it has not.
abbrev pub between : List ℕ → List ℕ → Reader
between front back = record { octets = front ++ back; at = length front }

-- Positions have 64 bits.
abbrev pub IsAddressed : List ℕ → Type 0
IsAddressed octets = length octets < 2 ^ 64

pub take_octets-between :
    (front part back : List ℕ)
    → IsAddressed (front ++ (part ++ back))
    → take_octets (length part) (between front (part ++ back))
      ≡ ok (part, between (front ++ part) back)
unfolding take_octets
take_octets-between front part back small = rw (in_width, in_octets) (λ i. ok (here i, there i))
  where
    in_width : leb (2 ^ 64) (length front + length part) ≡ false
    in_width = ground (arith, length-append front (part ++ back), length-append part back)

    in_octets : ltb (length (front ++ (part ++ back))) (length front + length part) ≡ false
    in_octets = ground (arith, length-append front (part ++ back), length-append part back)

    here : take (length part) (drop (length front) (front ++ (part ++ back))) ≡ part
    here =
        ap (take (length part)) (drop-append_length (length front) front (part ++ back) refl)
        ∙ take-append_length (length part) part back refl

    there :
        ◌≡◌ {A = Reader}
          (record { octets = front ++ (part ++ back); at = length front + length part })
          (between (front ++ part) back)
    there = λ i. record {
      octets = sym (append_assoc front part back) i;
      at = sym (length-append front part) i;
    }

pub regrouped :
    (front part back : List ℕ)
    → IsAddressed (front ++ (part ++ back))
    → IsAddressed ((front ++ part) ++ back)
regrouped front part back small = rw (append_assoc front part back) small

pub ungrouped :
    (front part next back : List ℕ)
    → IsAddressed (front ++ ((part ++ next) ++ back))
    → IsAddressed (front ++ (part ++ (next ++ back)))
ungrouped front part next back small = rw (sym (append_assoc part next back)) small

-- How wide an argument is written.
pub data Width : Type 0 where
  immediate one two four eight : Width

unfoldable pub extra : Width → ℕ
extra immediate = 0
extra one = 1
extra two = 2
extra four = 4
extra eight = 8

-- The low five bits of the first octet.
unfoldable pub info : Width → ℕ → ℕ
info immediate n = n
info one n = 24
info two n = 25
info four n = 26
info eight n = 27

unfoldable pub IsWidth : Width → ℕ → Type 0
unfolding extra
IsWidth immediate n = n < 24
IsWidth one n = n < 256 ^ extra one
IsWidth two n = n < 256 ^ extra two
IsWidth four n = n < 256 ^ extra four
IsWidth eight n = n < 256 ^ extra eight

unfoldable pub encode_header : Width → ℕ → ℕ → List ℕ
unfolding info extra
encode_header w major n = (major * 32 + info w n) ∷ be_bytes (extra w) n

read_word-between :
    (k n : ℕ) (front back : List ℕ)
    → n < 256 ^ k
    → IsAddressed (front ++ (be_bytes k n ++ back))
    → read_word k (between front (be_bytes k n ++ back))
      ≡ ok (n, between (front ++ be_bytes k n) back)
unfolding read_word
read_word-between k n front back fits small =
    ap (λ j. read_word j (between front (be_bytes k n ++ back))) (sym (length-be_bytes k n))
    ∙ ap (λ m. m >>= λ (part, later). ok (from_be part, later))
        (take_octets-between front (be_bytes k n) back small)
    ∙ ap (λ v. ok (v, between (front ++ be_bytes k n) back)) (from_be-be_bytes k n fits)

read_argument-between :
    (w : Width) (n : ℕ) (front back : List ℕ)
    → IsWidth w n
    → IsAddressed (front ++ (be_bytes (extra w) n ++ back))
    → read_argument (info w n) (between front (be_bytes (extra w) n ++ back))
      ≡ ok (n, between (front ++ be_bytes (extra w) n) back)
unfolding read_argument info extra IsWidth
read_argument-between immediate n front back fits small =
    let low : ltb n 24 ≡ true = ground arith in
    rw low (ap (λ f. ok (n, between f back)) (sym (append-nil front)))
read_argument-between one n front back fits small = read_word-between 1 n front back fits small
read_argument-between two n front back fits small = read_word-between 2 n front back fits small
read_argument-between four n front back fits small = read_word-between 4 n front back fits small
read_argument-between eight n front back fits small = read_word-between 8 n front back fits small

info-lt : (w : Width) (n : ℕ) → IsWidth w n → info w n < 32
unfolding info IsWidth
info-lt immediate n fits = omega arith
info-lt one n fits = omega arith
info-lt two n fits = omega arith
info-lt four n fits = omega arith
info-lt eight n fits = omega arith

-- What `header` does with its first octet.
after_first : ℕ → Reader → Result CborError (ℕ × ℕ × Reader)
unfolding read_argument
after_first first r =
    refuse_if (ltb major_map (first / 32)) CborError.unsupported
    >> (read_argument (bit_and first 0x1f) r >>= λ (argument, r). ok (first / 32, argument, r))

after_first_lem :
    (major i : ℕ) (r : Reader)
    → major ≤ major_map
    → i < 32
    → after_first (major * 32 + i) r
      ≡ (read_argument i r >>= λ (argument, r). ok (major, argument, r))
unfolding after_first
after_first_lem major i r known low = rw (high, rest, accepted) refl
  where
    high : (major * 32 + i) / 32 ≡ major
    high = omega arith

    rest : bit_and (major * 32 + i) 0x1f ≡ i
    rest = bit_and-ones 5 (major * 32 + i) ∙ omega arith

    accepted : ltb major_map major ≡ false
    accepted = ground arith

pub header-between :
    (w : Width) (major n : ℕ) (front back : List ℕ)
    → major ≤ major_map
    → IsWidth w n
    → IsAddressed (front ++ (encode_header w major n ++ back))
    → header (between front (encode_header w major n ++ back))
      ≡ ok (major, n, between (front ++ encode_header w major n) back)
unfolding header encode_header after_first
header-between w major n front back known fits small =
    ap (λ m. m >>= λ (part, r). first_of part >>= λ first. after_first first r)
      (take_octets-between front (first ∷ []) (be_bytes (extra w) n ++ back) small)
    ∙ after_first_lem major (info w n)
        (between (front ++ first ∷ []) (be_bytes (extra w) n ++ back)) known (info-lt w n fits)
    ∙ ap (λ m. m >>= λ (argument, r). ok (major, argument, r))
        (read_argument-between w n (front ++ first ∷ []) back fits
          (regrouped front (first ∷ []) (be_bytes (extra w) n ++ back) small))
    ∙ ap (λ f. ok (major, n, between f back))
        (append_assoc front (first ∷ []) (be_bytes (extra w) n))
  where
    first : ℕ
    first = major * 32 + info w n
