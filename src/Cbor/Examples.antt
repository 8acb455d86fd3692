-- ===== src/Cbor/Examples.antt =====
-- modules/common/cbor.rs: items read, skipped and searched.
use kagi.Base.{◌+◌, ◌≤◌, ◌≡◌, refl, true, List, [], ◌∷◌, ◌++◌, arith, leb, if◌then◌else◌, length}
use kagi.Base.Text.{codes}
use kagi.Base.Int.{negsuc}
use kagi.Base.Outcome.{ok, err}
use kagi.Cbor.{
  CborError, Reader, new_reader, header, integer, skip_value, seek_text_key, seek_int_key, sought,
  max_depth, major_map,
}
use kagi.Cbor.Header.{between, immediate, one, eight, encode_header, IsWidth}
use kagi.Cbor.Items.{Item, natural, octets, string, array, end, item, encode, depth, IsItem}
use kagi.Cbor.Skipped.{skip_value-encode}
use kagi.Cbor.Sought.{Field, encode_map, landing, locate, seek_text_key-encode_map}
use kagi.Cbor.Bounds.{promised, skip_value-Past}

abbrev item_example : Item
item_example = array immediate (item (natural one 200) (item (octets eight (9 ∷ 8 ∷ [])) end))

skip_value-encode_example : skip_value (between (255 ∷ []) (encode item_example ++ 1 ∷ [])) ≡ (
    if leb (depth item_example) max_depth
    then ok (between (255 ∷ [] ++ encode item_example) (1 ∷ []))
    else err CborError.too_deep)
unfolding encode IsItem IsWidth encode_header
skip_value-encode_example =
    skip_value-encode item_example (255 ∷ []) (1 ∷ [])
      (omega arith, (omega arith, (omega arith, tt))) (omega arith)

abbrev fields_example : List Field
fields_example =
    record { width = immediate; key = codes "fmt"; value = string immediate (codes "none") }
    ∷ record { width = one; key = codes "id"; value = natural immediate 7 }
    ∷ []

abbrev map_example : Reader
map_example = between [] (encode_map immediate fields_example ++ 0 ∷ [])

seek_text_key-encode_map_example :
    seek_text_key (codes "id") map_example
    ≡ ok (
        sought map_example (
          landing
            ([] ++ encode_header immediate major_map 2)
            (0 ∷ [])
            (locate (codes "id") fields_example)))
unfolding encode IsItem IsWidth encode_header depth
seek_text_key-encode_map_example =
    seek_text_key-encode_map (codes "id") immediate fields_example [] (0 ∷ []) (omega arith)
      ((omega arith, omega arith, omega arith), ((omega arith, omega arith, omega arith), tt))
      (omega arith)

-- An array of two small numbers.
abbrev pair_example : Reader
pair_example = new_reader (130 ∷ 1 ∷ 2 ∷ 255 ∷ [])

abbrev after_header_example : Reader
after_header_example = record { octets = 130 ∷ 1 ∷ 2 ∷ 255 ∷ []; at = 1 }

abbrev after_pair_example : Reader
after_pair_example = record { octets = 130 ∷ 1 ∷ 2 ∷ 255 ∷ []; at = 3 }

skip_value-Past_example :
    (after_pair_example.octets ≡ pair_example.octets)
    × (pair_example.at + 1 + promised 4 2 ≤ after_pair_example.at)
    × (after_pair_example.at ≤ length (pair_example.octets))
unfolding skip_value header
skip_value-Past_example =
    skip_value-Past pair_example after_header_example after_pair_example 4 2 refl refl

truncated_array :
    skip_value (new_reader (155 ∷ 255 ∷ 255 ∷ 255 ∷ 255 ∷ 255 ∷ 255 ∷ 255 ∷ 255 ∷ []))
    ≡ err CborError.truncated
unfolding skip_value
truncated_array = refl

minus_one : integer (new_reader (32 ∷ [])) ≡ ok (negsuc 0, record { octets = 32 ∷ []; at = 1 })
unfolding integer
minus_one = refl

too_large_int :
    integer (new_reader (59 ∷ 128 ∷ 0 ∷ 0 ∷ 0 ∷ 0 ∷ 0 ∷ 0 ∷ 0 ∷ [])) ≡ err CborError.overflow
unfolding integer
too_large_int = refl

int_key :
    seek_int_key (negsuc 1) (new_reader (162 ∷ 1 ∷ 2 ∷ 33 ∷ 64 ∷ []))
    ≡ ok (true, record { octets = 162 ∷ 1 ∷ 2 ∷ 33 ∷ 64 ∷ []; at = 4 })
unfolding seek_int_key
int_key = refl

tag_refused : skip_value (new_reader (192 ∷ [])) ≡ err CborError.unsupported
unfolding skip_value
tag_refused = refl
