-- ===== src/Cbor/Items.antt =====
-- The items that modules/common/cbor.rs reads, as trees, and their octets.
use kagi.Base.{ℕ, suc, List, [], ◌++◌, max, length}
use kagi.Cbor.{major_unsigned, major_negative, major_bytes, major_text, major_array, major_map}
use kagi.Cbor.Header.{Width, IsWidth, encode_header}

mutual
  pub data Item : Type 0 where
    natural : Width → ℕ → Item
    negative : Width → ℕ → Item
    octets : Width → List ℕ → Item
    string : Width → List ℕ → Item
    array : Width → Items → Item
    table : Width → Entries → Item

  pub data Items : Type 0 where
    end : Items
    item : Item → Items → Items

  pub data Entries : Type 0 where
    none_left : Entries
    entry : Item → Item → Entries → Entries

unfoldable pub count : Items → ℕ
count end = 0
count (item x xs) = suc (count xs)

unfoldable pub count_entries : Entries → ℕ
count_entries none_left = 0
count_entries (entry k v es) = suc (count_entries es)

unfoldable mutual
  unfolding count count_entries

  pub encode : Item → List ℕ
  encode (natural w n) = encode_header w major_unsigned n
  encode (negative w n) = encode_header w major_negative n
  encode (octets w bytes) = encode_header w major_bytes (length bytes) ++ bytes
  encode (string w bytes) = encode_header w major_text (length bytes) ++ bytes
  encode (array w xs) = encode_header w major_array (count xs) ++ encode_items xs
  encode (table w es) = encode_header w major_map (count_entries es) ++ encode_entries es

  pub encode_items : Items → List ℕ
  encode_items end = []
  encode_items (item x xs) = encode x ++ encode_items xs

  pub encode_entries : Entries → List ℕ
  encode_entries none_left = []
  encode_entries (entry k v es) = (encode k ++ encode v) ++ encode_entries es

-- How many depths an item enters below its own.
unfoldable mutual
  pub depth : Item → ℕ
  depth (natural w n) = 0
  depth (negative w n) = 0
  depth (octets w bytes) = 0
  depth (string w bytes) = 0
  depth (array w xs) = depth_items xs
  depth (table w es) = depth_entries es

  pub depth_items : Items → ℕ
  depth_items end = 0
  depth_items (item x xs) = max (suc (depth x)) (depth_items xs)

  pub depth_entries : Entries → ℕ
  depth_entries none_left = 0
  depth_entries (entry k v es) = max (suc (depth k)) (max (suc (depth v)) (depth_entries es))

-- Every argument fits the width it is written in.
unfoldable mutual
  unfolding IsWidth count count_entries

  pub IsItem : Item → Type 0
  IsItem (natural w n) = IsWidth w n
  IsItem (negative w n) = IsWidth w n
  IsItem (octets w bytes) = IsWidth w (length bytes)
  IsItem (string w bytes) = IsWidth w (length bytes)
  IsItem (array w xs) = IsWidth w (count xs) × AreItems xs
  IsItem (table w es) = IsWidth w (count_entries es) × AreEntries es

  pub AreItems : Items → Type 0
  AreItems end = Unit
  AreItems (item x xs) = IsItem x × AreItems xs

  pub AreEntries : Entries → Type 0
  AreEntries none_left = Unit
  AreEntries (entry k v es) = IsItem k × IsItem v × AreEntries es
