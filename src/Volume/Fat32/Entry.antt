-- ===== src/Volume/Fat32/Entry.antt =====
-- Directory entries of 32 bytes: writeDirEntry of src/bas/volume/fat32/fat32_utils.cpp, and how
-- parseDirectoryCluster of Fat32Volume.cpp reads the slots of a directory.
pub mod Fields
pub mod Listing
pub mod Tests
use bas_cpp.Prelude.{
  ℕ, zero, suc, ◌+◌, ◌-◌, ◌*◌, ◌/◌, ◌%◌, ◌^◌, ◌≡◌, Bool, true, false, ◌&&◌, ◌||◌, not, Option, none,
  some, List, [], ◌∷◌, ◌++◌, if◌then◌else◌, ◌==◌, ltb, leb, is_nil, length, get_or, take, drop,
  Bytes, str_eq,
}
use bas_cpp.Volume.Fat32.Flush.{read_le32}
use bas_cpp.Volume.Fat32.Dates.{Calendar, encode_dos_date_time, fat_dos_date_time}
use bas_cpp.Volume.Fat32.Names.{
  read_le16, short_name_field, is_dot_entry, decode_short_name, decode_lfn_chunk, join_reversed,
}

-- Fat32Volume::Dirent, less its children.
pub record Dirent : Type 0 where
  pub is_directory : Bool
  pub first_cluster : ℕ
  pub size : ℕ
  pub atime : ℕ
  pub mtime : ℕ
  pub creation_time : ℕ

-- `(v >> k) & 0xFF`
abbrev pub byte_of : ℕ → ℕ → ℕ
byte_of v k = (v / 2 ^ k) % 2 ^ 8

-- `(attr & 0x10) != 0`, `(attr & 0x08) != 0`
abbrev pub has_directory_bit : ℕ → Bool
has_directory_bit attr = attr / 16 % 2 == 1

abbrev pub has_label_bit : ℕ → Bool
has_label_bit attr = attr / 8 % 2 == 1

-- `parent.children[name] = &child`; the children are kept in the order in which they come.
unfoldable pub put_child : Bytes → Dirent → List (Bytes × Dirent) → List (Bytes × Dirent)
put_child name d [] = (name, d) ∷ []
put_child name d ((key, e) ∷ children) =
    let rest = put_child name d children in
    if str_eq key name then (key, d) ∷ children else (key, e) ∷ rest

module _ (cal : Calendar) where
  -- What writeDirEntry writes behind the name.
  unfoldable pub entry_tail : Dirent → Bytes
  entry_tail d =
      let (create_time, create_date) = encode_dos_date_time cal d.creation_time in
      let (access_time, access_date) = encode_dos_date_time cal d.atime in
      let (mod_time, mod_date) = encode_dos_date_time cal d.mtime in
      (if d.is_directory then 16 else 32)
      ∷ 0
      ∷ 0
      ∷ byte_of create_time 0
      ∷ byte_of create_time 8
      ∷ byte_of create_date 0
      ∷ byte_of create_date 8
      ∷ byte_of access_date 0
      ∷ byte_of access_date 8
      ∷ byte_of d.first_cluster 16
      ∷ byte_of d.first_cluster 24
      ∷ byte_of mod_time 0
      ∷ byte_of mod_time 8
      ∷ byte_of mod_date 0
      ∷ byte_of mod_date 8
      ∷ byte_of d.first_cluster 0
      ∷ byte_of d.first_cluster 8
      ∷ byte_of d.size 0
      ∷ byte_of d.size 8
      ∷ byte_of d.size 16
      ∷ byte_of d.size 24
      ∷ []

  -- writeDirEntry
  unfoldable pub write_dir_entry : Bytes → Dirent → Bytes
  write_dir_entry name d = short_name_field name ++ entry_tail d

  -- The entry that parseDirectoryCluster reads from a slot.
  unfoldable pub read_dirent : Bytes → Dirent
  read_dirent ent =
      let is_dir = has_directory_bit (get_or ent 11 0) in
      record {
        is_directory = is_dir;
        first_cluster = read_le16 ent 20 * 2 ^ 16 + read_le16 ent 26;
        size = if is_dir then 0 else read_le32 ent 28;
        atime = fat_dos_date_time cal 0 (read_le16 ent 18);
        mtime = fat_dos_date_time cal (read_le16 ent 22) (read_le16 ent 24);
        creation_time = fat_dos_date_time cal (read_le16 ent 14) (read_le16 ent 16);
      }

-- `lfnParts` and the children so far.
pub record Reading : Type 0 where
  pub parts : List Bytes
  pub children : List (Bytes × Dirent)

-- The name of a slot: the long one if there is one.
abbrev pub slot_name : List Bytes → Bytes → Bytes
slot_name [] ent = decode_short_name ent
slot_name (part ∷ parts) ent = join_reversed (part ∷ parts)

module _ (cal : Calendar) where
  -- A slot that is neither free nor part of a long name nor a label.
  unfoldable pub add_entry : Reading → Bytes → Reading
  add_entry r ent =
      let name = slot_name r.parts ent in
      if is_nil name || is_dot_entry name
      then record r { parts = [] }
      else record { parts = []; children = put_child name (read_dirent cal ent) r.children }

  -- One round of the loop over the slots; `none` is its `return` at the end marker.
  unfoldable pub read_slot : Reading → Bytes → Option Reading
  read_slot r ent =
      let first = get_or ent 0 0 in
      let attr = get_or ent 11 0 in
      if first == 0
      then none
      else if first == 229
      then some (record r { parts = [] })
      else if attr == 15
      then some (record r { parts = r.parts ++ decode_lfn_chunk ent ∷ [] })
      else if has_label_bit attr
      then some (record r { parts = [] })
      else some (add_entry r ent)

  -- The loop; whether the end marker was met, and what was read.
  unfoldable pub read_on_slots :
      (Reading → Bool × Reading) → Reading → Option Reading → Bool × Reading
  read_on_slots next r none = (true, r)
  read_on_slots next r (some r') = next r'

  unfoldable pub read_slots : Reading → List Bytes → Bool × Reading
  read_slots r [] = (false, r)
  read_slots r (ent ∷ slots) = read_on_slots (λ r'. read_slots r' slots) r (read_slot r ent)
