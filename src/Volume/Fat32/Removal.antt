-- ===== src/Volume/Fat32/Removal.antt =====
-- The search for the entry of a file, its update and its removal: findDirEntryLocation, updateDirEntry,
-- markDirectoryEntryAsDeleted and findFreeDirEntrySlots of src/bas/volume/fat32/Fat32Volume_write.cpp.
pub mod Update
pub mod Marks
pub mod Listing
pub mod Tests
use bas_cpp.Prelude.{
  ℕ, zero, suc, ◌+◌, ◌-◌, ◌*◌, ◌/◌, ◌%◌, ◌^◌, ◌≡◌, Bool, true, false, ◌&&◌, ◌||◌, not, Option, none,
  some, List, [], ◌∷◌, ◌++◌, map, if◌then◌else◌, ◌==◌, ltb, leb, is_nil, length, get_or, set, take,
  drop, slice, Bytes, str_eq, to_upper, to_lower, split_first,
}
use bas_cpp.Volume.Device.{size}
use bas_cpp.Volume.Fat32.Names.{
  padded, extension_at, create_short_name, decode_short_name, decode_lfn_chunk,
}
use bas_cpp.Volume.Fat32.Entry.{Dirent, byte_of, has_directory_bit, slot_name}
use bas_cpp.Volume.Fat32.Vol.{
  Vol, Act, ◌>>=◌, ◌>>◌, pure, raise, ask, found_or_raise, cluster_to_offset, read_at,
  write_or_raise, chain_of,
}
use bas_cpp.Volume.Fat32.Directory.{slots_of}

-- `fatName`: eleven bytes, of a name that is split at its first dot.
unfoldable pub fat_name : Bytes → Bytes
fat_name name =
    let (base, ext) = extension_at name (split_first b'.' name) in
    padded 8 (map to_upper base) ++ padded 3 (map to_upper ext)

-- What a loop over the slots of a cluster comes to.
pub data Hit : Type 0 where
  no_hit : Hit
  at_end_marker : Hit
  hit : ℕ → Hit

-- `first == 0xE5 || first == 0x05`
abbrev pub is_deleted : ℕ → Bool
is_deleted first = (first == 229) || (first == 5)

-- The loop of findDirEntryLocation over the slots, from the `i`-th on.
pub location_in : Bytes → ℕ → List Bytes → Hit
location_in fat i [] = no_hit
location_in fat i (ent ∷ slots) =
    let rest = location_in fat (i + 1) slots in
    if get_or ent 0 0 == 0
    then at_end_marker
    else if is_deleted (get_or ent 0 0) || (get_or ent 11 0 == 15)
    then rest
    else if str_eq (take 11 ent) fat
    then hit i
    else rest

-- What is done with the slots of a cluster; one that cannot be read is passed by.
abbrev search_block : (List Bytes → Hit) → Option Bytes → ℕ → Hit
search_block search none per_cluster = no_hit
search_block search (some block) per_cluster = search (slots_of per_cluster block)

found_location : ℕ → Act (Option (ℕ × ℕ)) → Hit → Act (Option (ℕ × ℕ))
found_location cluster rest no_hit = rest
found_location cluster rest at_end_marker = pure none
found_location cluster rest (hit i) = pure (some (cluster, i))

location_loop : Bytes → List ℕ → Act (Option (ℕ × ℕ))
location_loop fat [] = pure none
location_loop fat (cluster ∷ chain) =
    let rest = location_loop fat chain in
    do
      offset ← cluster_to_offset cluster
      v ← ask
      read ← read_at offset v.cluster_size
      found_location cluster rest (search_block (location_in fat 0) read (v.cluster_size / 32))

-- findDirEntryLocation, for a file of the name in the directory of the parent's cluster.
pub find_dir_entry_location : ℕ → Bytes → Act (Option (ℕ × ℕ))
find_dir_entry_location parent_cluster file_name =
    chain_of parent_cluster >>= location_loop (fat_name (create_short_name file_name))

-- `dirent.isDirectory ? (attr | 0x10) : (attr & ~0x10)`
unfoldable pub set_directory_bit : Bool → ℕ → ℕ
set_directory_bit is_directory attr =
    if is_directory
    then (if has_directory_bit attr then attr else attr + 16)
    else (if has_directory_bit attr then attr - 16 else attr)

-- The assignments of updateDirEntry.
unfoldable pub update_slot : Dirent → Bytes → Bytes
update_slot d ent =
    let e₁ = set ent 11 (set_directory_bit d.is_directory (get_or ent 11 0)) in
    let e₂ = set e₁ 20 (byte_of d.first_cluster 16) in
    let e₃ = set e₂ 21 (byte_of d.first_cluster 24) in
    let e₄ = set e₃ 26 (byte_of d.first_cluster 0) in
    let e₅ = set e₄ 27 (byte_of d.first_cluster 8) in
    let e₆ = set e₅ 28 (byte_of d.size 0) in
    let e₇ = set e₆ 29 (byte_of d.size 8) in
    let e₈ = set e₇ 30 (byte_of d.size 16) in set e₈ 31 (byte_of d.size 24)

-- updateDirEntry; 0xFFFFFFFF is the invalid index.
pub update_dir_entry : ℕ → ℕ → Dirent → Act (Unit {0})
update_dir_entry dir_cluster dir_index d =
    if ltb dir_cluster 2 || (dir_index == 2 ^ 32 - 1) then raise else do
      start ← cluster_to_offset dir_cluster
      v ← ask
      let offset = start + dir_index * 32 in
          if ltb (size v.disk.device) (offset + 32) then raise else do
            read ← read_at offset 32
            ent ← found_or_raise read
            if (get_or ent 0 0 == 0) || (get_or ent 0 0 == 229) || (get_or ent 11 0 == 15)
                then raise
                else write_or_raise offset (update_slot d ent)

-- `nameEquals` of markDirectoryEntryAsDeleted
pub name_equals : Bytes → Bytes → Bool
name_equals a b = str_eq (map to_lower a) (map to_lower b)

-- Whether a slot is the one to be removed.
pub is_target : Bytes → List Bytes → Bytes → Bool
is_target name parts ent =
    let entry_name = slot_name parts ent in
    name_equals entry_name name
    || name_equals entry_name (create_short_name name)
    || str_eq (take 11 ent) (fat_name (create_short_name name))

-- The loop over the slots, from the `i`-th on.
pub target_in : Bytes → List Bytes → ℕ → List Bytes → Hit
target_in name parts i [] = no_hit
target_in name parts i (ent ∷ slots) =
    let without = target_in name [] (i + 1) slots in
    let longer = target_in name (parts ++ decode_lfn_chunk ent ∷ []) (i + 1) slots in
    if get_or ent 0 0 == 0
    then at_end_marker
    else if is_deleted (get_or ent 0 0)
    then without
    else if get_or ent 11 0 == 15
    then longer
    else if is_target name parts ent
    then hit i
    else without

-- The loop back over the slots of the long name: the block, and `deleteStart` as the index of a slot.
unfoldable pub mark_back : Bytes → ℕ → Bytes × ℕ
mark_back block zero = (block, 0)
mark_back block (suc i) =
    let further = mark_back (set block (i * 32) 229) i in
    if get_or block (i * 32 + 11) 0 == 15 then further else (block, suc i)

-- The block with the slot marked, and the long name in front of it.
unfoldable pub mark_slot : Bytes → ℕ → Bytes × ℕ
mark_slot block i = let (marked, start) = mark_back block i in (set marked (i * 32) 229, start)

-- The write of the marks, and the check that reads one of them back.
check_mark : Option Bytes → Act (Unit {0})
check_mark none = pure tt
check_mark (some bytes) = if get_or bytes 0 0 == 229 then pure tt else raise

write_marks : ℕ → Bytes → ℕ → Act (Unit {0})
write_marks offset block i =
    let (marked, start) = mark_slot block i in
    do
      write_or_raise (offset + start * 32) (slice marked (start * 32) (i * 32 + 32))
      read ← read_at (offset + i * 32) 32
      check_mark read

remove_hit : ℕ → Bytes → Act (Unit {0}) → Hit → Act (Unit {0})
remove_hit offset block rest no_hit = rest
remove_hit offset block rest at_end_marker = raise
remove_hit offset block rest (hit i) = write_marks offset block i

remove_in : Bytes → ℕ → ℕ → Act (Unit {0}) → Option Bytes → Act (Unit {0})
remove_in name offset per_cluster rest none = rest
remove_in name offset per_cluster rest (some block) =
    remove_hit offset block rest (target_in name [] 0 (slots_of per_cluster block))

remove_loop : Bytes → List ℕ → Act (Unit {0})
remove_loop name [] = raise
remove_loop name (cluster ∷ chain) =
    let rest = remove_loop name chain in
    do
      offset ← cluster_to_offset cluster
      v ← ask
      read ← read_at offset v.cluster_size
      remove_in name offset (v.cluster_size / 32) rest read

-- markDirectoryEntryAsDeleted
pub mark_directory_entry_as_deleted : ℕ → Bytes → Act (Unit {0})
mark_directory_entry_as_deleted dir_cluster name = do
  chain ← chain_of dir_cluster
  if is_nil chain then raise else remove_loop name chain
