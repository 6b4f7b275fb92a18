-- ===== src/Volume/Fat32/Boot.antt =====
-- parseBootSector and the constructor of the table, of src/bas/volume/fat32/Fat32Volume.cpp, and the search
-- findFreeDirEntrySlots of Fat32Volume_write.cpp.
use bas_cpp.Prelude.{
  ℕ, ◌+◌, ◌-◌, ◌*◌, ◌/◌, ◌%◌, ◌^◌, Bool, ◌&&◌, ◌||◌, not, Option, none, some, List, [], ◌∷◌,
  if◌then◌else◌, ◌==◌, ltb, leb, get_or, Bytes,
}
use bas_cpp.Volume.Device.{MemDevice, size, read_device}
use bas_cpp.Volume.Fat32.Flush.{Disk, read_le32, load_fat}
use bas_cpp.Volume.Fat32.Names.{read_le16}
use bas_cpp.Volume.Fat32.Vol.{Vol, Act, ◌>>=◌, pure, ask, cluster_to_offset, read_at, chain_of}
use bas_cpp.Volume.Fat32.Directory.{first_bytes}

-- The fields of the boot sector that parseBootSector keeps.
pub record Geometry : Type 0 where
  pub bytes_per_sector : ℕ
  pub sectors_per_cluster : ℕ
  pub reserved_sectors : ℕ
  pub num_fats : ℕ
  pub sectors_per_fat : ℕ
  pub root_cluster : ℕ

unfoldable pub read_geometry : Bytes → Geometry
read_geometry b = record {
  bytes_per_sector = read_le16 b 11;
  sectors_per_cluster = get_or b 13 0;
  reserved_sectors = read_le16 b 14;
  num_fats = get_or b 16 0;
  sectors_per_fat = read_le32 b 36;
  root_cluster = read_le32 b 44;
}

-- The tests on the fields, the last two on the fields of older formats.
unfoldable pub is_fat32 : Bytes → Bool
is_fat32 b =
    let g = read_geometry b in
    not (
      g.bytes_per_sector == 0
      || g.sectors_per_cluster == 0
      || g.reserved_sectors == 0
      || g.num_fats == 0
      || g.sectors_per_fat == 0
      || ltb g.root_cluster 2)
    && (read_le16 b 17 == 0)
    && (read_le16 b 22 == 0)

-- m_clusterSize, m_fatOffset, m_dataOffset and the number of entries, in the widths of the source: the
-- sums and products of sectors are computed in 32 bits before they are widened.
abbrev pub cluster_size_of : Geometry → ℕ
cluster_size_of g = (g.bytes_per_sector * g.sectors_per_cluster) % 2 ^ 32

abbrev pub fat_offset_of : Geometry → ℕ
fat_offset_of g = (g.reserved_sectors * g.bytes_per_sector) % 2 ^ 64

abbrev pub data_offset_of : Geometry → ℕ
data_offset_of g =
    ((g.reserved_sectors + g.num_fats * g.sectors_per_fat) % 2 ^ 32 * g.bytes_per_sector) % 2 ^ 64

abbrev pub fat_entries_of : Geometry → ℕ
fat_entries_of g = (g.sectors_per_fat * g.bytes_per_sector) % 2 ^ 32 / 4

opened : Geometry → Option Disk → Option (Vol × ℕ)
opened g none = none
opened g (some disk) = some (
  record { disk = disk; data_offset = data_offset_of g; cluster_size = cluster_size_of g },
  g.root_cluster,
)

parse_boot : MemDevice → Option Bytes → Option (Vol × ℕ)
parse_boot device none = none
parse_boot device (some boot) =
    let g = read_geometry boot in
    if not (is_fat32 boot) || leb (size device) (data_offset_of g)
    then none
    else opened g (load_fat device (fat_offset_of g) (fat_entries_of g))

-- parseBootSector: the volume and its root cluster, or the IOException.
pub parse_boot_sector : MemDevice → Option (Vol × ℕ)
parse_boot_sector device =
    if ltb (size device) 512 then none else parse_boot device (read_device device 0 512)

-- The loop of findFreeDirEntrySlots over the slots of a cluster, from the offset `at` on: the offset that
-- is found, or the run so far.
free_run : ℕ → ℕ → ℕ → ℕ → Bytes → Option ℕ × ℕ × ℕ
free_run count at run start [] = (none, run, start)
free_run count at run start (first ∷ bytes) =
    let begin = if run == 0 then at else start in
    let longer = free_run count (at + 32) (run + 1) begin bytes in
    let without = free_run count (at + 32) 0 (2 ^ 32 - 1) bytes in
    if (first == 0) || (first == 229)
    then (if leb count (run + 1) then (some begin, run + 1, begin) else longer)
    else without

run_in_block : ℕ → ℕ → ℕ → ℕ → ℕ → Option Bytes → Option ℕ × ℕ × ℕ
run_in_block count per_cluster at run start none = (none, 0, 2 ^ 32 - 1)
run_in_block count per_cluster at run start (some block) =
    free_run count at run start (first_bytes per_cluster block)

found_slots : Act ℕ → Option ℕ → Act ℕ
found_slots rest none = rest
found_slots rest (some start) = pure start

free_slots_loop : ℕ → ℕ → ℕ → ℕ → List ℕ → Act ℕ
free_slots_loop count index run start [] = pure (2 ^ 32 - 1)
free_slots_loop count index run start (cluster ∷ chain) =
    let rest : ℕ → ℕ → Act ℕ = λ run' start'. free_slots_loop count (index + 1) run' start' chain in
    do
      offset ← cluster_to_offset cluster
      v ← ask
      read ← read_at offset v.cluster_size
      let x = run_in_block count (v.cluster_size / 32) (index * v.cluster_size) run start read in
          found_slots (rest x.1 x.2) x.0

-- findFreeDirEntrySlots; 0xFFFFFFFF means that there are none.
pub find_free_dir_entry_slots : ℕ → ℕ → Act ℕ
find_free_dir_entry_slots dir_cluster count =
    chain_of dir_cluster >>= free_slots_loop count 0 0 (2 ^ 32 - 1)

-- findFreeDirEntrySlot
pub find_free_dir_entry_slot : ℕ → Act ℕ
find_free_dir_entry_slot dir_cluster = find_free_dir_entry_slots dir_cluster 1
