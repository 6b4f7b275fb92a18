-- ===== src/Volume/Fat32/Directory.antt =====
-- The directories of a volume, of src/bas/volume/fat32/Fat32Volume.cpp and Fat32Volume_write.cpp:
-- parseDirectoryCluster and writeDirectoryEntryToDisk with what they call.
pub mod Scanning
pub mod Placement
pub mod Slots
pub mod Writing
pub mod Tests
use bas_cpp.Prelude.{
  ℕ, zero, suc, ◌+◌, ◌-◌, ◌*◌, ◌/◌, ◌%◌, ◌^◌, ◌≡◌, Bool, true, false, ◌&&◌, ◌||◌, not, Option, none,
  some, List, [], ◌∷◌, ◌++◌, map, if◌then◌else◌, ◌==◌, ltb, leb, is_nil, length, get_or, take, drop,
  any_byte, Bytes,
}
use bas_cpp.Volume.Device.{MemDevice, size, read_device, write_device}
use bas_cpp.Volume.Fat32.ClusterManager.{Fat}
use bas_cpp.Volume.Fat32.Flush.{Disk, flush_dirty}
use bas_cpp.Volume.Fat32.Chain.{
  Outcome, ok, throws, out_of_fuel, Op, read_cluster_chain, allocate_cluster,
}
use bas_cpp.Volume.Fat32.Dates.{Calendar}
use bas_cpp.Volume.Fat32.Names.{
  create_short_name, split_lfn_chunks, calculate_lfn_checksum, lfn_order, lfn_entry,
}
use bas_cpp.Volume.Fat32.Entry.{Dirent, write_dir_entry, Reading, read_slots}
use bas_cpp.Volume.Fat32.Vol.{
  Vol, Result, did, raised, Act, after, ◌>>=◌, ◌>>◌, pure, raise, ask, on_table, found_or_raise,
  cluster_to_offset, read_at, write_at, write_or_raise, flush, chain_of,
}

-- The slots of a cluster.
unfoldable pub slots_of : ℕ → Bytes → List Bytes
slots_of zero block = []
slots_of (suc n) block = take 32 block ∷ slots_of n (drop 32 block)

-- A directory of the index: Dirent::children and Dirent::childrenParsed.
pub record Directory : Type 0 where
  pub children : List (Bytes × Dirent)
  pub children_parsed : Bool

-- The loop of parseDirectoryCluster over the clusters; whether it met the end marker.
read_clusters : Calendar → Reading → List ℕ → Act (Bool × Reading)
read_clusters cal r [] = pure (false, r)
read_clusters cal r (cluster ∷ chain) =
    let rest : Reading → Act (Bool × Reading) = λ r'. read_clusters cal r' chain in
    do
      offset ← cluster_to_offset cluster
      v ← ask
      if ltb (size v.disk.device) (offset + v.cluster_size) then raise else do
        read ← read_at offset v.cluster_size
        block ← found_or_raise read
        let x = read_slots cal r (slots_of (v.cluster_size / 32) block) in
            if x.0 then pure x else rest x.1

-- parseDirectoryCluster, on a directory of the index. The `return` at the end marker passes by the
-- assignment of childrenParsed.
pub parse_directory_cluster : Calendar → Directory → ℕ → Act Directory
parse_directory_cluster cal dir first_cluster =
    if dir.children_parsed
    then pure dir
    else if ltb first_cluster 2
    then pure (record { children = []; children_parsed = true })
    else do
      chain ← chain_of first_cluster
      read ← read_clusters cal (record { parts = []; children = [] }) chain
      pure (record { children = (read.1).children; children_parsed = not read.0 })

-- What the search for free slots keeps: `slotAbs`; the first slot of the run that begins at the end
-- marker, with its length; the current run of deleted slots; the first run of them that is long enough;
-- and whether something stands behind the end marker.
pub record Scan : Type 0 where
  pub slot : ℕ
  pub empty_start : Option ℕ
  pub empty_len : ℕ
  pub deleted_start : ℕ
  pub deleted_len : ℕ
  pub candidate : Option ℕ
  pub broke : Bool

abbrev pub scan_start : Scan
scan_start = record {
  slot = 0;
  empty_start = none;
  empty_len = 0;
  deleted_start = 0;
  deleted_len = 0;
  candidate = none;
  broke = false;
}

-- `!found && len >= required`
unfoldable pub first_candidate : ℕ → ℕ → ℕ → Option ℕ → Option ℕ
first_candidate required start len (some c) = some c
first_candidate required start len none = if leb required len then some start else none

-- A slot before the end marker.
unfoldable pub scan_used : ℕ → Scan → ℕ → Scan
scan_used required s first =
    let start = if s.deleted_len == 0 then s.slot else s.deleted_start in
    if first == 0
    then record s { empty_start = some s.slot; empty_len = 1; deleted_len = 0 }
    else if (first == 229) || (first == 5)
    then record s {
      slot = s.slot + 1;
      deleted_start = start;
      deleted_len = s.deleted_len + 1;
      candidate = first_candidate required start (s.deleted_len + 1) s.candidate;
    }
    else record s { slot = s.slot + 1; deleted_len = 0 }

-- A slot from the end marker on.
unfoldable pub scan_empty : Scan → ℕ → Scan
scan_empty s first =
    if first == 0
    then record s { slot = s.slot + 1; empty_len = s.empty_len + 1 }
    else record s { broke = true }

-- One round of the search.
unfoldable pub scan_slot : ℕ → Option ℕ → Scan → ℕ → Scan
scan_slot required none s first = scan_used required s first
scan_slot required (some start) s first = scan_empty s first

-- The loop over the first bytes of the slots of a cluster.
unfoldable pub scan_slots : ℕ → Scan → Bytes → Scan
scan_slots required s [] = s
scan_slots required s (first ∷ bytes) =
    let next = scan_slot required s.empty_start s first in
    let rest = scan_slots required next bytes in if next.broke then next else rest

-- The first bytes of the slots of a block.
unfoldable pub first_bytes : ℕ → Bytes → Bytes
first_bytes slots block = map (λ ent. get_or ent 0 0) (slots_of slots block)

-- The loop over the clusters.
unfoldable pub scan_clusters : ℕ → Scan → List ℕ → Act Scan
scan_clusters required s [] = pure s
scan_clusters required s (cluster ∷ chain) =
    let rest : Scan → Act Scan = λ s'. scan_clusters required s' chain in
    if s.broke then pure s else do
      offset ← cluster_to_offset cluster
      v ← ask
      read ← read_at offset v.cluster_size
      block ← found_or_raise read
      rest (scan_slots required s (first_bytes (v.cluster_size / 32) block))

-- `startSlotAbs` with `placementInExisting`.
unfoldable pub in_extension : Scan → ℕ → Option ℕ → ℕ
in_extension s total none = total
in_extension s total (some start) = if s.broke then total else start

unfoldable pub in_deleted : Scan → ℕ → Option ℕ → ℕ × Bool
in_deleted s total (some c) = (c, true)
in_deleted s total none = (in_extension s total s.empty_start, false)

unfoldable pub in_empty : ℕ → Scan → ℕ → Option ℕ → ℕ × Bool
in_empty required s total none = in_deleted s total s.candidate
in_empty required s total (some start) =
    if leb required s.empty_len then (start, true) else in_deleted s total s.candidate

unfoldable pub place : ℕ → Scan → ℕ → ℕ × Bool
place required s total = in_empty required s total s.empty_start
