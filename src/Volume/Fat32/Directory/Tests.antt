-- ===== src/Volume/Fat32/Directory/Tests.antt =====
-- Directories with concrete slots.
use bas_cpp.Prelude.{ℕ, zero, suc, ◌≡◌, refl, true, false, [], ◌∷◌, ◌*◌, ◌/◌, Bytes}
use bas_cpp.Volume.Device.{MemDevice, malloc, read_device}
use bas_cpp.Volume.Fat32.ClusterManager.{Fat}
use bas_cpp.Volume.Fat32.Flush.{Disk}
use bas_cpp.Volume.Fat32.Vol.{Vol, did, cluster_to_offset, read_at, found_or_raise}
use bas_cpp.Volume.Fat32.Directory.{
  scan_start, scan_slots, scan_slot, scan_used, scan_empty, first_candidate, place, in_empty,
  in_deleted, in_extension, scan_clusters, first_bytes, slots_of,
}
use bas_cpp.Volume.Fat32.Directory.Placement.{IsPlace}
use bas_cpp.Volume.Fat32.Directory.Slots.{directory_bytes, scan_clusters-IsPlace}

-- Two slots in use, one of them in front of two that were deleted; then the end.
abbrev some_slots : Bytes
some_slots = b'A' ∷ 229 ∷ 229 ∷ b'B' ∷ 0 ∷ 0 ∷ []

-- Two slots go behind the end marker, three nowhere but in an extension that begins there.
two_and_three :
    (place 2 (scan_slots 2 scan_start some_slots) 6 ≡ (4, true))
    × (place 3 (scan_slots 3 scan_start some_slots) 6 ≡ (4, false))
unfolding place scan_slots scan_slot scan_used scan_empty first_candidate in_empty in_deleted
    in_extension
two_and_three = (refl, refl)

abbrev zero_bytes : ℕ → Bytes
zero_bytes zero = []
zero_bytes (suc n) = 0 ∷ zero_bytes n

abbrev no_table : Fat
no_table = record { entries = []; dirty_clusters = []; alloc_hint = 2 }

abbrev two_slots : MemDevice
two_slots = record { bytes = b'A' ∷ zero_bytes 63; own_type = malloc }

abbrev one_disk : Disk
one_disk = record { fat = no_table; device = two_slots; fat_offset = 0 }

-- A directory of one cluster of two slots, the first of them in use.
abbrev one_cluster : Vol
one_cluster = record { disk = one_disk; data_offset = 0; cluster_size = 64 }

searched :
    scan_clusters 1 scan_start (2 ∷ []) one_cluster
    ≡ did (scan_slots 1 scan_start (b'A' ∷ 0 ∷ [])) one_cluster
unfolding scan_clusters cluster_to_offset read_at found_or_raise read_device first_bytes slots_of
searched = refl

scan_clusters-IsPlace_example :
    IsPlace 1
      (directory_bytes one_cluster (2 ∷ []))
      (scan_slots 1 scan_start (b'A' ∷ 0 ∷ [])).broke
      (place 1 (scan_slots 1 scan_start (b'A' ∷ 0 ∷ [])) (1 * (64 / 32)))
scan_clusters-IsPlace_example =
    scan_clusters-IsPlace 1 (2 ∷ []) one_cluster one_cluster
      (scan_slots 1 scan_start (b'A' ∷ 0 ∷ [])) searched
