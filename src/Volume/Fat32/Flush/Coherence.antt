-- ===== src/Volume/Fat32/Flush/Coherence.antt =====
-- The table in memory and the table on the device: flushDirty makes them agree.
use bas_cpp.Prelude.{ℕ, ◌+◌, ◌*◌, ◌^◌, ◌≤◌, ◌<◌, ◌≡◌, ◌⊎◌, false, get_or, All, Any}
use bas_cpp.Volume.Device.{is_view, size}
use bas_cpp.Volume.Fat32.ClusterManager.{entry_at, fat_entries, normalize_value}
use bas_cpp.Volume.Fat32.Flush.{Disk}
use bas_cpp.Volume.Fat32.Flush.Words.{word_at}

-- The device can take a write of the whole table, and the entries have 28 bits.
pub record Ready (d : Disk) : Type 0 where
  pub small : (k : ℕ) → entry_at d.fat k < 2 ^ 28
  pub room : d.fat_offset + fat_entries d.fat * 4 ≤ size d.device
  pub writable : is_view d.device.own_type ≡ false

-- The word of the cluster on the device, read as the constructor reads it, is its entry.
abbrev pub IsClean : Disk → ℕ → Type 0
IsClean d c = normalize_value (word_at d.device.bytes d.fat_offset c) ≡ entry_at d.fat c

-- Each cluster is clean or marked, and the marked ones are in range.
pub record Coherent (d : Disk) : Type 0 where
  pub ready : Ready d
  pub marked_in_range : All (λ c. c < fat_entries d.fat) d.fat.dirty_clusters
  pub clean_or_marked :
      (c : ℕ) → c < fat_entries d.fat → IsClean d c ⊎ Any (λ x. x ≡ c) d.fat.dirty_clusters

-- What writes to the table of a device keep.
pub record SameRest (d after : Disk) : Type 0 where
  pub same_offset : after.fat_offset ≡ d.fat_offset
  pub same_own : after.device.own_type ≡ d.device.own_type
  pub same_size : size after.device ≡ size d.device
  pub outside :
      (i : ℕ)
      → (i < d.fat_offset) ⊎ (d.fat_offset + fat_entries d.fat * 4 ≤ i)
      → get_or after.device.bytes i 0 ≡ get_or d.device.bytes i 0
