-- ===== src/Volume/Fat32/Flush/Tests.antt =====
-- The table of a small device, loaded, changed and written back.
use bas_cpp.Prelude.{
  put_bytes, ℕ, zero, suc, ◌^◌, ◌<◌, ◌≡◌, ◌⊎◌, inl, inr, refl, false, none, some, [], ◌∷◌, arith,
  Any,
}
use bas_cpp.Volume.Device.{MemDevice, OwnType, write_device, read_device}
use bas_cpp.Volume.Fat32.ClusterManager.{Fat, entry_at, put_entry, set_fat_entry}
use bas_cpp.Volume.Fat32.Flush.{
  Disk, load_fat, loaded, flush_dirty, flush_list, flush_runs, set_dirty, clear_dirty, write_run,
  written, block_of, sort, insert_sorted, unique, unique_after,
}
use bas_cpp.Volume.Fat32.Flush.Coherence.{IsClean, Coherent}
use bas_cpp.Volume.Fat32.Flush.WriteBack.{IsFlush, flush_dirty-IsFlush, set_fat_entry-Coherent}
use bas_cpp.Volume.Fat32.Flush.Reload.{load_fat-flush_dirty}

-- Two bytes in front of the table, two after it.
abbrev pub blank : MemDevice
blank = record {
  bytes = 7 ∷ 7 ∷ 0 ∷ 0 ∷ 0 ∷ 0 ∷ 0 ∷ 0 ∷ 0 ∷ 0 ∷ 0 ∷ 0 ∷ 0 ∷ 0 ∷ 0 ∷ 0 ∷ 0 ∷ 0 ∷ 9 ∷ 9 ∷ [];
  own_type = OwnType.malloc;
}

-- Cluster 2 leads to 3, which ends the chain; marked out of order, one of them twice.
abbrev pub chained : Fat
chained = record {
  entries = 0 ∷ 0 ∷ 3 ∷ 268435448 ∷ [];
  dirty_clusters = 3 ∷ 2 ∷ 3 ∷ [];
  alloc_hint = 3;
}

abbrev pub chained_disk : Disk
chained_disk = record { fat = chained; device = blank; fat_offset = 2 }

flushed_bytes :
    (flush_dirty chained_disk).1.device.bytes
    ≡ 7 ∷ 7 ∷ 0 ∷ 0 ∷ 0 ∷ 0 ∷ 0 ∷ 0 ∷ 0 ∷ 0 ∷ 3 ∷ 0 ∷ 0 ∷ 0 ∷ 248 ∷ 255 ∷ 255 ∷ 15 ∷ 9 ∷ 9 ∷ []
unfolding flush_dirty flush_list flush_runs set_dirty clear_dirty write_run written write_device
    put_bytes block_of sort insert_sorted unique unique_after
flushed_bytes = refl

-- A device that cannot be written: the flush fails, and the marked clusters stay marked.
read_only_flush :
    flush_dirty (record chained_disk { device = record blank { own_type = OwnType.view } }) ≡ (
      false,
      record {
        fat = record chained { dirty_clusters = 2 ∷ 3 ∷ [] };
        device = record blank { own_type = OwnType.view };
        fat_offset = 2;
      },
    )
unfolding flush_dirty flush_list flush_runs set_dirty clear_dirty write_run written write_device
    put_bytes block_of sort insert_sorted unique unique_after
read_only_flush = refl

too_short_to_load : load_fat blank 2 5 ≡ none
unfolding load_fat loaded read_device
too_short_to_load = refl

small_entries : (k : ℕ) → entry_at chained k < 2 ^ 28
small_entries zero = omega arith
small_entries (suc zero) = omega arith
small_entries (suc (suc zero)) = omega arith
small_entries (suc (suc (suc zero))) = omega arith
small_entries (suc (suc (suc (suc k)))) = omega arith

IsClean-or_marked :
    (c : ℕ) → c < 4 → IsClean chained_disk c ⊎ Any (λ x. x ≡ c) chained.dirty_clusters
IsClean-or_marked zero h = inl refl
IsClean-or_marked (suc zero) h = inl refl
IsClean-or_marked (suc (suc zero)) h = inr (inr (inl refl))
IsClean-or_marked (suc (suc (suc zero))) h = inr (inl refl)
IsClean-or_marked (suc (suc (suc (suc k)))) h = absurd (omega arith)

pub chained_disk-Coherent : Coherent chained_disk
chained_disk-Coherent = record {
  ready = record { small = small_entries; room = omega arith; writable = refl };
  marked_in_range = (omega arith, (omega arith, (omega arith, tt)));
  clean_or_marked = IsClean-or_marked;
}

flush_dirty-IsFlush_example : IsFlush chained_disk (flush_dirty chained_disk)
flush_dirty-IsFlush_example = flush_dirty-IsFlush chained_disk chained_disk-Coherent

load_fat-flush_dirty_example :
    load_fat (flush_dirty chained_disk).1.device 2 4
    ≡ some (record {
      fat = record { entries = 0 ∷ 0 ∷ 3 ∷ 268435448 ∷ []; dirty_clusters = []; alloc_hint = 2 };
      device = (flush_dirty chained_disk).1.device;
      fat_offset = 2;
    })
load_fat-flush_dirty_example = load_fat-flush_dirty chained_disk chained_disk-Coherent (omega arith)

set_one : set_fat_entry chained 2 5 ≡ some (put_entry chained 2 5)
unfolding set_fat_entry put_entry
set_one = refl

set_fat_entry-Coherent_example : Coherent (record chained_disk { fat = put_entry chained 2 5 })
set_fat_entry-Coherent_example =
    set_fat_entry-Coherent chained_disk (put_entry chained 2 5) 2 5 chained_disk-Coherent set_one
