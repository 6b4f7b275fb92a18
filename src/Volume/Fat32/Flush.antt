-- ===== src/Volume/Fat32/Flush.antt =====
-- Fat32ClusterManager's constructor and flushDirty: the table between memory and the device. The
-- device is a MemDevice; a word of the table is four bytes, the lowest first.
pub mod Words
pub mod Coherence
pub mod Sorting
pub mod Runs
pub mod WriteBack
pub mod Reload
pub mod Tests
use bas_cpp.Prelude.{
  ℕ, zero, suc, ◌+◌, ◌-◌, ◌*◌, ◌/◌, ◌%◌, ◌^◌, ◌≡◌, refl, Bool, true, false, ◌&&◌, Option, none,
  some, List, [], ◌∷◌, ◌++◌, if◌then◌else◌, ◌==◌, ltb, leb, is_nil, length, get_or, set, Bytes,
}
use bas_cpp.Volume.Device.{MemDevice, read_device, write_device}
use bas_cpp.Volume.Fat32.ClusterManager.{Fat, entry_at, fat_entries, normalize_value}

-- A cluster manager with the device it stands on.
pub record Disk : Type 0 where
  pub fat : Fat
  pub device : MemDevice
  pub fat_offset : ℕ

-- readLe32; the bytes are apart, so the `|` of the source is a sum.
abbrev pub read_le32 : Bytes → ℕ → ℕ
read_le32 raw p =
    get_or raw p 0
    + get_or raw (p + 1) 0 * 2 ^ 8
    + get_or raw (p + 2) 0 * 2 ^ 16
    + get_or raw (p + 3) 0 * 2 ^ 24

-- The four bytes that flushDirty stores for an entry.
abbrev pub le32 : ℕ → Bytes
le32 v = v % 2 ^ 8 ∷ (v / 2 ^ 8) % 2 ^ 8 ∷ (v / 2 ^ 16) % 2 ^ 8 ∷ (v / 2 ^ 24) % 2 ^ 8 ∷ []

-- The entries from the `i`-th on, out of the raw table.
pub load_entries : Bytes → ℕ → ℕ → List ℕ
load_entries raw zero i = []
load_entries raw (suc rounds) i =
    normalize_value (read_le32 raw (i * 4)) ∷ load_entries raw rounds (i + 1)

loaded : MemDevice → ℕ → ℕ → Option Bytes → Option Disk
loaded device fat_offset n none = none
loaded device fat_offset n (some raw) = some (record {
  fat = record { entries = load_entries raw n 0; dirty_clusters = []; alloc_hint = 2 };
  device = device;
  fat_offset = fat_offset;
})

-- The constructor of Fat32ClusterManager; `none` is the IOException.
pub load_fat : MemDevice → ℕ → ℕ → Option Disk
load_fat device fat_offset n =
    if ltb n 2 then none else loaded device fat_offset n (read_device device fat_offset (n * 4))

-- std::sort, by insertion.
pub insert_sorted : ℕ → List ℕ → List ℕ
insert_sorted x [] = x ∷ []
insert_sorted x (y ∷ ys) = let rest = insert_sorted x ys in if leb x y then x ∷ y ∷ ys else y ∷ rest

pub sort : List ℕ → List ℕ
sort [] = []
sort (x ∷ xs) = insert_sorted x (sort xs)

-- std::unique with erase: `x` stands in front of the list.
pub unique_after : ℕ → List ℕ → List ℕ
unique_after x [] = x ∷ []
unique_after x (y ∷ ys) =
    let kept = unique_after y ys in
    let dropped = unique_after x ys in if x == y then dropped else x ∷ kept

pub unique : List ℕ → List ℕ
unique [] = []
unique (x ∷ xs) = unique_after x xs

-- The block of `count` entries from `start` on.
pub block_of : List ℕ → ℕ → ℕ → Bytes
block_of entries start zero = []
block_of entries start (suc n) = le32 (get_or entries start 0) ++ block_of entries (start + 1) n

written : Disk → Option MemDevice → Option Disk
written d none = none
written d (some device) = some (record d { device = device })

-- The write of the run from `start` to `end`; `none` is the answer false of the device.
pub write_run : Disk → ℕ → ℕ → Option Disk
write_run d start end = written d (
    write_device d.device (d.fat_offset + start * 4)
      (block_of d.fat.entries start (end - start + 1)))

-- After the write of a run: the rest, unless the device failed.
abbrev flush_after : Disk → Option Disk → (Disk → Bool × Disk) → Bool × Disk
flush_after d none next = (false, d)
flush_after d (some d') next = next d'

-- The runs of the clusters that are left, the current one from `start` to `end`. The answer false is the
-- IOException, with what was written until then.
pub flush_runs : Disk → ℕ → ℕ → List ℕ → Bool × Disk
flush_runs d start end [] = flush_after d (write_run d start end) (λ d'. (true, d'))
flush_runs d start end (c ∷ rest) =
    let longer = flush_runs d start c rest in
    let next = flush_after d (write_run d start end) (λ d'. flush_runs d' c c rest) in
    if c == end + 1 then longer else next

flush_list : Disk → List ℕ → Bool × Disk
flush_list d [] = (true, d)
flush_list d (c ∷ rest) = flush_runs d c c rest

set_dirty : Disk → List ℕ → Disk
set_dirty d clusters = record d { fat = record d.fat { dirty_clusters = clusters } }

clear_dirty : Bool × Disk → Bool × Disk
clear_dirty (true, d) = (true, set_dirty d [])
clear_dirty (false, d) = (false, d)

-- Fat32ClusterManager::flushDirty; the answer false is the IOException.
pub flush_dirty : Disk → Bool × Disk
flush_dirty d =
    if is_nil d.fat.dirty_clusters
    then (true, d)
    else let clusters = unique (sort d.fat.dirty_clusters) in
      clear_dirty (flush_list (set_dirty d clusters) clusters)
