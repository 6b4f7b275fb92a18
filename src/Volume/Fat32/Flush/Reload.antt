-- ===== src/Volume/Fat32/Flush/Reload.antt =====
-- The constructor on what flushDirty wrote, and on any device.
use bas_cpp.Prelude.{
  ℕ, zero, suc, ◌+◌, ◌*◌, ◌^◌, ◌≤◌, ◌<◌, ◌≡◌, inl, refl, sym, ap, ◌∙◌, false, some, List, [], arith,
  ◌==◌, ltb, length, get_or, take, drop, get_or-take, get_or-drop, list_ext, get_or-out, Bytes,
  ◌||◌,
}
use native.Mathlib.Decide.{dec_lt}
use bas_cpp.Volume.Device.{MemDevice, is_view, size, read_device}
use bas_cpp.Volume.Fat32.ClusterManager.{fat_entries, normalize_value}
use bas_cpp.Volume.Fat32.Flush.{Disk, read_le32, load_entries, loaded, load_fat, flush_dirty}
use bas_cpp.Volume.Fat32.Flush.Words.{word_at}
use bas_cpp.Volume.Fat32.Flush.Coherence.{IsClean, Coherent}
use bas_cpp.Volume.Fat32.Flush.WriteBack.{flush_dirty-IsFlush}

length-load_entries : (raw : Bytes) (n i : ℕ) → length (load_entries raw n i) ≡ n
unfolding load_entries
length-load_entries raw zero i = refl
length-load_entries raw (suc n) i = ap suc (length-load_entries raw n (i + 1))

get_or-load_entries :
    (raw : Bytes) (n i k : ℕ)
    → k < n
    → get_or (load_entries raw n i) k 0 ≡ normalize_value (read_le32 raw ((i + k) * 4))
unfolding load_entries
get_or-load_entries raw zero i k h = absurd (omega arith)
get_or-load_entries raw (suc n) i zero h = let at : i + 0 ≡ i = omega arith in rw at refl
get_or-load_entries raw (suc n) i (suc k) h =
    let at : i + suc k ≡ i + 1 + k = omega arith in
    rw at (get_or-load_entries raw n (i + 1) k (omega arith))

-- The table as the constructor reads it.
abbrev raw_table : MemDevice → ℕ → ℕ → Bytes
raw_table device offset n = take (n * 4) (drop offset device.bytes)

abbrev read_table : MemDevice → ℕ → ℕ → List ℕ
read_table device offset n = load_entries (raw_table device offset n) n 0

read_le32-raw_table :
    (device : MemDevice) (offset n c : ℕ)
    → c < n
    → read_le32 (raw_table device offset n) (c * 4) ≡ word_at device.bytes offset c
read_le32-raw_table device offset n c h =
    let byte : (k : ℕ)
        → k < 4
        → get_or (raw_table device offset n) (c * 4 + k) 0
          ≡ get_or device.bytes (offset + c * 4 + k) 0 =
      λ k b.
        let at : offset + c * 4 + k ≡ offset + (c * 4 + k) = omega arith in
        rw at (
          get_or-take (n * 4) (c * 4 + k) (drop offset device.bytes) 0 (omega arith)
          ∙ get_or-drop offset (c * 4 + k) device.bytes 0) in
    let at₁ : c * 4 + 0 ≡ c * 4 = omega arith in
    let at₂ : offset + c * 4 + 0 ≡ offset + c * 4 = omega arith in
    let zeroth = rw (at₁, at₂) at (byte 0 (omega arith)) in
    rw (zeroth, byte 1 (omega arith), byte 2 (omega arith), byte 3 (omega arith)) refl

get_or-read_table :
    (device : MemDevice) (offset n c : ℕ)
    → c < n
    → get_or (read_table device offset n) c 0 ≡ normalize_value (word_at device.bytes offset c)
get_or-read_table device offset n c h =
    let at : 0 + c ≡ c = omega arith in
    rw
      (
        get_or-load_entries (raw_table device offset n) n 0 c h,
        at,
        read_le32-raw_table device offset n c h,
      )
      refl

load_fat-some :
    (device : MemDevice) (offset n : ℕ)
    → 2 ≤ n
    → offset + n * 4 ≤ size device
    → load_fat device offset n
      ≡ some (record {
        fat = record { entries = read_table device offset n; dirty_clusters = []; alloc_hint = 2 };
        device = device;
        fat_offset = offset;
      })
unfolding load_fat loaded read_device
load_fat-some device offset n many room =
    let enough : ltb n 2 ≡ false = ground arith in
    let fits : (n * 4 == 0) || ltb (size device) (offset + n * 4) ≡ false = ground arith in
    rw (enough, fits) refl

-- The table on a device whose clusters are clean is the table in memory.
read_table-clean :
    (d : Disk)
    → ((c : ℕ) → c < fat_entries d.fat → IsClean d c)
    → read_table d.device d.fat_offset (fat_entries d.fat) ≡ d.fat.entries
read_table-clean d clean =
    let n = fat_entries d.fat in
    let len = length-load_entries (raw_table d.device d.fat_offset n) n 0 in
    list_ext (read_table d.device d.fat_offset n) d.fat.entries 0 len (λ i b.
      let h : i < n = omega (arith, b, len) in
      get_or-read_table d.device d.fat_offset n i h ∙ clean i h)

read_table-after :
    (after : Disk) (entries : List ℕ) (offset : ℕ)
    → after.fat_offset ≡ offset
    → after.fat.entries ≡ entries
    → ((c : ℕ) → c < length entries → IsClean after c)
    → read_table after.device offset (length entries) ≡ entries
read_table-after after entries offset o e clean =
    rw (← o, ← e) (read_table-clean after (λ c hc. clean c (rw e at hc)))

read_table-small :
    (device : MemDevice) (offset n k : ℕ) → get_or (read_table device offset n) k 0 < 2 ^ 28
read_table-small device offset n k =
    let table = read_table device offset n in
    let len = length-load_entries (raw_table device offset n) n 0 in
    elim (dec_lt k n) [
      | yes h ↦ rw (get_or-read_table device offset n k h) (omega arith)
      | no h ↦ rw (get_or-out table k 0 (omega (arith, len))) (omega arith)
    ]

-- A cluster manager built anew on the device, after flushDirty has written the marked clusters of a
-- coherent one, holds the table that was in memory, and no cluster in it is marked.
pub load_fat-flush_dirty :
    (d : Disk)
    → Coherent d
    → 2 ≤ fat_entries d.fat
    → load_fat (flush_dirty d).1.device d.fat_offset (fat_entries d.fat)
      ≡ some (record {
        fat = record { entries = d.fat.entries; dirty_clusters = []; alloc_hint = 2 };
        device = (flush_dirty d).1.device;
        fat_offset = d.fat_offset;
      })
load_fat-flush_dirty d h many =
    let flush = flush_dirty-IsFlush d h in
    let after = (flush_dirty d).1 in
    let rest = flush.rest in
    let ready = h.ready in
    let room = ready.room in
    let size_kept = rest.same_size in
    let table =
      read_table-after after d.fat.entries d.fat_offset rest.same_offset flush.same_entries
        flush.all_clean in
    rw
      (
        load_fat-some after.device d.fat_offset (fat_entries d.fat) many (omega (arith, size_kept)),
        table,
      )
      refl

-- The constructor on a device that can be written succeeds when the table has two entries or more and
-- fits, and what it builds is coherent with the device.
pub load_fat_total :
    (device : MemDevice) (offset n : ℕ)
    → 2 ≤ n
    → offset + n * 4 ≤ size device
    → is_view device.own_type ≡ false
    → (d : Disk) × (load_fat device offset n ≡ some d) × (fat_entries d.fat ≡ n) × Coherent d
load_fat_total device offset n many room writable =
    let table = read_table device offset n in
    let len = length-load_entries (raw_table device offset n) n 0 in
    (
      record {
        fat = record { entries = table; dirty_clusters = []; alloc_hint = 2 };
        device = device;
        fat_offset = offset;
      },
      load_fat-some device offset n many room,
      len,
      record {
        ready = record {
          small = read_table-small device offset n;
          room = rw len room;
          writable = writable;
        };
        marked_in_range = tt;
        clean_or_marked =
            λ c hc. inl (sym (get_or-read_table device offset n c (omega (arith, len, hc))));
      },
    )
