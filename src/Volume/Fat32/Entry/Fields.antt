-- ===== src/Volume/Fat32/Entry/Fields.antt =====
-- The fields of an entry, written and read again.
use bas_cpp.Prelude.{
  ℕ, zero, suc, ◌+◌, ◌*◌, ◌^◌, ◌<◌, ◌≡◌, refl, ap, Bool, true, false, Option, none, some, [], ◌∷◌,
  map, arith, if◌then◌else◌, length, length-append, get_or, Bytes, get_or-append_right, to_upper,
}
use bas_cpp.Volume.Fat32.Dates.{
  Tm, Calendar, encode_tm, encode_dos_date_time, fat_dos_date_time, dos_time, dos_date,
}
use bas_cpp.Volume.Fat32.Names.{read_le16, padded, short_name_field, base_and_extension}
use bas_cpp.Volume.Fat32.Entry.{
  Dirent, byte_of, entry_tail, write_dir_entry, read_dirent, has_directory_bit,
}

length-padded : (n : ℕ) (s : Bytes) → length (padded n s) ≡ n
unfolding padded
length-padded zero s = refl
length-padded (suc n) [] = ap suc (length-padded n [])
length-padded (suc n) (c ∷ s) = ap suc (length-padded n s)

pub length-short_name_field : (name : Bytes) → length (short_name_field name) ≡ 11
unfolding short_name_field
length-short_name_field name =
    let (base, ext) = base_and_extension name in
    let l = length-append (padded 8 (map to_upper base)) (padded 3 (map to_upper ext)) in
    let l₁ = length-padded 8 (map to_upper base) in
    let l₂ = length-padded 3 (map to_upper ext) in omega (arith, l, l₁, l₂)

module _ (cal : Calendar) (name : Bytes) (d : Dirent) where
  -- A byte behind the name.
  pub tail_at :
      (i k : ℕ)
      → i ≡ 11 + k
      → get_or (write_dir_entry cal name d) i 0 ≡ get_or (entry_tail cal d) k 0
  unfolding write_dir_entry
  tail_at i k e =
      let l = length-short_name_field name in
      get_or-append_right (short_name_field name) (entry_tail cal d) i k (omega (arith, l, e))

  tail_le16 :
      (i k : ℕ)
      → i ≡ 11 + k
      → read_le16 (write_dir_entry cal name d) i ≡ read_le16 (entry_tail cal d) k
  tail_le16 i k e = rw (tail_at i k e, tail_at (i + 1) (k + 1) (omega (arith, e))) refl

-- A number of 16 bits from its two bytes.
join_bytes : (v : ℕ) → v < 2 ^ 16 → byte_of v 0 + byte_of v 8 * 2 ^ 8 ≡ v
join_bytes v h = omega (arith, h)

pub join_cluster :
    (v : ℕ)
    → v < 2 ^ 32
    → (byte_of v 16 + byte_of v 24 * 2 ^ 8) * 2 ^ 16 + (byte_of v 0 + byte_of v 8 * 2 ^ 8) ≡ v
join_cluster v h = omega (arith, h)

pub join_size :
    (v : ℕ)
    → v < 2 ^ 32
    → byte_of v 0 + byte_of v 8 * 2 ^ 8 + byte_of v 16 * 2 ^ 16 + byte_of v 24 * 2 ^ 24 ≡ v
join_size v h = omega (arith, h)

encoded_small :
    (cal : Calendar) (t : ℕ)
    → ((encode_dos_date_time cal t).0 < 2 ^ 16) × ((encode_dos_date_time cal t).1 < 2 ^ 16)
unfolding encode_dos_date_time
encoded_small cal t = of_tm (cal.localtime t)
  where
    of_tm : (o : Option Tm) → ((encode_tm o).0 < 2 ^ 16) × ((encode_tm o).1 < 2 ^ 16)
    of_tm none = (omega arith, omega arith)
    of_tm (some tm) = unfold dos_time in unfold dos_date in (omega arith, omega arith)

-- The fields in the tail of an entry.
tail-fields :
    (cal : Calendar) (d : Dirent)
    → d.first_cluster < 2 ^ 32
    → d.size < 2 ^ 32
    → (get_or (entry_tail cal d) 0 0 ≡ (if d.is_directory then 16 else 32))
      × (read_le16 (entry_tail cal d) 9 * 2 ^ 16 + read_le16 (entry_tail cal d) 15
          ≡ d.first_cluster)
      × (read_le16 (entry_tail cal d) 7 ≡ (encode_dos_date_time cal d.atime).1)
      × (read_le16 (entry_tail cal d) 11 ≡ (encode_dos_date_time cal d.mtime).0)
      × (read_le16 (entry_tail cal d) 13 ≡ (encode_dos_date_time cal d.mtime).1)
      × (read_le16 (entry_tail cal d) 3 ≡ (encode_dos_date_time cal d.creation_time).0)
      × (read_le16 (entry_tail cal d) 5 ≡ (encode_dos_date_time cal d.creation_time).1)
      × (get_or (entry_tail cal d) 17 0
            + get_or (entry_tail cal d) 18 0 * 2 ^ 8
            + get_or (entry_tail cal d) 19 0 * 2 ^ 16
            + get_or (entry_tail cal d) 20 0 * 2 ^ 24
          ≡ d.size)
unfolding entry_tail
tail-fields cal d small small' =
    let (a, a') = encoded_small cal d.atime in
    let (m, m') = encoded_small cal d.mtime in
    let (c, c') = encoded_small cal d.creation_time in
    (
      refl,
      join_cluster d.first_cluster small,
      join_bytes (encode_dos_date_time cal d.atime).1 a',
      join_bytes (encode_dos_date_time cal d.mtime).0 m,
      join_bytes (encode_dos_date_time cal d.mtime).1 m',
      join_bytes (encode_dos_date_time cal d.creation_time).0 c,
      join_bytes (encode_dos_date_time cal d.creation_time).1 c',
      join_size d.size small',
    )

directory_bit : (b : Bool) → has_directory_bit (if b then 16 else 32) ≡ b
directory_bit true = refl
directory_bit false = refl

-- The time that an entry keeps of a time.
abbrev pub kept_time : Calendar → ℕ → ℕ
kept_time cal t =
    fat_dos_date_time cal (encode_dos_date_time cal t).0 (encode_dos_date_time cal t).1

-- What is read of an entry that was written: its fields, the size of a file, and the times as far as the
-- entry keeps them.
abbrev pub kept_entry : Calendar → Dirent → Dirent
kept_entry cal d = record d {
  size = if d.is_directory then 0 else d.size;
  atime = fat_dos_date_time cal 0 (encode_dos_date_time cal d.atime).1;
  mtime = kept_time cal d.mtime;
  creation_time = kept_time cal d.creation_time;
}

-- An entry that writeDirEntry wrote is read by parseDirectoryCluster with its kind, its first cluster, its
-- size unless it is a directory, and with its times in the form in which an entry keeps them, of the last
-- access only the date. The cluster and the size are 32-bit numbers.
pub read_dirent-write_dir_entry :
    (cal : Calendar) (name : Bytes) (d : Dirent)
    → d.first_cluster < 2 ^ 32
    → d.size < 2 ^ 32
    → read_dirent cal (write_dir_entry cal name d) ≡ kept_entry cal d
unfolding read_dirent
read_dirent-write_dir_entry cal name d small small' =
    let at = tail_at cal name d in
    let word = tail_le16 cal name d in
    let (kind, cluster, access, modified, mod_date, created, created_date, size) =
      tail-fields cal d small small' in
    rw
      (
        at 11 0 (omega arith),
        word 20 9 (omega arith),
        word 26 15 (omega arith),
        word 18 7 (omega arith),
        word 22 11 (omega arith),
        word 24 13 (omega arith),
        word 14 3 (omega arith),
        word 16 5 (omega arith),
        at 28 17 (omega arith),
        at 29 18 (omega arith),
        at 30 19 (omega arith),
        at 31 20 (omega arith),
        kind,
        cluster,
        access,
        modified,
        mod_date,
        created,
        created_date,
        size,
        directory_bit d.is_directory,
      )
      refl
