-- ===== src/Volume/Fat32/Removal/Update.antt =====
-- What updateDirEntry changes of an entry.
use bas_cpp.Prelude.{
  ℕ, zero, suc, ◌+◌, ◌^◌, ◌<◌, ◌≡◌, refl, ap, ◌∙◌, Bool, true, false, [], ◌∷◌, arith, if◌then◌else◌,
  Bool-cases, inl, inr, subst, length, get_or, take, slice, Bytes, ◌%◌, ◌/◌,
}
use bas_cpp.Volume.Fat32.Dates.{Calendar}
use bas_cpp.Volume.Fat32.Entry.{Dirent, has_directory_bit, read_dirent}
use bas_cpp.Volume.Fat32.Entry.Fields.{join_cluster, join_size}
use bas_cpp.Volume.Fat32.Removal.{set_directory_bit, update_slot}

-- The bytes of a list, from the `i`-th on, spelled out.
abbrev spelled : ℕ → ℕ → Bytes → Bytes
spelled zero i xs = []
spelled (suc n) i xs = get_or xs i 0 ∷ spelled n (i + 1) xs

spelled-cons : (n i x : ℕ) (xs : Bytes) → spelled n (i + 1) (x ∷ xs) ≡ spelled n i xs
spelled-cons zero i x xs = refl
spelled-cons (suc n) i x xs =
    let at : i + 1 ≡ suc i = omega arith in
    rw (spelled-cons n (i + 1) x xs) (ap (λ k. get_or (x ∷ xs) k 0 ∷ spelled n (i + 1) xs) at)

spelled-all : (xs : Bytes) → spelled (length xs) 0 xs ≡ xs
spelled-all [] = refl
spelled-all (x ∷ xs) = ap (λ t. x ∷ t) (spelled-cons (length xs) 0 x xs ∙ spelled-all xs)

bit_set : (b : Bool) (attr : ℕ) → has_directory_bit (set_directory_bit b attr) ≡ b
unfolding set_directory_bit
bit_set true attr = elim (Bool-cases (has_directory_bit attr)) [
  | inl e ↦ rw e e
  | inr e ↦ rw e (ground (arith, e))
]
bit_set false attr = elim (Bool-cases (has_directory_bit attr)) [
  | inl e ↦ rw e (ground (arith, e))
  | inr e ↦ rw e e
]

-- Setting the bit for a directory changes no other bit.
other_bits :
    (b : Bool) (attr : ℕ)
    → (set_directory_bit b attr % 16 ≡ attr % 16) × (set_directory_bit b attr / 32 ≡ attr / 32)
unfolding set_directory_bit
other_bits true attr = elim (Bool-cases (has_directory_bit attr)) [
  | inl e ↦ rw e (refl, refl)
  | inr e ↦ rw e (ground (arith, e), ground (arith, e))
]
other_bits false attr = elim (Bool-cases (has_directory_bit attr)) [
  | inl e ↦ rw e (ground (arith, e), ground (arith, e))
  | inr e ↦ rw e (refl, refl)
]

-- What is left of an entry by an update: its size, its name, the attributes other than that of a
-- directory, and the bytes of its times and of what stands before them.
pub record IsKept (ent ent' : Bytes) : Type 0 where
  pub same_size : length ent' ≡ length ent
  pub same_name : take 11 ent' ≡ take 11 ent
  pub low_attributes : get_or ent' 11 0 % 16 ≡ get_or ent 11 0 % 16
  pub high_attributes : get_or ent' 11 0 / 32 ≡ get_or ent 11 0 / 32
  pub created_and_accessed : slice ent' 12 20 ≡ slice ent 12 20
  pub modified : slice ent' 22 26 ≡ slice ent 22 26

-- An entry of 32 bytes that updateDirEntry changed is read with the new kind, the new first cluster and,
-- for a file, the new size, and with the times it had. Of its bytes, those of the attributes, of the first
-- cluster and of the size alone can differ, and of the attributes only the bit for a directory. The
-- cluster and the size are 32-bit numbers.
pub read_dirent-update_slot :
    (cal : Calendar) (d : Dirent) (ent : Bytes)
    → length ent ≡ 32
    → d.first_cluster < 2 ^ 32
    → d.size < 2 ^ 32
    → (read_dirent cal (update_slot d ent) ≡ record (read_dirent cal ent) {
      is_directory = d.is_directory;
      first_cluster = d.first_cluster;
      size = if d.is_directory then 0 else d.size;
    })
      × IsKept ent (update_slot d ent)
unfolding read_dirent update_slot
read_dirent-update_slot cal d ent l small small' =
    let all : spelled 32 0 ent ≡ ent = rw l at (spelled-all ent) in
    let (low, high) = other_bits d.is_directory (get_or ent 11 0) in
    subst
      (λ t.
        (read_dirent cal (update_slot d t) ≡ record (read_dirent cal t) {
          is_directory = d.is_directory;
          first_cluster = d.first_cluster;
          size = if d.is_directory then 0 else d.size;
        })
        × IsKept t (update_slot d t))
      all
      (
        rw
            (
              join_cluster d.first_cluster small,
              join_size d.size small',
              bit_set d.is_directory (get_or ent 11 0),
            )
            refl,
        record {
          same_size = refl;
          same_name = refl;
          low_attributes = low;
          high_attributes = high;
          created_and_accessed = refl;
          modified = refl;
        },
      )
