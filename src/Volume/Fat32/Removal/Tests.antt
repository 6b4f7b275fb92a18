-- ===== src/Volume/Fat32/Removal/Tests.antt =====
-- An entry that is updated, and one that is removed.
use bas_cpp.Prelude.{
  ◌+◌, ℕ, zero, suc, ◌≡◌, refl, true, [], ◌∷◌, ◌++◌, arith, if◌then◌else◌, Bytes, codes,
  split_first, split_last, split_here, to_upper,
}
use bas_cpp.Volume.Fat32.Dates.Tests.{one_day}
use bas_cpp.Volume.Fat32.Names.{short_name_field, base_and_extension, extension_at, padded}
use bas_cpp.Volume.Fat32.Entry.{Dirent, read_dirent, read_slots}
use bas_cpp.Volume.Fat32.Directory.{slots_of}
use bas_cpp.Volume.Fat32.Removal.{update_slot, mark_slot, fat_name}
use bas_cpp.Volume.Fat32.Removal.Update.{IsKept, read_dirent-update_slot}
use bas_cpp.Volume.Fat32.Removal.Listing.{EndsName, read_slots-mark_slot}

abbrev blanks : ℕ → Bytes
blanks zero = []
blanks (suc n) = 0 ∷ blanks n

-- A slot of a long name, and a short one.
abbrev long_slot : Bytes
long_slot = 65 ∷ (blanks 10 ++ (15 ∷ blanks 20))

abbrev short_slot : Bytes
short_slot = 65 ∷ (blanks 10 ++ (32 ∷ blanks 20))

abbrev a_directory : Dirent
a_directory = record {
  is_directory = true;
  first_cluster = 9;
  size = 0;
  atime = 0;
  mtime = 0;
  creation_time = 0;
}

read_dirent-update_slot_example :
    (read_dirent one_day (update_slot a_directory short_slot)
      ≡ record (read_dirent one_day short_slot) {
        is_directory = true;
        first_cluster = 9;
        size = if true then 0 else 0;
      })
    × IsKept short_slot (update_slot a_directory short_slot)
read_dirent-update_slot_example =
    read_dirent-update_slot one_day a_directory short_slot refl (omega arith) (omega arith)

read_slots-mark_slot_example :
    read_slots one_day
      (record { parts = []; children = [] })
      (slots_of 2 (mark_slot (long_slot ++ short_slot) (0 + 1)).0)
    ≡ read_slots one_day (record { parts = []; children = [] }) []
unfolding slots_of EndsName
read_slots-mark_slot_example =
    read_slots-mark_slot one_day 2 (long_slot ++ short_slot) short_slot [] (long_slot ∷ []) [] []
      refl (omega arith) (refl, tt) (omega arith) tt

-- The name that the search looks for is not the one that was written, where a name has two dots.
two_dots_apart :
    (fat_name (codes "a.b.c") ≡ codes "A       B.C")
    × (short_name_field (codes "a.b.c") ≡ codes "A.B     C  ")
unfolding fat_name short_name_field base_and_extension extension_at split_first split_last
    split_here padded to_upper
two_dots_apart = (refl, refl)
