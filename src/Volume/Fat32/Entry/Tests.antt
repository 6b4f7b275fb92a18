-- ===== src/Volume/Fat32/Entry/Tests.antt =====
-- Entries with concrete fields.
use bas_cpp.Prelude.{
  ◌≡◌, refl, false, [], ◌∷◌, ◌++◌, arith, codes, split_last, split_here, to_upper,
}
use bas_cpp.Volume.Fat32.Dates.Tests.{one_day}
use bas_cpp.Volume.Fat32.Names.{
  is_dot_entry, short_name_field, base_and_extension, extension_at, padded,
}
use bas_cpp.Volume.Fat32.Names.Long.{thirteens_back, lfn_on_disk}
use bas_cpp.Volume.Fat32.Names.Tests.{fourteen, text-IsAscii}
use bas_cpp.Volume.Fat32.Entry.{Dirent, write_dir_entry, put_child, read_slots}
use bas_cpp.Volume.Fat32.Entry.Fields.{kept_entry}
use bas_cpp.Volume.Fat32.Entry.Listing.{read_slots-written}

abbrev a_file : Dirent
a_file = record {
  is_directory = false;
  first_cluster = 65539;
  size = 70000;
  atime = 0;
  mtime = 66659;
  creation_time = 7;
}

read_slots-written_example :
    read_slots one_day
      (record { parts = []; children = [] })
      (lfn_on_disk 7 fourteen ++ write_dir_entry one_day (codes "a.t") a_file ∷ [])
    ≡ read_slots one_day
        (record {
          parts = [];
          children = put_child (thirteens_back fourteen) (kept_entry one_day a_file) [];
        })
        []
unfolding is_dot_entry short_name_field base_and_extension extension_at padded split_last split_here
    to_upper
read_slots-written_example =
    read_slots-written one_day 7 fourteen (codes "a.t") a_file [] [] (text-IsAscii fourteen refl)
      (omega arith) refl (omega arith, omega arith) (omega arith) (omega arith)
