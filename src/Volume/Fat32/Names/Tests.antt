-- ===== src/Volume/Fat32/Names/Tests.antt =====
-- Names, short and long.
use bas_cpp.Prelude.{
  ◌≡◌, ◌≤◌, refl, Bool, true, ◌&&◌, ltb, All, [], ◌∷◌, ◌++◌, map, arith, length, Bytes, codes,
  to_lower, to_upper, split_last, split_first, split_here,
}
use bas_cpp.Volume.Fat32.Names.{
  trim_spaces, padded, extension_at, base_and_extension, join_extension, shortened,
  create_short_name, short_name_field, decode_short_name, encode_short_name, encode_parts,
  decode_lfn_chunk, decode_range, lfn_entry, lfn_slot, lfn_chars, lfn_entries, lfn_order,
  split_lfn_chunks, chunks_of, reverse_onto, join_reversed,
}
use bas_cpp.Volume.Fat32.Names.Slots.{IsAscii}
use bas_cpp.Volume.Fat32.Names.Long.{thirteens_back, lfn_on_disk, lfn_on_disk-read}
use bas_cpp.Volume.Fat32.Names.Short.{IsShortName, decode_short_name-field}

abbrev readme : Bytes
readme = codes "Readme.TXT"

readme-IsShortName : IsShortName readme
unfolding base_and_extension extension_at split_last split_here trim_spaces
readme-IsShortName = record {
  base_short = omega arith;
  ext_short = omega arith;
  base_trimmed = refl;
  ext_trimmed = refl;
}

decode_short_name-field_example :
    (create_short_name readme ≡ map to_lower readme)
    × (decode_short_name (short_name_field readme ++ 32 ∷ 0 ∷ []) ≡ map to_lower readme)
decode_short_name-field_example = decode_short_name-field readme (32 ∷ 0 ∷ []) readme-IsShortName

-- Of a longer name six bytes are kept.
long_base : create_short_name (codes "Annual Report.docx") ≡ codes "annual~1.doc"
unfolding create_short_name base_and_extension extension_at split_last split_here shortened
    join_extension to_lower
long_base = refl

-- A name of fourteen characters comes back with its last character first.
fourteen_characters :
    join_reversed (map decode_lfn_chunk (lfn_on_disk 0 (codes "abcdefghij.txt")))
    ≡ codes "tabcdefghij.tx"
unfolding join_reversed decode_lfn_chunk decode_range lfn_entry lfn_slot lfn_chars lfn_entries
    lfn_order split_lfn_chunks chunks_of reverse_onto
fourteen_characters = refl

abbrev is_ascii_text : Bytes → Bool
is_ascii_text [] = true
is_ascii_text (c ∷ s) = (ltb 0 c && ltb c 128) && is_ascii_text s

pub text-IsAscii : (s : Bytes) → is_ascii_text s ≡ true → All IsAscii s
text-IsAscii [] h = tt
text-IsAscii (c ∷ s) h =
    ((ground (arith, h), ground (arith, h)), text-IsAscii s (ground (arith, h)))

abbrev pub fourteen : Bytes
fourteen = codes "abcdefghij.txt"

lfn_on_disk-read_example :
    (join_reversed (map decode_lfn_chunk (lfn_on_disk 7 fourteen)) ≡ thirteens_back fourteen)
    × (length fourteen ≤ 13
        → join_reversed (map decode_lfn_chunk (lfn_on_disk 7 fourteen)) ≡ fourteen)
lfn_on_disk-read_example = lfn_on_disk-read 7 fourteen (text-IsAscii fourteen refl)

-- The two splits of a name with two dots: writeDirEntry takes the last dot, encodeShortName the first.
two_dots :
    (short_name_field (codes "a.b.c") ≡ codes "A.B     C  ")
    × (encode_short_name (codes "a.b.c") ≡ codes "A       B.C")
unfolding short_name_field base_and_extension extension_at split_last split_first split_here padded
    to_upper encode_short_name encode_parts
two_dots = (refl, refl)
