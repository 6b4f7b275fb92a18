-- ===== src/Volume/Fat32/Names.antt =====
-- The names of a directory: fat32_utils.cpp, and decodeShortName, decodeLfnChunk, splitLFNChunks,
-- calculateLFNChecksum, createShortName and writeLFNEntries of src/bas/volume/fat32/Fat32Volume.cpp and
-- Fat32Volume_write.cpp.
pub mod Short
pub mod Slots
pub mod Long
pub mod Tests
use bas_cpp.Prelude.{
  ℕ, zero, suc, ◌+◌, ◌-◌, ◌*◌, ◌/◌, ◌%◌, ◌^◌, ◌≡◌, Bool, true, false, ◌&&◌, ◌||◌, Option, none,
  some, List, [], ◌∷◌, ◌++◌, map, if◌then◌else◌, ◌==◌, ltb, leb, is_nil, length, get_or, set, take,
  drop, Bytes, codes, str_eq, to_upper, to_lower, split_first, split_last,
}

-- The bytes of a number of 16 and of 32 bits, the lowest first.
abbrev pub le16 : ℕ → Bytes
le16 v = v % 2 ^ 8 ∷ (v / 2 ^ 8) % 2 ^ 8 ∷ []

-- le16 of fat32_utils.cpp, at a place of the bytes.
abbrev pub read_le16 : Bytes → ℕ → ℕ
read_le16 raw p = get_or raw p 0 + get_or raw (p + 1) 0 * 2 ^ 8

-- trimRight
unfoldable pub trim_spaces : Bytes → Bytes
trim_spaces [] = []
trim_spaces (c ∷ s) =
    let rest = trim_spaces s in if (c == b' ') && is_nil rest then [] else c ∷ rest

-- `(i < s.size()) ? s[i] : ' '` for each `i` below a number.
unfoldable pub padded : ℕ → Bytes → Bytes
padded zero s = []
padded (suc n) [] = b' ' ∷ padded n []
padded (suc n) (c ∷ s) = c ∷ padded n s

-- isDotEntry
unfoldable pub is_dot_entry : Bytes → Bool
is_dot_entry name = str_eq name (codes ".") || str_eq name (codes "..")

-- A name taken apart at its last dot, unless nothing is behind that.
unfoldable pub extension_at : Bytes → Option (Bytes × Bytes) → Bytes × Bytes
extension_at name none = (name, [])
extension_at name (some (base, [])) = (name, [])
extension_at name (some (base, c ∷ ext)) = (base, c ∷ ext)

unfoldable pub base_and_extension : Bytes → Bytes × Bytes
base_and_extension name = extension_at name (split_last b'.' name)

-- The name without its extension, and the two joined by a dot.
unfoldable pub join_extension : Bytes → Bytes → Bytes
join_extension base [] = base
join_extension base (c ∷ ext) = base ++ b'.' ∷ c ∷ ext

unfoldable pub shortened : Bytes → Bytes
shortened base = if ltb 8 (length base) then take 6 base ++ codes "~1" else base

-- createShortName
unfoldable pub create_short_name : Bytes → Bytes
create_short_name long_name =
    let (base, ext) = base_and_extension long_name in
    join_extension (map to_lower (shortened base)) (map to_lower (take 3 ext))

-- The first eleven bytes of writeDirEntry.
unfoldable pub short_name_field : Bytes → Bytes
short_name_field name =
    let (base, ext) = base_and_extension name in
    padded 8 (map to_upper base) ++ padded 3 (map to_upper ext)

-- decodeShortName
unfoldable pub decode_short_name : Bytes → Bytes
decode_short_name entry =
    join_extension (map to_lower (trim_spaces (take 8 entry)))
      (map to_lower (trim_spaces (take 3 (drop 8 entry))))

-- encodeShortName: the eleven bytes that it writes; it splits at the first dot.
encode_parts : Bytes → Option (Bytes × Bytes) → Bytes
encode_parts upper none = padded 8 upper ++ padded 3 []
encode_parts upper (some (base, ext)) = padded 8 base ++ padded 3 ext

pub encode_short_name : Bytes → Bytes
encode_short_name name =
    let upper = map to_upper name in encode_parts upper (split_first b'.' upper)

-- `sum = ((sum & 1) << 7) + (sum >> 1) + c` on a byte.
pub add_to_sum : ℕ → ℕ → ℕ
add_to_sum sum c = (sum % 2 * 2 ^ 7 + sum / 2 + c) % 2 ^ 8

checksum_on : ℕ → Bytes → ℕ
checksum_on sum [] = sum
checksum_on sum (c ∷ s) = checksum_on (add_to_sum sum c) s

-- The padding of Fat32Volume::calculateLFNChecksum, which cuts nothing.
pad_to : ℕ → Bytes → Bytes
pad_to zero s = s
pad_to (suc n) [] = b' ' ∷ pad_to n []
pad_to (suc n) (c ∷ s) = c ∷ pad_to n s

-- Fat32Volume::calculateLFNChecksum
pub calculate_lfn_checksum : Bytes → ℕ
calculate_lfn_checksum short_name = checksum_on 0 (pad_to 11 short_name)

-- checksumShortName and the free calculateLFNChecksum: from the twelfth byte down to the first.
sum_down : ℕ → ℕ → Bytes → ℕ
sum_down sum zero entry = sum
sum_down sum (suc i) entry = sum_down (add_to_sum sum (get_or entry i 0)) i entry

pub checksum_short_name : Bytes → ℕ
checksum_short_name entry = sum_down 0 12 entry

-- The loop of splitLFNChunks, on rounds; as many as there are bytes are enough.
unfoldable pub chunks_of : ℕ → Bytes → List Bytes
chunks_of zero s = []
chunks_of (suc rounds) [] = []
chunks_of (suc rounds) (c ∷ s) = take 13 (c ∷ s) ∷ chunks_of rounds (drop 13 (c ∷ s))

-- std::reverse
unfoldable pub reverse_onto : List Bytes → List Bytes → List Bytes
reverse_onto out [] = out
reverse_onto out (x ∷ xs) = reverse_onto (x ∷ out) xs

-- splitLFNChunks
unfoldable pub split_lfn_chunks : Bytes → List Bytes
split_lfn_chunks long_name = reverse_onto [] (chunks_of (length long_name) long_name)

-- writeChar of writeLFNEntries for each of `n` places, from the `i`-th character on: the character, a
-- zero behind the last one, then 0xFFFF. `ended` tells whether the zero is written.
unfoldable pub lfn_chars : ℕ → Bool → Bytes → Bytes
lfn_chars zero ended chunk = []
lfn_chars (suc n) ended (c ∷ chunk) = c % 2 ^ 8 ∷ (c / 2 ^ 8) % 2 ^ 8 ∷ lfn_chars n ended chunk
lfn_chars (suc n) false [] = 0 ∷ 0 ∷ lfn_chars n true []
lfn_chars (suc n) true [] = 255 ∷ 255 ∷ lfn_chars n true []

-- The layout of an entry of a long name: five characters, six and two.
unfoldable pub lfn_slot : ℕ → ℕ → Bytes → Bytes
lfn_slot order checksum chars =
    order
    ∷ (take 10 chars
        ++ (15 ∷ checksum ∷ 255 ∷ (take 12 (drop 10 chars) ++ (0 ∷ 255 ∷ take 4 (drop 22 chars)))))

-- The entry that writeLFNEntries makes of a chunk.
unfoldable pub lfn_entry : ℕ → ℕ → Bytes → Bytes
lfn_entry order checksum chunk = lfn_slot order checksum (lfn_chars 13 false chunk)

-- encodeLfnEntry, which writes no zero behind the name.
pub encode_lfn_entry : Bytes → ℕ → Bytes
encode_lfn_entry name order = lfn_slot order 255 (lfn_chars 13 true name)

-- The order byte of the `i`-th chunk.
unfoldable pub lfn_order : ℕ → ℕ
lfn_order zero = 65
lfn_order (suc i) = (suc i + 1) % 2 ^ 8

-- The entries that writeLFNEntries makes of the chunks from the `i`-th on.
unfoldable pub lfn_entries : ℕ → ℕ → List Bytes → List Bytes
lfn_entries checksum i [] = []
lfn_entries checksum i (chunk ∷ chunks) =
    lfn_entry (lfn_order i) checksum chunk ∷ lfn_entries checksum (i + 1) chunks

-- appendRange of decodeLfnChunk
unfoldable pub decode_range : Bytes → ℕ → ℕ → Bytes
decode_range entry start zero = []
decode_range entry start (suc n) =
    let ch = read_le16 entry start in
    let rest = decode_range entry (start + 2) n in
    if (ch == 0) || (ch == 65535) then [] else (if leb ch 127 then ch else b'?') ∷ rest

-- decodeLfnChunk
unfoldable pub decode_lfn_chunk : Bytes → Bytes
decode_lfn_chunk entry =
    decode_range entry 1 5 ++ decode_range entry 14 6 ++ decode_range entry 28 2

-- `for (it = lfnParts.rbegin(); …) name += *it`
unfoldable pub join_reversed : List Bytes → Bytes
join_reversed [] = []
join_reversed (part ∷ parts) = join_reversed parts ++ part
