-- ===== src/Volume/Fat32/Names/Long.antt =====
-- Long names, written into entries and read from them.
use bas_cpp.Prelude.{
  ℕ, zero, suc, ◌+◌, ◌≤◌, ◌≡◌, refl, sym, ap, ◌∙◌, List, [], ◌∷◌, ◌++◌, append_assoc, append-nil,
  map, arith, length, take, drop, Bytes, All, length-take, drop-all, drop-all,
}
use bas_cpp.Volume.Fat32.Names.{
  lfn_entries, lfn_order, decode_lfn_chunk, chunks_of, reverse_onto, split_lfn_chunks,
  join_reversed,
}
use bas_cpp.Volume.Fat32.Names.Slots.{IsAscii, All-drop, take-all, decode-lfn_entry}

abbrev pub concat : List Bytes → Bytes
concat [] = []
concat (part ∷ parts) = part ++ concat parts

abbrev IsChunk : Bytes → Type 0
IsChunk s = (length s ≤ 13) × All IsAscii s

All-take : (n : ℕ) (s : Bytes) → All IsAscii s → All IsAscii (take n s)
All-take zero s a = tt
All-take (suc n) [] a = tt
All-take (suc n) (c ∷ s) a = (a.0, All-take n s a.1)

chunks_of-IsChunk : (rounds : ℕ) (s : Bytes) → All IsAscii s → All IsChunk (chunks_of rounds s)
unfolding chunks_of
chunks_of-IsChunk zero s a = tt
chunks_of-IsChunk (suc rounds) [] a = tt
chunks_of-IsChunk (suc rounds) (c ∷ s) a =
    let l = length-take 13 (c ∷ s) in
    (
      (omega (arith, l), All-take 13 (c ∷ s) a),
      chunks_of-IsChunk rounds (drop 13 (c ∷ s)) (All-drop 13 (c ∷ s) a),
    )

pub reverse_onto-All :
    (P : Bytes → Type 0) (out xs : List Bytes) → All P out → All P xs → All P (reverse_onto out xs)
unfolding reverse_onto
reverse_onto-All P out [] o h = o
reverse_onto-All P out (x ∷ xs) o h = reverse_onto-All P (x ∷ out) xs (h.0, o) h.1

decode-lfn_entries :
    (checksum i : ℕ) (chunks : List Bytes)
    → All IsChunk chunks
    → map decode_lfn_chunk (lfn_entries checksum i chunks) ≡ chunks
unfolding lfn_entries
decode-lfn_entries checksum i [] h = refl
decode-lfn_entries checksum i (chunk ∷ chunks) ((short, ascii), h) =
    rw
      (
        decode-lfn_entry (lfn_order i) checksum chunk short ascii,
        decode-lfn_entries checksum (i + 1) chunks h,
      )
      refl

map-reverse_onto :
    (f : Bytes → Bytes) (out xs : List Bytes)
    → map f (reverse_onto out xs) ≡ reverse_onto (map f out) (map f xs)
unfolding reverse_onto
map-reverse_onto f out [] = refl
map-reverse_onto f out (x ∷ xs) = map-reverse_onto f (x ∷ out) xs

join_reversed-reverse_onto :
    (out xs : List Bytes) → join_reversed (reverse_onto out xs) ≡ join_reversed out ++ concat xs
unfolding reverse_onto join_reversed
join_reversed-reverse_onto out [] = sym (append-nil (join_reversed out))
join_reversed-reverse_onto out (x ∷ xs) =
    join_reversed-reverse_onto (x ∷ out) xs ∙ append_assoc (join_reversed out) x (concat xs)

-- The entries of a long name in the order of their places: the last chunk that is written has the first.
abbrev pub lfn_on_disk : ℕ → Bytes → List Bytes
lfn_on_disk checksum name = reverse_onto [] (lfn_entries checksum 0 (split_lfn_chunks name))

-- A name cut from its front into pieces of thirteen bytes, with the pieces in the opposite order; `n`
-- pieces are looked at.
abbrev pieces_back : ℕ → Bytes → Bytes
pieces_back zero name = []
pieces_back (suc n) name = pieces_back n (drop 13 name) ++ take 13 name

abbrev pub thirteens_back : Bytes → Bytes
thirteens_back name = pieces_back (length name) name

pieces_back-nil : (n : ℕ) → pieces_back n [] ≡ []
pieces_back-nil zero = refl
pieces_back-nil (suc n) = rw (pieces_back-nil n) refl

pieces_back-short : (n : ℕ) (name : Bytes) → length name ≤ 13 → pieces_back (suc n) name ≡ name
pieces_back-short n name h = rw (drop-all 13 name h, pieces_back-nil n) (take-all 13 name h)

thirteens_back-short : (name : Bytes) → length name ≤ 13 → thirteens_back name ≡ name
thirteens_back-short [] h = refl
thirteens_back-short (c ∷ s) h = pieces_back-short (length s) (c ∷ s) h

concat-chunks_of :
    (n : ℕ) (name : Bytes) (out : List Bytes)
    → concat (reverse_onto out (chunks_of n name)) ≡ pieces_back n name ++ concat out
unfolding chunks_of reverse_onto
concat-chunks_of zero name out = refl
concat-chunks_of (suc n) [] out = rw (pieces_back-nil n) refl
concat-chunks_of (suc n) (c ∷ s) out =
    let name = c ∷ s in
    concat-chunks_of n (drop 13 name) (take 13 name ∷ out)
    ∙ sym (append_assoc (pieces_back n (drop 13 name)) (take 13 name) (concat out))

concat-split_lfn_chunks : (name : Bytes) → concat (split_lfn_chunks name) ≡ thirteens_back name
unfolding split_lfn_chunks
concat-split_lfn_chunks name =
    concat-chunks_of (length name) name [] ∙ append-nil (thirteens_back name)

split_lfn_chunks-IsChunk : (name : Bytes) → All IsAscii name → All IsChunk (split_lfn_chunks name)
unfolding split_lfn_chunks
split_lfn_chunks-IsChunk name a =
    reverse_onto-All IsChunk [] (chunks_of (length name) name) tt
      (chunks_of-IsChunk (length name) name a)

-- A long name of seven-bit characters other than zero, written by writeLFNEntries and read in the way that
-- parseDirectoryCluster does, comes back with its pieces of thirteen characters, counted from its front,
-- in the opposite order. So it comes back as it was where it has at most thirteen characters.
pub lfn_on_disk-read :
    (checksum : ℕ) (name : Bytes)
    → All IsAscii name
    → (join_reversed (map decode_lfn_chunk (lfn_on_disk checksum name)) ≡ thirteens_back name)
      × (length name ≤ 13 → join_reversed (map decode_lfn_chunk (lfn_on_disk checksum name)) ≡ name)
unfolding join_reversed
lfn_on_disk-read checksum name a =
    let chunks = split_lfn_chunks name in
    let read =
      map-reverse_onto decode_lfn_chunk [] (lfn_entries checksum 0 chunks)
      ∙ ap (λ t. reverse_onto [] t)
          (decode-lfn_entries checksum 0 chunks (split_lfn_chunks-IsChunk name a)) in
    let joined = ap join_reversed read ∙ join_reversed-reverse_onto [] chunks in
    let back = joined ∙ concat-split_lfn_chunks name in
    (back, λ short. back ∙ thirteens_back-short name short)
