-- ===== src/Volume/Fat32/Entry/Listing.antt =====
-- A file whose entries were written is listed: its long name in some slots, and its short one behind them.
use bas_cpp.Prelude.{
  ℕ, zero, suc, ◌+◌, ◌*◌, ◌^◌, ◌≤◌, ◌<◌, ◌≡◌, ◌≢◌, refl, sym, ap, ◌∙◌, Bool, true, false, ◌||◌,
  some, List, [], ◌∷◌, ◌++◌, append_assoc, append-nil, map, arith, if◌then◌else◌, ◌==◌, leb-cases,
  inl, inr, is_nil, length, get_or, drop, Bytes, All, length-drop, get_or-append_left,
}
use bas_cpp.Volume.Fat32.Dates.{Calendar}
use bas_cpp.Volume.Fat32.Names.{
  lfn_chars, lfn_slot, lfn_entry, lfn_entries, lfn_order, decode_lfn_chunk, chunks_of, reverse_onto,
  split_lfn_chunks, join_reversed, is_dot_entry, short_name_field,
}
use bas_cpp.Volume.Fat32.Names.Slots.{IsAscii, length-lfn_chars, slot-attribute}
use bas_cpp.Volume.Fat32.Names.Long.{
  thirteens_back, lfn_on_disk, lfn_on_disk-read, reverse_onto-All,
}
use bas_cpp.Volume.Fat32.Entry.{
  Dirent, entry_tail, write_dir_entry, put_child, Reading, slot_name, add_entry, read_slot,
  read_on_slots, read_slots, has_label_bit,
}
use bas_cpp.Volume.Fat32.Entry.Fields.{
  tail_at, length-short_name_field, kept_entry, read_dirent-write_dir_entry,
}

-- A slot that holds a part of a long name.
abbrev IsLfnSlot : Bytes → Type 0
IsLfnSlot ent = (get_or ent 0 0 ≢ 0) × (get_or ent 0 0 ≢ 229) × (get_or ent 11 0 ≡ 15)

lfn_entry-IsLfnSlot :
    (order checksum : ℕ) (chunk : Bytes)
    → 0 < order
    → order < 229
    → IsLfnSlot (lfn_entry order checksum chunk)
unfolding lfn_entry
lfn_entry-IsLfnSlot order checksum chunk some_order small =
    let chars = lfn_chars 13 false chunk in
    let first : get_or (lfn_slot order checksum chars) 0 0 ≡ order = unfold lfn_slot in refl in
    (
      omega (arith, first, some_order),
      omega (arith, first, small),
      slot-attribute order checksum chars (length-lfn_chars 13 false chunk),
    )

lfn_order-bounds : (i : ℕ) → i < 228 → (0 < lfn_order i) × (lfn_order i < 229)
unfolding lfn_order
lfn_order-bounds zero h = (omega arith, omega arith)
lfn_order-bounds (suc i) h = (omega (arith, h), omega (arith, h))

lfn_entries-IsLfnSlot :
    (checksum i : ℕ) (chunks : List Bytes)
    → i + length chunks ≤ 228
    → All IsLfnSlot (lfn_entries checksum i chunks)
unfolding lfn_entries
lfn_entries-IsLfnSlot checksum i [] h = tt
lfn_entries-IsLfnSlot checksum i (chunk ∷ chunks) h =
    let (some_order, small) = lfn_order-bounds i (omega (arith, h)) in
    (
      lfn_entry-IsLfnSlot (lfn_order i) checksum chunk some_order small,
      lfn_entries-IsLfnSlot checksum (i + 1) chunks (omega (arith, h)),
    )

length-chunks_of : (rounds : ℕ) (s : Bytes) → length (chunks_of rounds s) * 13 ≤ length s + 12
unfolding chunks_of
length-chunks_of zero s = omega arith
length-chunks_of (suc rounds) [] = omega arith
length-chunks_of (suc rounds) (c ∷ s) =
    let ih = length-chunks_of rounds (drop 13 (c ∷ s)) in
    let d = length-drop 13 (c ∷ s) in
    elim (leb-cases 13 (length (c ∷ s))) [
      | inl h ↦ omega (arith, ih, d, h)
      | inr h ↦ last_chunk rounds (drop 13 (c ∷ s)) (omega (arith, d, h))
    ]
  where
    last_chunk :
        (rounds : ℕ) (t : Bytes)
        → length t ≡ 0
        → suc (length (chunks_of rounds t)) * 13 ≤ suc (length s) + 12
    last_chunk zero t e = omega arith
    last_chunk (suc rounds) [] e = omega arith
    last_chunk (suc rounds) (x ∷ t) e = absurd (omega (arith, e))

length-reverse_onto : (out xs : List Bytes) → length (reverse_onto out xs) ≡ length out + length xs
unfolding reverse_onto
length-reverse_onto out [] = omega arith
length-reverse_onto out (x ∷ xs) = let ih = length-reverse_onto (x ∷ out) xs in omega (arith, ih)

lfn_on_disk-IsLfnSlot :
    (checksum : ℕ) (name : Bytes) → length name ≤ 255 → All IsLfnSlot (lfn_on_disk checksum name)
unfolding split_lfn_chunks
lfn_on_disk-IsLfnSlot checksum name h =
    let chunks = chunks_of (length name) name in
    let few = length-chunks_of (length name) name in
    let l = length-reverse_onto [] chunks in
    reverse_onto-All IsLfnSlot [] (lfn_entries checksum 0 (reverse_onto [] chunks)) tt
      (lfn_entries-IsLfnSlot checksum 0 (reverse_onto [] chunks) (omega (arith, few, l, h)))

module _ (cal : Calendar) where
  read_slot-lfn :
      (r : Reading) (ent : Bytes)
      → IsLfnSlot ent
      → read_slot cal r ent ≡ some (record r { parts = r.parts ++ decode_lfn_chunk ent ∷ [] })
  unfolding read_slot
  read_slot-lfn r ent (nonzero, live, attr) =
      let e₁ : (get_or ent 0 0 == 0) ≡ false = ground arith in
      let e₂ : (get_or ent 0 0 == 229) ≡ false = ground arith in rw (e₁, e₂, attr) refl

  -- Slots of a long name, one after the other.
  read_slots-lfn :
      (r : Reading) (slots rest : List Bytes)
      → All IsLfnSlot slots
      → read_slots cal r (slots ++ rest)
        ≡ read_slots cal (record r { parts = r.parts ++ map decode_lfn_chunk slots }) rest
  unfolding read_slots read_on_slots
  read_slots-lfn r [] rest h =
      ap (λ t. read_slots cal (record r { parts = t }) rest) (sym (append-nil r.parts))
  read_slots-lfn r (ent ∷ slots) rest (h, more) = rw (read_slot-lfn r ent h) (
      read_slots-lfn (record r { parts = r.parts ++ decode_lfn_chunk ent ∷ [] }) slots rest more
      ∙ ap (λ t. read_slots cal (record r { parts = t }) rest)
          (append_assoc r.parts (decode_lfn_chunk ent ∷ []) (map decode_lfn_chunk slots)))

  slot_name-long :
      (parts : List Bytes) (ent : Bytes)
      → join_reversed parts ≢ []
      → slot_name parts ent ≡ join_reversed parts
  unfolding join_reversed
  slot_name-long [] ent h = absurd (h refl)
  slot_name-long (part ∷ parts) ent h = refl

  -- The short entry behind the slots of a long name.
  read_slots-short :
      (r : Reading) (short name : Bytes) (d : Dirent) (rest : List Bytes)
      → join_reversed r.parts ≡ name
      → (is_nil name || is_dot_entry name) ≡ false
      → (get_or (short_name_field short) 0 0 ≢ 0) × (get_or (short_name_field short) 0 0 ≢ 229)
      → d.first_cluster < 2 ^ 32
      → d.size < 2 ^ 32
      → read_slots cal r (write_dir_entry cal short d ∷ rest)
        ≡ read_slots cal
            (record { parts = []; children = put_child name (kept_entry cal d) r.children })
            rest
  unfolding read_slots read_on_slots read_slot add_entry
  read_slots-short r short name d rest joined named (nonzero, live) small small' =
      let ent = write_dir_entry cal short d in
      let l = length-short_name_field short in
      let first : get_or ent 0 0 ≡ get_or (short_name_field short) 0 0 =
        unfold write_dir_entry in
        get_or-append_left (short_name_field short) (entry_tail cal d) 0 (omega (arith, l)) in
      let e₁ : (get_or ent 0 0 == 0) ≡ false = rw first (ground arith) in
      let e₂ : (get_or ent 0 0 == 229) ≡ false = rw first (ground arith) in
      let (plain, unlabelled) =
        attribute d.is_directory (get_or ent 11 0)
          (tail_at cal short d 11 0 (omega arith) ∙ unfold entry_tail in refl) in
      let long = slot_name-long r.parts ent (λ e. not_nil name named (sym joined ∙ e)) ∙ joined in
      rw
        (
          e₁,
          e₂,
          plain,
          unlabelled,
          long,
          named,
          read_dirent-write_dir_entry cal short d small small',
        )
        refl
    where
      not_nil : (name : Bytes) → (is_nil name || is_dot_entry name) ≡ false → name ≢ []
      not_nil [] h e = cc
      not_nil (c ∷ s) h e = cc

      attribute :
          (b : Bool) (attr : ℕ)
          → attr ≡ (if b then 16 else 32)
          → ((attr == 15) ≡ false) × (has_label_bit attr ≡ false)
      attribute true attr e = rw e (refl, refl)
      attribute false attr e = rw e (refl, refl)

-- A file that writeLFNEntries and writeDirEntry wrote into slots one after the other is read by the loop
-- of parseDirectoryCluster as one child, with the fields of the entry: under the name with its pieces of
-- thirteen characters in the opposite order, which up to thirteen characters is the name itself. The long name has seven-bit
-- characters other than zero, at most 255; what is read of it is not empty nor `.` nor `..`; the short
-- name does not begin with a byte that marks a free slot.
pub read_slots-written :
    (cal : Calendar) (checksum : ℕ) (name short : Bytes) (d : Dirent) (rest : List Bytes)
    (children : List (Bytes × Dirent))
    → All IsAscii name
    → length name ≤ 255
    → (is_nil (thirteens_back name) || is_dot_entry (thirteens_back name)) ≡ false
    → (get_or (short_name_field short) 0 0 ≢ 0) × (get_or (short_name_field short) 0 0 ≢ 229)
    → d.first_cluster < 2 ^ 32
    → d.size < 2 ^ 32
    → read_slots cal
        (record { parts = []; children = children })
        (lfn_on_disk checksum name ++ write_dir_entry cal short d ∷ rest)
      ≡ read_slots cal
          (record {
            parts = [];
            children = put_child (thirteens_back name) (kept_entry cal d) children;
          })
          rest
read_slots-written cal checksum name short d rest children ascii few named live small small' =
    let slots = lfn_on_disk checksum name in
    let start : Reading = record { parts = []; children = children } in
    read_slots-lfn cal start slots (write_dir_entry cal short d ∷ rest)
      (lfn_on_disk-IsLfnSlot checksum name few)
    ∙ read_slots-short cal (record start { parts = map decode_lfn_chunk slots }) short
        (thirteens_back name) d rest (lfn_on_disk-read checksum name ascii).0 named live small
        small'
