-- ===== src/Volume/Fat32/Names/Slots.antt =====
-- One entry of a long name: the places of its characters, and the chunk that is read from it.
use bas_cpp.Prelude.{
  ℕ, zero, suc, ◌+◌, ◌*◌, ◌/◌, ◌%◌, ◌^◌, ◌≤◌, ◌<◌, ◌≡◌, refl, sym, ap, ◌∙◌, Bool, true, false, ◌||◌,
  [], ◌∷◌, ◌++◌, append_assoc, arith, ◌==◌, leb, length, get_or, take, drop, Bytes, All,
  get_or-append_left, get_or-append_right, get_or-take, get_or-drop, length-take, length-drop,
  take-append-drop, drop-drop,
}
use bas_cpp.Volume.Fat32.Names.{
  read_le16, lfn_chars, lfn_slot, lfn_entry, decode_range, decode_lfn_chunk,
}

-- A character of seven bits that is not zero.
abbrev pub IsAscii : ℕ → Type 0
IsAscii c = (0 < c) × (c < 128)

-- The character at a place of an entry: that of the name, the zero behind it, or 0xFFFF.
abbrev unit_at : Bool → Bytes → ℕ → ℕ
unit_at true [] zero = 65535
unit_at false [] zero = 0
unit_at ended [] (suc k) = 65535
unit_at ended (c ∷ s) zero = c
unit_at ended (c ∷ s) (suc k) = unit_at ended s k

pub length-lfn_chars : (n : ℕ) (ended : Bool) (s : Bytes) → length (lfn_chars n ended s) ≡ n * 2
unfolding lfn_chars
length-lfn_chars zero ended s = omega arith
length-lfn_chars (suc n) ended (c ∷ s) = let ih = length-lfn_chars n ended s in omega (arith, ih)
length-lfn_chars (suc n) false [] = let ih = length-lfn_chars n true [] in omega (arith, ih)
length-lfn_chars (suc n) true [] = let ih = length-lfn_chars n true [] in omega (arith, ih)

read_le16-shift :
    (a b : ℕ) (xs : Bytes) (k : ℕ) → read_le16 (a ∷ b ∷ xs) (suc k * 2) ≡ read_le16 xs (k * 2)
read_le16-shift a b xs k =
    let at : suc k * 2 ≡ suc (suc (k * 2)) = omega arith in
    let at' : suc k * 2 + 1 ≡ suc (suc (k * 2 + 1)) = omega arith in rw (at', at) refl

read_le16-lfn_chars :
    (n k : ℕ) (ended : Bool) (s : Bytes)
    → k < n
    → All IsAscii s
    → read_le16 (lfn_chars n ended s) (k * 2) ≡ unit_at ended s k
unfolding lfn_chars
read_le16-lfn_chars zero k ended s h a = absurd (omega (arith, h))
read_le16-lfn_chars (suc n) zero ended (c ∷ s) h a = let (_, small) = a.0 in omega (arith, small)
read_le16-lfn_chars (suc n) (suc k) ended (c ∷ s) h a =
    read_le16-shift (c % 2 ^ 8) ((c / 2 ^ 8) % 2 ^ 8) (lfn_chars n ended s) k
    ∙ read_le16-lfn_chars n k ended s (omega (arith, h)) a.1
read_le16-lfn_chars (suc n) zero false [] h a = refl
read_le16-lfn_chars (suc n) (suc k) false [] h a =
    read_le16-shift 0 0 (lfn_chars n true []) k
    ∙ read_le16-lfn_chars n k true [] (omega (arith, h)) tt
    ∙ past k
  where
    past : (k : ℕ) → unit_at true [] k ≡ 65535
    past zero = refl
    past (suc k) = refl
read_le16-lfn_chars (suc n) zero true [] h a = refl
read_le16-lfn_chars (suc n) (suc k) true [] h a =
    read_le16-shift 255 255 (lfn_chars n true []) k
    ∙ read_le16-lfn_chars n k true [] (omega (arith, h)) tt
    ∙ past k
  where
    past : (k : ℕ) → unit_at true [] k ≡ 65535
    past zero = refl
    past (suc k) = refl

-- A range whose characters are those of a text reads as the front of the text.
decode_range-units :
    (entry : Bytes) (start n : ℕ) (ended : Bool) (s : Bytes)
    → All IsAscii s
    → ((k : ℕ) → k < n → read_le16 entry (start + k * 2) ≡ unit_at ended s k)
    → decode_range entry start n ≡ take n s
unfolding decode_range
decode_range-units entry start zero ended s a h = refl
decode_range-units entry start (suc n) ended (c ∷ s) (here, a) h =
    let at : start + 0 * 2 ≡ start = omega arith in
    let first : read_le16 entry start ≡ c = rw at at (h 0 (omega arith)) in
    let (some_char, small) = here in
    let zero_char : ((c == 0) || (c == 65535)) ≡ false = ground arith in
    let ascii : leb c 127 ≡ true = ground arith in
    rw (first, zero_char, ascii)
      (ap (λ t. c ∷ t)
        (decode_range-units entry (start + 2) n ended s a (λ k b.
          let next : start + 2 + k * 2 ≡ start + suc k * 2 = omega arith in
          rw next (h (suc k) (omega arith)))))
decode_range-units entry start (suc n) true [] a h =
    let at : start + 0 * 2 ≡ start = omega arith in
    let first : read_le16 entry start ≡ 65535 = rw at at (h 0 (omega arith)) in rw first refl
decode_range-units entry start (suc n) false [] a h =
    let at : start + 0 * 2 ≡ start = omega arith in
    let first : read_le16 entry start ≡ 0 = rw at at (h 0 (omega arith)) in rw first refl

-- Further on in a text, the same characters, with the zero seen or not.
unit_at-drop :
    (i : ℕ) (ended : Bool) (s : Bytes)
    → (ended' : Bool) × ((k : ℕ) → unit_at ended s (i + k) ≡ unit_at ended' (drop i s) k)
unit_at-drop zero ended s = (ended, λ k. let at : 0 + k ≡ k = omega arith in rw at refl)
unit_at-drop (suc i) ended (c ∷ s) =
    let (ended', same) = unit_at-drop i ended s in
    (ended', λ k. let at : suc i + k ≡ suc (i + k) = omega arith in rw at (same k))
unit_at-drop (suc i) ended [] =
    (true, λ k. let at : suc i + k ≡ suc (i + k) = omega arith in rw at (sym (past k)))
  where
    past : (k : ℕ) → unit_at true [] k ≡ 65535
    past zero = refl
    past (suc k) = refl

pub All-drop : (n : ℕ) (s : Bytes) → All IsAscii s → All IsAscii (drop n s)
All-drop zero s a = a
All-drop (suc n) [] a = tt
All-drop (suc n) (c ∷ s) a = All-drop n s a.1

-- Where the characters stand in an entry.
module _ (order checksum : ℕ) (chars : Bytes) (l : length chars ≡ 26) where
  abbrev slot_back : Bytes
  slot_back = 0 ∷ 255 ∷ take 4 (drop 22 chars)

  abbrev slot_middle : Bytes
  slot_middle = 15 ∷ checksum ∷ 255 ∷ (take 12 (drop 10 chars) ++ slot_back)

  slot-first :
      (j : ℕ) → j < 10 → get_or (lfn_slot order checksum chars) (1 + j) 0 ≡ get_or chars j 0
  unfolding lfn_slot
  slot-first j h =
      let n = length-take 10 chars in
      let at : 1 + j ≡ suc j = omega arith in
      rw at (
        get_or-append_left (take 10 chars) slot_middle j (omega (arith, n, l))
        ∙ get_or-take 10 j chars 0 h)

  slot-second :
      (j : ℕ) → j < 12 → get_or (lfn_slot order checksum chars) (14 + j) 0 ≡ get_or chars (10 + j) 0
  unfolding lfn_slot
  slot-second j h =
      let n = length-take 10 chars in
      let n' = length-take 12 (drop 10 chars) in
      let d = length-drop 10 chars in
      let at : 14 + j ≡ suc (13 + j) = omega arith in
      let in_middle : 3 + j ≡ suc (suc (suc j)) = omega arith in
      rw at (
        get_or-append_right (take 10 chars) slot_middle (13 + j) (3 + j) (omega (arith, n, l))
        ∙ rw in_middle (
            get_or-append_left (take 12 (drop 10 chars)) slot_back j (omega (arith, n', d, l))
            ∙ get_or-take 12 j (drop 10 chars) 0 h
            ∙ get_or-drop 10 j chars 0))

  slot-third :
      (j : ℕ) → j < 4 → get_or (lfn_slot order checksum chars) (28 + j) 0 ≡ get_or chars (22 + j) 0
  unfolding lfn_slot
  slot-third j h =
      let n = length-take 10 chars in
      let n' = length-take 12 (drop 10 chars) in
      let d = length-drop 10 chars in
      let at : 28 + j ≡ suc (27 + j) = omega arith in
      let in_middle : 17 + j ≡ suc (suc (suc (14 + j))) = omega arith in
      let in_back : 2 + j ≡ suc (suc j) = omega arith in
      rw at (
        get_or-append_right (take 10 chars) slot_middle (27 + j) (17 + j) (omega (arith, n, l))
        ∙ rw in_middle (
            get_or-append_right (take 12 (drop 10 chars)) slot_back (14 + j) (2 + j)
              (omega (arith, n', d, l))
            ∙ rw in_back (get_or-take 4 j (drop 22 chars) 0 h ∙ get_or-drop 22 j chars 0)))

  pub slot-attribute : get_or (lfn_slot order checksum chars) 11 0 ≡ 15
  unfolding lfn_slot
  slot-attribute =
      let n = length-take 10 chars in
      get_or-append_right (take 10 chars) slot_middle 10 0 (omega (arith, n, l))

  slot-first_word :
      (k : ℕ)
      → k < 5
      → read_le16 (lfn_slot order checksum chars) (1 + k * 2) ≡ read_le16 chars (k * 2)
  slot-first_word k h =
      let high : 1 + k * 2 + 1 ≡ 1 + (k * 2 + 1) = omega arith in
      rw (high, slot-first (k * 2) (omega (arith, h)), slot-first (k * 2 + 1) (omega (arith, h)))
        refl

  slot-second_word :
      (k : ℕ)
      → k < 6
      → read_le16 (lfn_slot order checksum chars) (14 + k * 2) ≡ read_le16 chars ((5 + k) * 2)
  slot-second_word k h =
      let high : 14 + k * 2 + 1 ≡ 14 + (k * 2 + 1) = omega arith in
      let high' : 10 + (k * 2 + 1) ≡ (5 + k) * 2 + 1 = omega arith in
      let low' : 10 + k * 2 ≡ (5 + k) * 2 = omega arith in
      rw
        (
          high,
          slot-second (k * 2) (omega (arith, h)),
          slot-second (k * 2 + 1) (omega (arith, h)),
          high',
          low',
        )
        refl

  slot-third_word :
      (k : ℕ)
      → k < 2
      → read_le16 (lfn_slot order checksum chars) (28 + k * 2) ≡ read_le16 chars ((11 + k) * 2)
  slot-third_word k h =
      let high : 28 + k * 2 + 1 ≡ 28 + (k * 2 + 1) = omega arith in
      let high' : 22 + (k * 2 + 1) ≡ (11 + k) * 2 + 1 = omega arith in
      let low' : 22 + k * 2 ≡ (11 + k) * 2 = omega arith in
      rw
        (
          high,
          slot-third (k * 2) (omega (arith, h)),
          slot-third (k * 2 + 1) (omega (arith, h)),
          high',
          low',
        )
        refl

pub take-all : (n : ℕ) (s : Bytes) → length s ≤ n → take n s ≡ s
take-all zero [] h = refl
take-all zero (c ∷ s) h = absurd (omega (arith, h))
take-all (suc n) [] h = refl
take-all (suc n) (c ∷ s) h = ap (λ t. c ∷ t) (take-all n s (omega (arith, h)))

take-three : (s : Bytes) → length s ≤ 13 → (take 5 s ++ take 6 (drop 5 s)) ++ take 2 (drop 11 s) ≡ s
take-three s h =
    let d = length-drop 11 s in
    append_assoc (take 5 s) (take 6 (drop 5 s)) (take 2 (drop 11 s))
    ∙ ap (λ t. take 5 s ++ (take 6 (drop 5 s) ++ t))
        (take-all 2 (drop 11 s) (omega (arith, d, h)) ∙ sym (drop-drop 5 6 s))
    ∙ ap (λ t. take 5 s ++ t) (take-append-drop 6 (drop 5 s))
    ∙ take-append-drop 5 s

-- A chunk of at most thirteen characters is read slot_back from its entry.
pub decode-lfn_entry :
    (order checksum : ℕ) (s : Bytes)
    → length s ≤ 13
    → All IsAscii s
    → decode_lfn_chunk (lfn_entry order checksum s) ≡ s
unfolding decode_lfn_chunk lfn_entry
decode-lfn_entry order checksum s h a =
    let chars = lfn_chars 13 false s in
    let entry = lfn_slot order checksum chars in
    let l = length-lfn_chars 13 false s in
    let unit = λ (k : ℕ) (b : k < 13). read_le16-lfn_chars 13 k false s b a in
    let (e₂, second) = unit_at-drop 5 false s in
    let (e₃, third) = unit_at-drop 11 false s in
    let first_range : decode_range entry 1 5 ≡ take 5 s =
      decode_range-units entry 1 5 false s a
        (λ k b. slot-first_word order checksum chars l k b ∙ unit k (omega (arith, b))) in
    let second_range : decode_range entry 14 6 ≡ take 6 (drop 5 s) =
      decode_range-units entry 14 6 e₂ (drop 5 s) (All-drop 5 s a) (λ k b.
        slot-second_word order checksum chars l k b ∙ unit (5 + k) (omega (arith, b)) ∙ second k) in
    let third_range : decode_range entry 28 2 ≡ take 2 (drop 11 s) =
      decode_range-units entry 28 2 e₃ (drop 11 s) (All-drop 11 s a) (λ k b.
        slot-third_word order checksum chars l k b ∙ unit (11 + k) (omega (arith, b)) ∙ third k) in
    rw (first_range, second_range, third_range) (take-three s h)
