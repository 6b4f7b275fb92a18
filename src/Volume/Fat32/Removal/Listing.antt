-- ===== src/Volume/Fat32/Removal/Listing.antt =====
-- A listing after markDirectoryEntryAsDeleted: the removed file is not in it, and all others are.
use bas_cpp.Prelude.{
  ℕ, suc, ◌+◌, ◌<◌, ◌≡◌, ◌≢◌, inl, inr, refl, sym, ap, subst, ◌∙◌, false, ◌||◌, Option, none, some,
  List, [], ◌∷◌, ◌++◌, map, append_assoc, arith, ◌==◌, Bool-cases, length, length-append, get_or,
  set, is_nil, Bytes, All, All-map,
}
use bas_cpp.Volume.Fat32.Dates.{Calendar}
use bas_cpp.Volume.Fat32.Names.Long.{reverse_onto-All}
use bas_cpp.Volume.Fat32.Names.{reverse_onto, is_dot_entry}
use bas_cpp.Volume.Fat32.Entry.{
  Dirent, Reading, read_slot, read_on_slots, read_slots, add_entry, slot_name, has_label_bit,
}
use bas_cpp.Volume.Fat32.Directory.{slots_of}
use bas_cpp.Volume.Fat32.Removal.{mark_slot}
use bas_cpp.Volume.Fat32.Removal.Marks.{
  deleted, delete_at, attribute, mark_slots_back, slots_of-mark_slot,
}

module _ {A : Type 0} where
  get_or-append_at :
      (xs ys : List A) (k : ℕ) (d : A) → get_or (xs ++ ys) (length xs + k) d ≡ get_or ys k d
  get_or-append_at [] ys k d = let at : 0 + k ≡ k = omega arith in rw at refl
  get_or-append_at (x ∷ xs) ys k d =
      let at : suc (length xs) + k ≡ suc (length xs + k) = omega arith in
      rw at (get_or-append_at xs ys k d)

  set-append_at :
      (xs ys : List A) (k : ℕ) (v : A) → set (xs ++ ys) (length xs + k) v ≡ xs ++ set ys k v
  set-append_at [] ys k v = let at : 0 + k ≡ k = omega arith in rw at refl
  set-append_at (x ∷ xs) ys k v =
      let at : suc (length xs) + k ≡ suc (length xs + k) = omega arith in
      rw at (ap (λ t. x ∷ t) (set-append_at xs ys k v))

reverse_onto-append : (out xs : List Bytes) → reverse_onto out xs ≡ reverse_onto [] xs ++ out
unfolding reverse_onto
reverse_onto-append out [] = refl
reverse_onto-append out (x ∷ xs) =
    reverse_onto-append (x ∷ out) xs
    ∙ sym (append_assoc (reverse_onto [] xs) (x ∷ []) out)
    ∙ ap (λ t. t ++ out) (sym (reverse_onto-append (x ∷ []) xs))

length-reverse : (xs : List Bytes) → length (reverse_onto [] xs) ≡ length xs
unfolding reverse_onto
length-reverse [] = refl
length-reverse (x ∷ xs) =
    ap length (reverse_onto-append (x ∷ []) xs)
    ∙ length-append (reverse_onto [] xs) (x ∷ [])
    ∙ (let ih = length-reverse xs in omega (arith, ih))

reverse_onto-reverse :
    (out front xs : List Bytes)
    → reverse_onto out (reverse_onto front xs) ≡ reverse_onto (xs ++ out) front
unfolding reverse_onto
reverse_onto-reverse out front [] = refl
reverse_onto-reverse out front (x ∷ xs) = reverse_onto-reverse out (x ∷ front) xs

reverse_onto-back : (out xs : List Bytes) → reverse_onto out (reverse_onto [] xs) ≡ xs ++ out
unfolding reverse_onto
reverse_onto-back out xs = reverse_onto-reverse out [] xs

-- The last slot is not part of a long name.
unfoldable pub EndsName : List Bytes → Type 0
EndsName [] = Unit
EndsName (ent ∷ []) = attribute ent ≢ 15
EndsName (ent ∷ next ∷ slots) = EndsName (next ∷ slots)

module _ (pre : List Bytes) where
  -- `pre` with more slots behind it, the nearest to the end first.
  abbrev behind : List Bytes → List Bytes → List Bytes
  behind rest ls = pre ++ reverse_onto rest ls

  get_or-behind :
      (rest ls : List Bytes)
      → get_or (behind rest ls) (length pre + length ls) [] ≡ get_or rest 0 []
  get_or-behind rest ls =
      let n = length-reverse ls in
      let at : length pre + length ls ≡ length pre + (length (reverse_onto [] ls) + 0) =
        omega (arith, n) in
      rw at (
        get_or-append_at pre (reverse_onto rest ls) (length (reverse_onto [] ls) + 0) []
        ∙ ap (λ t. get_or t (length (reverse_onto [] ls) + 0) []) (reverse_onto-append rest ls)
        ∙ get_or-append_at (reverse_onto [] ls) rest 0 [])

  set-behind :
      (ent next : Bytes) (rest ls : List Bytes)
      → set (behind (ent ∷ rest) ls) (length pre + length ls) next ≡ behind (next ∷ rest) ls
  set-behind ent next rest ls =
      let n = length-reverse ls in
      let at : length pre + length ls ≡ length pre + (length (reverse_onto [] ls) + 0) =
        omega (arith, n) in
      rw at (
        set-append_at pre (reverse_onto (ent ∷ rest) ls) (length (reverse_onto [] ls) + 0) next
        ∙ ap (λ t. pre ++ t)
            (ap (λ t. set t (length (reverse_onto [] ls) + 0) next)
                (reverse_onto-append (ent ∷ rest) ls)
              ∙ set-append_at (reverse_onto [] ls) (ent ∷ rest) 0 next
              ∙ sym (reverse_onto-append (next ∷ rest) ls)))

  delete_at-behind :
      (ent : Bytes) (rest ls : List Bytes)
      → delete_at (behind (ent ∷ rest) ls) (length pre + length ls) ≡ behind (deleted ent ∷ rest) ls
  delete_at-behind ent rest ls =
      rw (get_or-behind (ent ∷ rest) ls) (set-behind ent (deleted ent) rest ls)

module _ (pre : List Bytes) where
  -- The loop back stops at the slots of `pre`.
  stops_before :
      (pre rest : List Bytes)
      → EndsName pre
      → mark_slots_back (pre ++ rest) (length pre) ≡ pre ++ rest
  stops_before [] rest h = refl
  stops_before (ent ∷ pre) rest h = stop ent pre h
    where
      stop :
          (ent : Bytes) (pre : List Bytes)
          → EndsName (ent ∷ pre)
          → mark_slots_back (ent ∷ (pre ++ rest)) (suc (length pre)) ≡ ent ∷ (pre ++ rest)
      stop ent pre h =
          let last = last_attribute ent pre h in
          let e : (attribute (get_or (ent ∷ (pre ++ rest)) (length pre) []) == 15) ≡ false =
            ground (arith, last) in
          rw e refl
        where
          last_attribute :
              (ent : Bytes) (pre : List Bytes)
              → EndsName (ent ∷ pre)
              → attribute (get_or (ent ∷ (pre ++ rest)) (length pre) []) ≢ 15
          last_attribute ent [] h = unfold EndsName in h
          last_attribute ent (next ∷ pre) h = last_attribute next pre (unfold EndsName in h)

  mark_slots_back-behind :
      (rest ls : List Bytes)
      → EndsName pre
      → All (λ ent. attribute ent ≡ 15) ls
      → mark_slots_back (behind pre rest ls) (length pre + length ls)
        ≡ behind pre rest (map deleted ls)
  unfolding reverse_onto
  mark_slots_back-behind rest [] h a =
      let at : length pre + 0 ≡ length pre = omega arith in rw at (stops_before pre rest h)
  mark_slots_back-behind rest (ent ∷ ls) h (attr, a) =
      let at : length pre + suc (length ls) ≡ suc (length pre + length ls) = omega arith in
      rw (at, get_or-behind pre (ent ∷ rest) ls, attr)
        (ap (λ t. mark_slots_back t (length pre + length ls))
            (set-behind pre ent (deleted ent) rest ls)
          ∙ mark_slots_back-behind (deleted ent ∷ rest) ls h a)

module _ (cal : Calendar) where
  -- A slot that is not part of a long name leaves no part behind.
  NoParts : Option Reading → Type 0
  NoParts none = Unit
  NoParts (some r) = r.parts ≡ []

  add_entry-NoParts : (r : Reading) (ent : Bytes) → (add_entry cal r ent).parts ≡ []
  unfolding add_entry
  add_entry-NoParts r ent =
      elim (Bool-cases (is_nil (slot_name r.parts ent) || is_dot_entry (slot_name r.parts ent))) [
        | inl e ↦ rw e refl
        | inr e ↦ rw e refl
      ]

  read_slot-NoParts :
      (r : Reading) (ent : Bytes) → attribute ent ≢ 15 → NoParts (read_slot cal r ent)
  unfolding read_slot NoParts
  read_slot-NoParts r ent h =
      let no_name : (attribute ent == 15) ≡ false = ground (arith, h) in
      elim (Bool-cases (get_or ent 0 0 == 0)) [
        | inl z ↦ rw z tt
        | inr nz ↦ elim (Bool-cases (get_or ent 0 0 == 229)) [
          | inl d ↦ rw (nz, d) refl
          | inr nd ↦ elim (Bool-cases (has_label_bit (attribute ent))) [
            | inl l ↦ rw (nz, nd, no_name, l) refl
            | inr nl ↦ rw (nz, nd, no_name, nl) (add_entry-NoParts r ent)
          ]
        ]
      ]

  -- What is read behind slots depends on what is read behind no parts.
  read_slots-same :
      (pre xs ys : List Bytes) (r : Reading)
      → EndsName pre
      → (pre ≡ [] → r.parts ≡ [])
      → ((r' : Reading) → r'.parts ≡ [] → read_slots cal r' xs ≡ read_slots cal r' ys)
      → read_slots cal r (pre ++ xs) ≡ read_slots cal r (pre ++ ys)
  unfolding read_slots read_on_slots
  read_slots-same [] xs ys r h none_left same = same r (none_left refl)
  read_slots-same (ent ∷ pre) xs ys r h none_left same =
      on (read_slot cal r ent) refl (λ r' h' nil. read_slots-same pre xs ys r' h' nil same)
    where
      parts :
          (pre : List Bytes) (r' : Reading)
          → EndsName (ent ∷ pre)
          → read_slot cal r ent ≡ some r'
          → (EndsName pre) × (pre ≡ [] → r'.parts ≡ [])
      parts [] r' h e = (
        unfold EndsName in tt,
        λ _. (unfold NoParts in subst NoParts e (read_slot-NoParts r ent (unfold EndsName in h))),
      )
      parts (next ∷ pre) r' h e = (unfold EndsName in h, λ nil. cc)

      on :
          (o : Option Reading)
          → read_slot cal r ent ≡ o
          → ((r' : Reading)
              → EndsName pre
              → (pre ≡ [] → r'.parts ≡ [])
              → read_slots cal r' (pre ++ xs) ≡ read_slots cal r' (pre ++ ys))
          → read_on_slots cal (λ r'. read_slots cal r' (pre ++ xs)) r o
            ≡ read_on_slots cal (λ r'. read_slots cal r' (pre ++ ys)) r o
      on none e next = refl
      on (some r') e next = let (h', none_left') = parts pre r' h e in next r' h' none_left'

  -- A slot that was marked is read as nothing.
  read_slots-deleted :
      (ent : Bytes) (rest : List Bytes) (r : Reading)
      → 0 < length ent
      → r.parts ≡ []
      → read_slots cal r (deleted ent ∷ rest) ≡ read_slots cal r rest
  unfolding read_slots read_on_slots read_slot
  read_slots-deleted [] rest r h none_left = absurd (omega (arith, h))
  read_slots-deleted (b ∷ ent) rest r h none_left =
      ap (λ t. read_slots cal (record r { parts = t }) rest) (sym none_left)

  read_slots-erased :
      (rest ys ls : List Bytes)
      → All (λ ent. 0 < length ent) ls
      → ((r : Reading) → r.parts ≡ [] → read_slots cal r rest ≡ read_slots cal r ys)
      → (r : Reading) → r.parts ≡ []
      → read_slots cal r (reverse_onto rest (map deleted ls)) ≡ read_slots cal r ys
  unfolding reverse_onto
  read_slots-erased rest ys [] h same r none_left = same r none_left
  read_slots-erased rest ys (ent ∷ ls) (b, h) same r none_left =
      read_slots-erased (deleted ent ∷ rest) ys ls h
        (λ r' nil. read_slots-deleted ent rest r' b nil ∙ same r' nil) r none_left

length-map-deleted : (ls : List Bytes) → length (map deleted ls) ≡ length ls
length-map-deleted [] = refl
length-map-deleted (ent ∷ ls) = ap suc (length-map-deleted ls)

not_empty : (ent : Bytes) (k : ℕ) → get_or ent k 0 ≢ 0 → 0 < length ent
not_empty [] k h = absurd (h refl)
not_empty (b ∷ ent) k h = omega arith

-- A directory cluster of slots, with a file in it: the slots `names` of its long name, none where it has
-- none, and the slot `short`. Once markDirectoryEntryAsDeleted has marked that slot and what is in front
-- of it, a listing that begins at the cluster reads just what it would read if the file's slots were not
-- there: the file is gone, and nothing else. The slot in front of the file's is no part of a long name.
pub read_slots-mark_slot :
    (cal : Calendar) (n : ℕ) (block short : Bytes) (pre names post : List Bytes)
    (children : List (Bytes × Dirent))
    → slots_of n block ≡ pre ++ (names ++ short ∷ post)
    → length pre + length names < n
    → All (λ ent. get_or ent 11 0 ≡ 15) names
    → get_or short 0 0 ≢ 0
    → EndsName pre
    → read_slots cal
        (record { parts = []; children = children })
        (slots_of n (mark_slot block (length pre + length names)).0)
      ≡ read_slots cal (record { parts = []; children = children }) (pre ++ post)
read_slots-mark_slot cal n block short pre names post children split inside all live ends =
    let ls = reverse_onto [] names in
    let count = length-reverse names in
    let at : length pre + length names ≡ length pre + length ls = omega (arith, count) in
    let start : Reading = record { parts = []; children = children } in
    let shape : slots_of n block ≡ behind pre (short ∷ post) ls =
      split ∙ ap (λ t. pre ++ t) (sym (reverse_onto-back (short ∷ post) names)) in
    let named = reverse_onto-All (λ ent. get_or ent 11 0 ≡ 15) [] names tt all in
    let shorter = length-map-deleted ls in
    let at' : length pre + length names ≡ length pre + length (map deleted ls) =
      omega (arith, count, shorter) in
    let back : mark_slots_back (slots_of n block) (length pre + length names)
        ≡ behind pre (short ∷ post) (map deleted ls) =
      rw (shape, at) (mark_slots_back-behind pre (short ∷ post) ls ends named) in
    let last : delete_at (behind pre (short ∷ post) (map deleted ls)) (length pre + length names)
        ≡ behind pre (deleted short ∷ post) (map deleted ls) =
      rw at' (delete_at-behind pre short post (map deleted ls)) in
    let gone =
      slots_of-mark_slot n (length pre + length names) block inside
      ∙ ap (λ t. delete_at t (length pre + length names)) back
      ∙ last in
    rw gone (
      read_slots-same cal pre (reverse_onto (deleted short ∷ post) (map deleted ls)) post start ends
        (λ _. refl)
        (read_slots-erased cal (deleted short ∷ post) post ls
          (All-map (λ ent. get_or ent 11 0 ≡ 15) (λ ent. 0 < length ent) ls
            (λ ent e. not_empty ent 11 (λ z. omega (arith, z, e))) named)
          (λ r nil. read_slots-deleted cal short post r (not_empty short 0 live) nil)))
