-- ===== src/Volume/Fat32/Directory/Placement.antt =====
-- Where writeDirectoryEntryToDisk puts the slots of a new entry: only where slots are free.
use bas_cpp.Prelude.{
  ℕ, ◌+◌, ◌≤◌, ◌<◌, ◌≡◌, ◌≢◌, ◌⊎◌, inl, inr, refl, Bool, true, false, Option, none, some, arith,
  leb, Bool-cases, length, get_or, Bytes,
}
use bas_cpp.Volume.Fat32.Directory.{
  Scan, scan_start, scan_slots, in_extension, in_deleted, in_empty, place,
}
use bas_cpp.Volume.Fat32.Directory.Scanning.{IsDeleted, Scanned, start-Scanned, scan_slots-Scanned}

-- A slot that may be written: never used, or deleted.
abbrev pub IsFree : ℕ → Type 0
IsFree b = (b ≡ 0) ⊎ IsDeleted b

-- What the slots are, from `start` on, that are chosen of those whose first bytes are `bytes`. In the
-- directory as it is: as many as are needed, free, and none but used ones in front. In its extension: all
-- from there on are unused.
pub IsPlace : ℕ → Bytes → Bool → ℕ × Bool → Type 0
IsPlace required bytes broke (start, true) =
    (start + required ≤ length bytes)
    × ((k : ℕ) → k < required → IsFree (get_or bytes (start + k) 1))
    × ((k : ℕ) → k < start → get_or bytes k 1 ≢ 0)
IsPlace required bytes broke (start, false) =
    (start ≤ length bytes)
    × ((k : ℕ) → start ≤ k → k < length bytes → get_or bytes k 1 ≡ 0)
    × (broke ≡ false → (k : ℕ) → k < start → get_or bytes k 1 ≢ 0)

module _ (required : ℕ) (bytes : Bytes) where
  abbrev byte_at : ℕ → ℕ
  byte_at k = get_or bytes k 1

  module _ (s : Scan) (j : ℕ) (h : Scanned required byte_at j s) (few : j ≤ length bytes)
      (all : s.broke ≡ false → j ≡ length bytes) where
    in_extension-IsPlace :
        (o : Option ℕ)
        → s.empty_start ≡ o
        → IsPlace required bytes s.broke (in_extension s (length bytes) o, false)
    unfolding in_extension IsPlace
    in_extension-IsPlace none e = (
      omega arith,
      λ k a b. absurd (omega (arith, a, b)),
      λ going k b. let l = all going in h.all_used e k (omega (arith, l, b)),
    )
    in_extension-IsPlace (some start) e = elim (Bool-cases s.broke) [
      | inl t ↦ rw t (omega arith, λ k a b. absurd (omega (arith, a, b)), λ going. absurd cc)
      | inr t ↦
          let l = all t in
          let ends = h.all_empty start e t in
          rw t (
            omega (arith, l, ends),
            λ k a b. h.empty_from start e k a (omega (arith, b, l, ends)),
            λ _. h.used_before start e,
          )
    ]

    in_deleted-IsPlace :
        (o : Option ℕ)
        → s.candidate ≡ o
        → IsPlace required bytes s.broke (in_deleted s (length bytes) o)
    unfolding in_deleted
    in_deleted-IsPlace none e = in_extension-IsPlace s.empty_start refl
    in_deleted-IsPlace (some c) e =
        let inside = h.candidate_in c e in
        unfold IsPlace in
        (
          omega (arith, inside, few),
          λ k b. inr (h.candidate_deleted c e (c + k) (omega arith) (omega (arith, b))),
          h.candidate_used c e,
        )

    in_empty-IsPlace :
        (o : Option ℕ)
        → s.empty_start ≡ o
        → IsPlace required bytes s.broke (in_empty required s (length bytes) o)
    unfolding in_empty
    in_empty-IsPlace none e = in_deleted-IsPlace s.candidate refl
    in_empty-IsPlace (some start) e = elim (Bool-cases (leb required s.empty_len)) [
      | inl t ↦
          let inside = h.marker_in start e in
          let enough : required ≤ s.empty_len = ground (arith, t) in
          rw t (
            unfold IsPlace in
            (
              omega (arith, inside, enough, few),
              λ k b.
                  inl (h.empty_from start e (start + k) (omega arith) (omega (arith, b, enough))),
              h.used_before start e,
            ))
      | inr t ↦ rw t (in_deleted-IsPlace s.candidate refl)
    ]

-- The slots that writeDirectoryEntryToDisk chooses for a new entry, of a directory whose slots have the
-- first bytes that are given, are free. In the directory as it is, they are as many as are needed, all
-- inside, each never used or deleted, and every slot in front of them is in use or deleted, so that a
-- listing comes to them. In an extension, all slots from the chosen one to the end are unused, and a
-- listing comes to them unless something stood behind the end marker.
pub place-IsPlace :
    (required : ℕ) (bytes : Bytes)
    → IsPlace required bytes
        (scan_slots required scan_start bytes).broke
        (place required (scan_slots required scan_start bytes) (length bytes))
unfolding place
place-IsPlace required bytes =
    let s = scan_slots required scan_start bytes in
    let (j, h, few, all) =
      scan_slots-Scanned required (λ k. get_or bytes k 1) bytes 0 scan_start
        (λ k b. let at : 0 + k ≡ k = omega arith in rw at refl)
        (start-Scanned required (λ k. get_or bytes k 1)) refl in
    in_empty-IsPlace required bytes s j h (omega (arith, few))
      (λ e. let l = all e in omega (arith, l)) s.empty_start refl
