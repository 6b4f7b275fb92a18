-- ===== src/Volume/Fat32/Removal/Marks.antt =====
-- The marks of markDirectoryEntryAsDeleted, as changes of slots.
use bas_cpp.Prelude.{
  ℕ, zero, suc, ◌+◌, ◌*◌, ◌≤◌, ◌<◌, ◌≡◌, inl, inr, refl, ap, ◌∙◌, List, [], ◌∷◌, arith,
  if◌then◌else◌, ◌==◌, Bool-cases, get_or, set, take, drop, Bytes, get_or-take, get_or-drop,
}
use bas_cpp.Volume.Fat32.Directory.{slots_of}
use bas_cpp.Volume.Fat32.Removal.{mark_back, mark_slot}

-- A slot whose first byte is 0xE5.
abbrev pub deleted : Bytes → Bytes
deleted ent = set ent 0 229

abbrev pub delete_at : List Bytes → ℕ → List Bytes
delete_at slots i = set slots i (deleted (get_or slots i []))

abbrev pub attribute : Bytes → ℕ
attribute ent = get_or ent 11 0

-- The loop back, over slots.
abbrev pub mark_slots_back : List Bytes → ℕ → List Bytes
mark_slots_back slots zero = slots
mark_slots_back slots (suc i) =
    let further = mark_slots_back (delete_at slots i) i in
    if attribute (get_or slots i []) == 15 then further else slots

take-set_ge : (n j v : ℕ) (xs : Bytes) → take n (set xs (n + j) v) ≡ take n xs
take-set_ge zero j v xs = refl
take-set_ge (suc n) j v [] = refl
take-set_ge (suc n) j v (x ∷ xs) =
    let at : suc n + j ≡ suc (n + j) = omega arith in rw at (ap (λ t. x ∷ t) (take-set_ge n j v xs))

drop-set_ge : (n j v : ℕ) (xs : Bytes) → drop n (set xs (n + j) v) ≡ set (drop n xs) j v
drop-set_ge zero j v xs = let at : 0 + j ≡ j = omega arith in rw at refl
drop-set_ge (suc n) j v [] = refl
drop-set_ge (suc n) j v (x ∷ xs) =
    let at : suc n + j ≡ suc (n + j) = omega arith in rw at (drop-set_ge n j v xs)

drop-set_lt : (n j v : ℕ) (xs : Bytes) → j < n → drop n (set xs j v) ≡ drop n xs
drop-set_lt zero j v xs h = absurd (omega (arith, h))
drop-set_lt (suc n) j v [] h = refl
drop-set_lt (suc n) zero v (x ∷ xs) h = refl
drop-set_lt (suc n) (suc j) v (x ∷ xs) h = drop-set_lt n j v xs (omega (arith, h))

take-set_zero : (n v : ℕ) (xs : Bytes) → take (suc n) (set xs 0 v) ≡ set (take (suc n) xs) 0 v
take-set_zero n v [] = refl
take-set_zero n v (x ∷ xs) = refl

-- The first byte of a slot of the block.
slots_of-set :
    (n i : ℕ) (block : Bytes)
    → i < n
    → slots_of n (set block (i * 32) 229) ≡ delete_at (slots_of n block) i
unfolding slots_of
slots_of-set zero i block h = absurd (omega (arith, h))
slots_of-set (suc n) zero block h =
    rw (take-set_zero 31 229 block, drop-set_lt 32 0 229 block (omega arith)) refl
slots_of-set (suc n) (suc i) block h =
    let at : suc i * 32 ≡ 32 + i * 32 = omega arith in
    let ih = slots_of-set n i (drop 32 block) (omega (arith, h)) in
    rw (at, take-set_ge 32 (i * 32) 229 block, drop-set_ge 32 (i * 32) 229 block, ih) refl

-- Another byte of a slot.
get_or-slots_of :
    (n i k : ℕ) (block : Bytes)
    → i < n
    → k < 32
    → get_or (get_or (slots_of n block) i []) k 0 ≡ get_or block (i * 32 + k) 0
unfolding slots_of
get_or-slots_of zero i k block h b = absurd (omega (arith, h))
get_or-slots_of (suc n) zero k block h b =
    let at : 0 * 32 + k ≡ k = omega arith in rw at (get_or-take 32 k block 0 b)
get_or-slots_of (suc n) (suc i) k block h b =
    let at : 32 + (i * 32 + k) ≡ suc i * 32 + k = omega arith in
    get_or-slots_of n i k (drop 32 block) (omega (arith, h)) b
    ∙ get_or-drop 32 (i * 32 + k) block 0
    ∙ ap (λ j. get_or block j 0) at

slots_of-mark_back :
    (n i : ℕ) (block : Bytes)
    → i ≤ n
    → slots_of n (mark_back block i).0 ≡ mark_slots_back (slots_of n block) i
unfolding mark_back
slots_of-mark_back n zero block h = refl
slots_of-mark_back n (suc i) block h =
    let same = get_or-slots_of n i 11 block (omega (arith, h)) (omega arith) in
    let ih =
      slots_of-mark_back n i (set block (i * 32) 229) (omega (arith, h))
      ∙ ap (λ t. mark_slots_back t i) (slots_of-set n i block (omega (arith, h))) in
    elim (Bool-cases (get_or block (i * 32 + 11) 0 == 15)) [
      | inl e ↦ rw (same, e) ih
      | inr e ↦ rw (same, e) refl
    ]

-- The marks on the block are marks on its slots.
pub slots_of-mark_slot :
    (n i : ℕ) (block : Bytes)
    → i < n
    → slots_of n (mark_slot block i).0 ≡ delete_at (mark_slots_back (slots_of n block) i) i
unfolding mark_slot
slots_of-mark_slot n i block h =
    slots_of-set n i (mark_back block i).0 h
    ∙ ap (λ t. delete_at t i) (slots_of-mark_back n i block (omega (arith, h)))
