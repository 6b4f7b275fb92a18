-- ===== src/Volume/Fat32/Flush/Words.antt =====
-- Words of the table among the bytes of the device: what a write of a block of them changes.
use bas_cpp.Prelude.{
  put_bytes, length-put_bytes, put_bytes-append, get_or-put_bytes_in, get_or-put_bytes_out, ℕ, zero,
  suc, ◌+◌, ◌*◌, ◌/◌, ◌%◌, ◌^◌, ◌≤◌, ◌<◌, ◌≡◌, refl, List, arith, ◌⊎◌, inl, inr, length, get_or,
  Bytes,
}
use native.Mathlib.Decide.{dec_lt}
use bas_cpp.Volume.Fat32.Flush.{read_le32, le32, block_of}

-- The word of a cluster, in a table that begins at an offset.
abbrev pub word_at : Bytes → ℕ → ℕ → ℕ
word_at bytes offset cluster = read_le32 bytes (offset + cluster * 4)

-- The word, written to a place, read back from it.
le32_lem :
    (v : ℕ)
    → v < 2 ^ 32
    → v % 2 ^ 8
        + (v / 2 ^ 8) % 2 ^ 8 * 2 ^ 8
        + (v / 2 ^ 16) % 2 ^ 8 * 2 ^ 16
        + (v / 2 ^ 24) % 2 ^ 8 * 2 ^ 24
      ≡ v
le32_lem v h = omega arith

pub length-block_of :
    (entries : List ℕ) (start count : ℕ) → length (block_of entries start count) ≡ count * 4
unfolding block_of
length-block_of entries start zero = omega arith
length-block_of entries start (suc n) = omega (arith, length-block_of entries (start + 1) n)

-- A word that was put is read back.
word-put_self :
    (bytes : Bytes) (p v : ℕ)
    → v < 2 ^ 32
    → p + 4 ≤ length bytes
    → read_le32 (put_bytes bytes p (le32 v)) p ≡ v
word-put_self bytes p v small room =
    let r = λ (k : ℕ) (h : k < 4). get_or-put_bytes_in bytes p k (le32 v) h room in
    let at : p + 0 ≡ p = omega arith in
    let zeroth = rw at at (r 0 (omega arith)) in
    rw (zeroth, r 1 (omega arith), r 2 (omega arith), r 3 (omega arith)) (le32_lem v small)

-- A put elsewhere leaves a word alone.
word-put_out :
    (bytes : Bytes) (offset p : ℕ) (bs : Bytes)
    → (p + 4 ≤ offset) ⊎ (offset + length bs ≤ p)
    → read_le32 (put_bytes bytes offset bs) p ≡ read_le32 bytes p
word-put_out bytes offset p bs h =
    let r = λ (k : ℕ) (b : k < 4). get_or-put_bytes_out bytes offset (p + k) bs (ground arith) in
    let at : p + 0 ≡ p = omega arith in
    let zeroth = rw at at (r 0 (omega arith)) in
    rw (zeroth, r 1 (omega arith), r 2 (omega arith), r 3 (omega arith)) refl

abbrev pub Small : List ℕ → Type 0
Small entries = (k : ℕ) → get_or entries k 0 < 2 ^ 32

-- The words of a block that was written: the entries of its clusters.
pub word_at-put_block_in :
    (entries : List ℕ) (offset start count c : ℕ) (bytes : Bytes)
    → Small entries
    → start ≤ c
    → c < start + count
    → offset + (start + count) * 4 ≤ length bytes
    → word_at (put_bytes bytes (offset + start * 4) (block_of entries start count)) offset c
      ≡ get_or entries c 0
unfolding block_of
word_at-put_block_in entries offset start zero c bytes small lo hi room = absurd (omega arith)
word_at-put_block_in entries offset start (suc n) c bytes small lo hi room =
    let v = get_or entries start 0 in
    let p = offset + start * 4 in
    let first = put_bytes bytes p (le32 v) in
    let len : length first ≡ length bytes = length-put_bytes bytes p (le32 v) in
    let next : offset + (start + 1) * 4 ≡ p + 4 = omega arith in
    let later = λ (h : start + 1 ≤ c).
      word_at-put_block_in entries offset (start + 1) n c first small h (omega arith)
        (omega (arith, len)) in
    rw (put_bytes-append bytes p (le32 v) (block_of entries (start + 1) n), ← next)
      (elim (dec_lt start c) [
        | yes h ↦ later (omega arith)
        | no h ↦
            let same : c ≡ start = omega arith in
            rw
              (
                same,
                word-put_out first (offset + (start + 1) * 4) p (block_of entries (start + 1) n)
                    (inl (omega arith)),
              )
              (word-put_self bytes p v (small start) (omega arith))
      ])

pub word_at-put_block_out :
    (entries : List ℕ) (offset start count c : ℕ) (bytes : Bytes)
    → (c < start) ⊎ (start + count ≤ c)
    → word_at (put_bytes bytes (offset + start * 4) (block_of entries start count)) offset c
      ≡ word_at bytes offset c
word_at-put_block_out entries offset start count c bytes h =
    let len = length-block_of entries start count in
    word-put_out bytes (offset + start * 4) (offset + c * 4) (block_of entries start count)
      (elim h [ inl lo ↦ inl (omega arith) | inr hi ↦ inr (omega (arith, len)) ])
